-- ===== src/Dnssec/Authenticator/Judge.antt =====
-- dnssec/result.go: the verdict on a chain of results.
-- `none` is a run-time panic: an earlier message has an empty question section.
use Prim.Native.Nat.{min}
use resolver_lib.Prelude.{
  ℕ, ◌==◌, Bool, true, false, not, ◌&&◌, List, [], ◌∷◌, Option, none, some, if◌then◌else◌, name_eq,
  ◌>>=◌, get_last?, drop,
}
use resolver_lib.Dns.{Rr, Msg, Question, GoError, type_ds, type_soa, type_cname, no_results}
use resolver_lib.Dnssec.Status.{
  AuthenticationResult, unknown, insecure, secure, bogus, is_bogus, is_secure,
  DenialOfExistenceState, not_found, nsec_missing_ds, nsec_no_data, nsec_nx_domain, nsec_wildcard,
  nsec3_missing_ds, nsec3_no_data, nsec3_nx_domain, nsec3_opt_out, nsec3_wildcard,
}
use resolver_lib.Dnssec.Env.{Env}
use resolver_lib.Dnssec.Records.{records_of_type_exist, extract_records_of_name_and_type}
use resolver_lib.Dnssec.Signatures.{Signature}
use resolver_lib.Dnssec.Outcome.{Result, first_question}
use resolver_lib.Dnssec.Authenticator.{Authenticator, drain_all}

pub record Verdict : Type 0 where
  pub auth : AuthenticationResult
  pub doe : DenialOfExistenceState
  pub err : Option GoError

abbrev pub verdict : AuthenticationResult → DenialOfExistenceState → Option GoError → Verdict
verdict s d e = record { auth = s; doe = d; err = e }

-- The first bogus result.
unfoldable pub find_bogus : List Result → Option Result
find_bogus [] = none
find_bogus (r ∷ rs) = if is_bogus r.state then some r else find_bogus rs

module _ (env : Env) where
  open env use {dns}

  -- The verdict at the first result that is not secure, by what the result before it denies.
  unfoldable pub break_verdict : Result → Result → Option Verdict
  break_verdict previous current =
      let doe = previous.denial_of_existence in
      let bad : Verdict = verdict bogus doe current.err in
      let broken : Verdict = verdict insecure doe current.err in
      let no_data : Option Verdict = first_question previous.msg >>= λ q. some (
        if (q.qtype == type_ds)
          && name_eq (dns.canonical_name q.qname) (dns.canonical_name current.zone.name)
        then broken
        else bad) in
      elim doe [
        | nsec3_opt_out ↦ some broken
        | nsec_missing_ds ↦ some broken
        | nsec3_missing_ds ↦ some broken
        | nsec_no_data ↦ no_data
        | nsec3_no_data ↦ no_data
        | _ ↦ some bad
      ]

  -- The walk along the chain; the inner `none` is a chain of secure results only.
  unfoldable pub walk : Option Result → List Result → Option (Option Verdict)
  unfolding break_verdict
  walk previous [] = some none
  walk previous (r ∷ rs) =
      let rest = walk (some r) rs in
      let stop : Option (Option Verdict) = elim previous [
        | none ↦ some (some (verdict r.state r.denial_of_existence r.err))
        | some p ↦ break_verdict p r >>= λ v. some (some v)
      ] in
      if is_secure r.state then rest else stop

abbrev pub is_nil : List Rr → Bool
is_nil [] = true
is_nil (_ ∷ _) = false

-- A positive answer: no SOA in the authority section, and an answer of the type or a CNAME.
unfoldable pub answers_question : Question → Msg → Bool
answers_question q msg =
    if records_of_type_exist msg.ns_section type_soa
    then false
    else if not (is_nil (extract_records_of_name_and_type msg.answer q.qname q.qtype))
    then true
    else not (is_nil (extract_records_of_name_and_type msg.answer q.qname type_cname))

abbrev positive_state : Question → Result → AuthenticationResult
positive_state q last = if answers_question q last.msg then secure else bogus

-- The state for the last result of a chain, by what it denies.
unfoldable pub last_state : Question → Result → AuthenticationResult
unfolding answers_question
last_state q last =
    if not (is_secure last.state) then last.state else elim last.denial_of_existence [
      | nsec3_opt_out ↦ insecure
      | nsec_nx_domain ↦ secure
      | nsec3_nx_domain ↦ secure
      | nsec_no_data ↦ secure
      | nsec3_no_data ↦ secure
      | nsec_missing_ds ↦ bogus
      | nsec3_missing_ds ↦ bogus
      | not_found ↦ positive_state q last
      | nsec_wildcard ↦ positive_state q last
      | nsec3_wildcard ↦ positive_state q last
    ]

module _ (env : Env) where
  -- `Result` once the buffer is drained.
  unfoldable pub judge : Question → List Result → Option Verdict
  unfolding find_bogus walk last_state
  judge q results = elim (get_last? results) [
    | none ↦ some (verdict unknown not_found (some no_results))
    | some last ↦ elim (find_bogus results) [
      | some r ↦ some (verdict bogus not_found r.err)
      | none ↦ walk env none results >>= λ w. (elim w [
        | some v ↦ some v
        | none ↦ some (verdict (last_state q last) last.denial_of_existence last.err)
      ])
    ]
  ]

  unfoldable pub result : Authenticator → Option (Authenticator × Verdict)
  unfolding judge drain_all
  result a = drain_all env a (drop a.input_buffer_idx a.input_buffer) >>= λ s. (elim s.err [
    | some e ↦ some (s.auth, verdict unknown not_found (some e))
    | none ↦ judge s.auth.question s.auth.results >>= λ v. some (s.auth, v)
  ])

-- `resultTTL`.
unfoldable pub ttl_loop : ℕ → Bool → ℕ → List Signature → ℕ × Bool
ttl_loop rtype found ttl [] = if found then (ttl, true) else (0, false)
ttl_loop rtype found ttl (s ∷ ss) =
    let hit = (s.rtype == rtype) && s.verified in
    ttl_loop rtype (if hit then true else found) (if hit then min ttl s.ttl else ttl) ss

module _ (env : Env) where
  unfoldable pub result_ttl : ℕ → List Signature → ℕ × Bool
  unfolding ttl_loop
  result_ttl rtype ss = ttl_loop rtype false env.max_allowed_ttl ss

  unfoldable pub result_ttl_answer : Authenticator → ℕ → ℕ × Bool
  unfolding result_ttl
  result_ttl_answer a rtype = elim (get_last? a.results) [
    | none ↦ (0, false)
    | some last ↦ result_ttl rtype last.answer
  ]

  unfoldable pub result_ttl_authority : Authenticator → ℕ → ℕ × Bool
  unfolding result_ttl
  result_ttl_authority a rtype = elim (get_last? a.results) [
    | none ↦ (0, false)
    | some last ↦ result_ttl rtype last.authority
  ]
