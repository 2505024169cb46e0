-- ===== src/Dnssec/Authenticator.antt =====
-- dnssec/authenticator.go: the buffer of responses and the chain of zones; the verdict on the chain
-- is in `Judge`.
-- `none` is a run-time panic: an empty question section, or a zone with more labels than the name
-- that was asked for.
pub mod Judge
pub mod Answers
pub mod Chain
pub mod Buffer
pub mod Verdicts
pub mod Ttls
use Prim.Native.Nat.{min}
use resolver_lib.Prelude.{
  ℕ, suc, ◌+◌, ◌==◌, Bool, true, false, not, ◌&&◌, List, [], ◌∷◌, ◌++◌, Option, none, some,
  if◌then◌else◌, name_eq, Name, ◌>>=◌, get_elem?, get_last?, set, replicate, drop,
}
use resolver_lib.Dns.{
  Rr, Rrsig, Ds, Msg, Question, GoError, type_ds, type_soa, type_cname, not_subdomain, same_name,
  missing_ds_record, duplicate_input_for_zone, no_results,
}
use resolver_lib.Dnssec.Status.{
  AuthenticationResult, unknown, insecure, secure, bogus, is_bogus, is_secure, is_unknown,
  DenialOfExistenceState, not_found, nsec_missing_ds, nsec_no_data, nsec_nx_domain, nsec_wildcard,
  nsec3_missing_ds, nsec3_no_data, nsec3_nx_domain, nsec3_opt_out, nsec3_wildcard,
}
use resolver_lib.Dnssec.Env.{Env, Zone}
use resolver_lib.Dnssec.Records.{
  extract_records, as_rrsig, names_equal, records_of_type_exist, extract_records_of_name_and_type,
}
use resolver_lib.Dnssec.Signatures.{Signature}
use resolver_lib.Dnssec.Outcome.{Result, Outcome, first_question}
use resolver_lib.Dnssec.Verify.{verify}

pub record Input : Type 0 where
  pub zone : Zone
  pub msg : Msg

pub record Authenticator : Type 0 where
  pub question : Question
  pub input_buffer : List (Option Input)
  pub input_buffer_idx : ℕ
  pub results : List Result

-- The state, and the error that a method returns with it.
pub record Step : Type 0 where
  pub auth : Authenticator
  pub err : Option GoError

abbrev pub step : Authenticator → Option GoError → Step
step a e = record { auth = a; err = e }

-- `Unknown` ends as bogus, and an error is kept for the caller.
abbrev pub settled_state : AuthenticationResult → AuthenticationResult
settled_state s = if is_unknown s then bogus else s

abbrev pub settle : Outcome → Result
settle o = elim o.err [
  | none ↦ record o.result { state = settled_state o.status }
  | some e ↦ record o.result { err = some e; state = settled_state o.status }
]

module _ (env : Env) where
  open env use {dns}

  unfoldable pub new_auth : Question → Authenticator
  new_auth question = record {
    question = question;
    input_buffer = replicate (dns.count_label question.qname + 1) none;
    input_buffer_idx = 0;
    results = [];
  }

  -- The DS records that vouch for the next zone.
  abbrev pub ds_records_of : Option Result → List Ds
  ds_records_of none = env.root_trust_anchors
  ds_records_of (some last) = last.ds_records

  -- The checks against the last result.
  abbrev pub order_error : Option Result → Zone → Option GoError
  order_error none zone = none
  order_error (some last) zone =
      if not (dns.is_sub_domain last.zone.name zone.name)
      then some not_subdomain
      else if names_equal dns last.zone.name zone.name
      then some same_name
      else none

  -- The check that the signer is the owner of the DS records: where it is not, some zone between
  -- the two was skipped, and the caller is told which DS records are missing.
  unfoldable pub signer_error : Name → List Rrsig → List Ds → Option GoError
  signer_error qname [] ds_records = none
  signer_error qname (s ∷ rrsigs) [] = none
  signer_error qname (s ∷ rrsigs) (d ∷ ds_records) =
      let signer_name = dns.canonical_name s.signer_name in
      if name_eq (dns.canonical_name d.header.name) signer_name
      then none
      else if not (dns.is_sub_domain signer_name qname)
      then some not_subdomain
      else some (missing_ds_record signer_name)

  unfoldable pub process_response : Authenticator → Zone → Msg → Option Step
  unfolding signer_error
  process_response a zone msg =
      let last = get_last? a.results in
      let rrsigs = extract_records as_rrsig (msg.answer ++ msg.ns_section) in
      elim (order_error last zone) [
        | some e ↦ some (step a (some e))
        | none ↦ elim (signer_error a.question.qname rrsigs (ds_records_of last)) [
          | some e ↦ some (step a (some e))
          | none ↦ verify env zone msg (ds_records_of last) >>= λ o.
              some (step (record a { results = a.results ++ settle o ∷ [] }) none)
        ]
      ]

  abbrev pub advance : Authenticator → Authenticator
  advance a = record a { input_buffer_idx = a.input_buffer_idx + 1 }

  -- The loop of `AddResponse` over what is left of the buffer: it stops at a gap.
  unfoldable pub drain : Authenticator → List (Option Input) → Option Step
  unfolding process_response
  drain a [] = some (step a none)
  drain a (none ∷ rest) = some (step a none)
  drain a (some i ∷ rest) = process_response a i.zone i.msg >>= λ s. elim s.err [
    | some e ↦ some s
    | none ↦ drain (advance s.auth) rest
  ]

  -- The loop of `Result`: it skips the gaps.
  unfoldable pub drain_all : Authenticator → List (Option Input) → Option Step
  unfolding process_response
  drain_all a [] = some (step a none)
  drain_all a (none ∷ rest) = drain_all (advance a) rest
  drain_all a (some i ∷ rest) = process_response a i.zone i.msg >>= λ s. elim s.err [
    | some e ↦ some s
    | none ↦ drain_all (advance s.auth) rest
  ]

  unfoldable pub store_input : Authenticator → Zone → Msg → Option Step
  unfolding drain
  store_input a zone msg =
      let position = dns.count_label zone.name in
      let a' = record a {
        input_buffer = set a.input_buffer position (some (record { zone = zone; msg = msg }));
      } in
      elim (get_elem? a.input_buffer position) [
        | none ↦ none
        | some (some _) ↦ some (step a (some duplicate_input_for_zone))
        | some none ↦ drain a' (drop a'.input_buffer_idx a'.input_buffer)
      ]

  unfoldable pub add_response : Authenticator → Zone → Msg → Option Step
  unfolding store_input
  add_response a zone msg =
      if not (dns.is_sub_domain zone.name a.question.qname)
      then some (step a (some not_subdomain))
      else (first_question msg >>= λ q.
          (if not (dns.is_sub_domain q.qname a.question.qname)
            then some (step a (some not_subdomain))
            else store_input a zone msg))
