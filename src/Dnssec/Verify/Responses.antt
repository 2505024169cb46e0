-- ===== src/Dnssec/Verify/Responses.antt =====
-- dnssec/verify_delegating.go, verify_positive.go and verify_negative.go.
use resolver_lib.Prelude.{
  ℕ, ◌==◌, Bool, true, false, not, ◌&&◌, ◌||◌, List, [], ◌∷◌, Option, none, some, if◌then◌else◌,
  Name, ◌>>=◌,
}
use resolver_lib.Dns.{
  header, Dns, type_ns, type_cname, type_ds, type_soa, ns_records_have_mismatching_owners,
  bogus_doe_records_not_found, multiple_wildcard_signatures, bogus_wildcard_doe_not_found,
}
use resolver_lib.Dnssec.Status.{
  secure, bogus, DenialOfExistenceState, nsec_missing_ds, nsec_no_data, nsec_nx_domain,
  nsec_wildcard, nsec3_missing_ds, nsec3_no_data, nsec3_nx_domain, nsec3_opt_out, nsec3_wildcard,
}
use resolver_lib.Dnssec.Records.{extract_records_of_type, records_have_the_same_owner}
use resolver_lib.Dnssec.Signatures.{
  Signature, extract_ds_records, extract_nsec_records, extract_nsec3_records,
}
use resolver_lib.Dnssec.Doe.NsecProofs
use resolver_lib.Dnssec.Doe.NsecProofs.{DenialOfExistenceNsec}
use resolver_lib.Dnssec.Doe.Nsec3Proofs
use resolver_lib.Dnssec.Doe.Nsec3Proofs.{
  DenialOfExistenceNsec3, new_denial_of_existence_nsec3, star,
}
use resolver_lib.Dnssec.Outcome.{Result, Outcome, outcome, first_question}

abbrev pub nsec_of : Result → DenialOfExistenceNsec
nsec_of r = record { zone = r.zone.name; records = extract_nsec_records r.authority }

abbrev pub nsec3_of : Result → DenialOfExistenceNsec3
nsec3_of r = new_denial_of_existence_nsec3 r.zone.name (extract_nsec3_records r.authority)

abbrev with_doe : Result → DenialOfExistenceState → Result
with_doe r d = record r { denial_of_existence = d }

-- `nameSeen && !typeSeen` and `nameSeen && typeSeen`.
abbrev only_name : Bool × Bool → Bool
only_name flags = flags.0 && not flags.1

abbrev both : Bool × Bool → Bool
both flags = flags.0 && flags.1

module _ (dns : Dns) where
  abbrev forbidden : List ℕ
  forbidden = type_cname ∷ type_ds ∷ type_soa ∷ []

  -- The bit map shows NS and none of CNAME, DS and SOA.
  unfoldable pub nsec_delegates : DenialOfExistenceNsec → Name → Bool
  nsec_delegates doe name =
      both (NsecProofs.type_bit_map_contains_any_of dns doe name (type_ns ∷ []))
      && only_name (NsecProofs.type_bit_map_contains_any_of dns doe name forbidden)

  unfoldable pub nsec3_delegates : DenialOfExistenceNsec3 → Name → Bool
  nsec3_delegates doe name =
      both (Nsec3Proofs.type_bit_map_contains_any_of dns doe name (type_ns ∷ []))
      && only_name (Nsec3Proofs.type_bit_map_contains_any_of dns doe name forbidden)

  -- The part for a delegation without DS records, at the delegation's name.
  unfoldable pub deny_ds : Result → Name → Outcome
  unfolding nsec_delegates nsec3_delegates
  deny_ds r name =
      if not (NsecProofs.empty (nsec_of r)) && nsec_delegates (nsec_of r) name
      then outcome (with_doe r nsec_missing_ds) secure none
      else if not (Nsec3Proofs.empty (nsec3_of r)) && nsec3_delegates (nsec3_of r) name
      then outcome (with_doe r nsec3_missing_ds) secure none
      else if not (Nsec3Proofs.empty (nsec3_of r))
          && (Nsec3Proofs.perform_closest_encloser_proof dns (nsec3_of r) name).0
      then outcome (with_doe r nsec3_opt_out) secure none
      else outcome r bogus (some bogus_doe_records_not_found)

  unfoldable pub validate_delegating_response : Result → Option Outcome
  unfolding deny_ds
  validate_delegating_response r0 =
      let r = record r0 { ds_records = extract_ds_records r0.authority } in
      let ns_records = extract_records_of_type r.msg.ns_section type_ns in
      elim r.ds_records [
        | _ ∷ _ ↦ some (outcome r secure none)
        | [] ↦
            if not (records_have_the_same_owner ns_records)
            then some (outcome r bogus (some ns_records_have_mismatching_owners))
            else elim ns_records [ [] ↦ none | n ∷ _ ↦ some (deny_ds r (header n).name) ]
      ]

  -- The proofs for one signature made from a wildcard: the result, and whether a proof succeeded.
  unfoldable pub prove_wildcard : Result → Signature → Option (Result × Bool)
  prove_wildcard r sig = do
    nsec_verified ←
        if NsecProofs.empty (nsec_of r)
        then some false
        else (first_question r.msg >>= λ q.
            some (NsecProofs.perform_expanded_wildcard_proof dns (nsec_of r) q.qname))
    nsec3_verified ←
        if Nsec3Proofs.empty (nsec3_of r)
        then some false
        else Nsec3Proofs.perform_expanded_wildcard_proof dns (nsec3_of r) sig.name sig.rrsig.labels
    let r1 = if nsec_verified then with_doe r nsec_wildcard else r
    let r2 = if nsec3_verified then with_doe r1 nsec3_wildcard else r1
    some (r2, nsec_verified || nsec3_verified)

  -- The loop over the answer's signatures.
  unfoldable pub wildcard_loop : List Signature → Bool → Bool → Result → Option Outcome
  unfolding prove_wildcard
  wildcard_loop [] seen verified r =
      if not seen || verified
      then some (outcome r secure none)
      else some (outcome r bogus (some bogus_wildcard_doe_not_found))
  wildcard_loop (sig ∷ ss) seen verified r =
      let skip = wildcard_loop ss seen verified r in
      let proved : Option Outcome =
        prove_wildcard r sig >>= λ p. wildcard_loop ss true (verified || p.1) p.0 in
      if not sig.wildcard
      then skip
      else if seen
      then some (outcome r bogus (some multiple_wildcard_signatures))
      else proved

  unfoldable pub validate_positive_response : Result → Option Outcome
  unfolding wildcard_loop
  validate_positive_response r =
      wildcard_loop r.answer false false (record r { ds_records = extract_ds_records r.answer })

  -- The NSEC3 part of a negative response; `none` where it proves nothing.
  unfoldable pub nsec3_denial : DenialOfExistenceNsec3 → Name → ℕ → Option DenialOfExistenceState
  nsec3_denial doe qname qtype =
      if only_name
        (Nsec3Proofs.type_bit_map_contains_any_of dns doe qname (type_cname ∷ qtype ∷ []))
      then some nsec3_no_data
      else (let (opt_out, encloser, next_closer, wildcard) =
            Nsec3Proofs.perform_closest_encloser_proof dns doe qname in
          let (ce, _, found) = Nsec3Proofs.find_closest_encloser dns doe qname in
          let no_data_wildcard =
            found
            && only_name (
                Nsec3Proofs.type_bit_map_contains_any_of dns doe (star ce)
                  (type_cname ∷ qtype ∷ [])) in
          if opt_out && (qtype == type_ds)
          then some nsec3_opt_out
          else if encloser && (next_closer && (wildcard || no_data_wildcard))
          then some nsec3_nx_domain
          else none)

  unfoldable pub nsec_denial : DenialOfExistenceNsec → Name → ℕ → Option DenialOfExistenceState
  nsec_denial doe qname qtype =
      if only_name (NsecProofs.type_bit_map_contains_any_of dns doe qname (type_cname ∷ qtype ∷ []))
      then some nsec_no_data
      else if NsecProofs.perform_qname_does_not_exist_proof dns doe qname
      then some nsec_nx_domain
      else none

  abbrev denial : Result → Name → ℕ → Option DenialOfExistenceState
  denial r qname qtype =
      let by_nsec3 =
        if Nsec3Proofs.empty (nsec3_of r) then none else nsec3_denial (nsec3_of r) qname qtype in
      elim (if NsecProofs.empty (nsec_of r) then none else nsec_denial (nsec_of r) qname qtype) [
        | some d ↦ some d
        | none ↦ by_nsec3
      ]

  unfoldable pub validate_negative_response : Result → Option Outcome
  unfolding nsec3_denial nsec_denial
  validate_negative_response r = do
    q ← first_question r.msg
    some (elim (denial r q.qname q.qtype) [
      | some d ↦ outcome (with_doe r d) secure none
      | none ↦ outcome r bogus (some bogus_doe_records_not_found)
    ])
