-- ===== src/Dnssec/Verify.antt =====
-- dnssec/verify.go. The struct `verifier` only lets tests replace the functions that are called
-- here, and `NewAuth` fills it with these.
pub mod Keys
pub mod Responses
pub mod Trust
pub mod Frame
pub mod Delegations
pub mod Secure
use resolver_lib.Prelude.{
  ◌==◌, Bool, true, false, not, ◌&&◌, List, [], ◌∷◌, Option, none, some, if◌then◌else◌, ◌>>=◌,
}
use resolver_lib.Dns.{Ds, Rr, Msg, type_soa, type_ns, failsafe_response}
use resolver_lib.Dnssec.Status.{AuthenticationResult, unknown, insecure, bogus, is_unknown}
use resolver_lib.Dnssec.Env.{Env, Zone, Fetched, fetched, failed}
use resolver_lib.Dnssec.Records.{records_of_type_exist, extract_records, as_dnskey}
use resolver_lib.Dnssec.Outcome.{Result, new_result, Outcome, outcome}
use Keys.{verify_dnskeys, verify_rrsets}
use Responses.{validate_delegating_response, validate_positive_response, validate_negative_response}

abbrev is_empty : List Rr → Bool
is_empty [] = true
is_empty (_ ∷ _) = false

-- `status != Unknown || err != nil`.
abbrev decided : Outcome → Bool
decided o = elim o.err [ some _ ↦ true | none ↦ not (is_unknown o.status) ]

module _ (env : Env) where
  -- The kind of response is read off the signed sections.
  unfoldable pub classify : Result → Option Outcome
  classify r =
      let soa_found_in_authority = records_of_type_exist r.msg.ns_section type_soa in
      if not soa_found_in_authority
        && (is_empty r.msg.answer && records_of_type_exist r.msg.ns_section type_ns)
      then validate_delegating_response env.dns r
      else if not soa_found_in_authority && not (is_empty r.msg.answer)
      then validate_positive_response env.dns r
      else if soa_found_in_authority
      then validate_negative_response env.dns r
      else some (outcome r bogus (some failsafe_response))

  unfoldable pub verify : Zone → Msg → List Ds → Option Outcome
  unfolding classify
  verify zone msg [] = some (outcome (new_result zone msg) insecure none)
  verify zone msg (d ∷ ds_records) = elim zone.dnskey_records [
    | failed e ↦ some (outcome (new_result zone msg) bogus (some e))
    | fetched keys ↦ verify_dnskeys env (new_result zone msg) keys (d ∷ ds_records) >>= λ o.
        (let o' = verify_rrsets env o.result (extract_records as_dnskey keys) in
          if decided o then some o else if decided o' then some o' else classify o'.result)
  ]
