-- ===== src/Tests/Witnesses.antt =====
-- The theorems on the validator at concrete inputs, and a run of it: a root zone that signs one
-- address.
use resolver_lib.Prelude.{
  ◌≡◌, refl, ◌≢◌, ◌≤◌, Bool, true, Option, none, some, List, [], ◌∷◌, get_last?, All,
}
use resolver_lib.Dns.{header}
use resolver_lib.Dnssec.Status.{secure, bogus, not_found}
use resolver_lib.Dnssec.Outcome.{Outcome, Result, new_result}
use resolver_lib.Dnssec.Signatures.{
  Signature, filter_on_type, count_name_type_combinations, verify_one_or_more_rrsig_per_rrset,
}
use resolver_lib.Dnssec.Authenticator.{Authenticator, Step, step, new_auth, add_response}
use resolver_lib.Dnssec.Authenticator.Answers.{Concludes}
use resolver_lib.Dnssec.Authenticator.Judge.{verdict, result, judge}
use resolver_lib.Dnssec.Authenticator.Chain.{HasChain, add_response-HasChain}
use resolver_lib.Dnssec.Authenticator.Verdicts.{AllSecure, judge_secure}
use resolver_lib.Dnssec.Verify.{verify}
use resolver_lib.Dnssec.Verify.Keys.{verify_dnskeys, verify_rrsets, key_signing_keys, equal_fold}
use resolver_lib.Dnssec.Verify.Responses.{validate_positive_response}
use resolver_lib.Dnssec.Authenticate.{
  authenticate, time_left, lowest_ttl, key_matches, check_signature, new_signature,
}
use resolver_lib.Dnssec.Records.{
  extract_records, extract_records_of_name_and_type, records_of_type_exist, names_equal,
}
use resolver_lib.Tests.World.{codes, env, root, root_zone, question, reply, qname, key, signed}
use resolver_lib.Prelude.{◌↔◌}
use resolver_lib.Dns.{Rr, dnskey}
use resolver_lib.Dnssec.Signatures.Verdicts.{EachTypeVouched, verify_one_or_more_iff}
use resolver_lib.Dnssec.Authenticate.Soundness.{IsAuthentic, check_signature_iff}
use resolver_lib.Dnssec.Authenticate.Ttl.{check_signature_ttl_bounds}
use resolver_lib.Dnssec.Authenticator.{Input}
use resolver_lib.Resolver.Queue.{Queue, new_authenticator, work_off, queue_result}

abbrev stepped : Option Step → Authenticator
stepped none = new_auth env question
stepped (some s) = s.auth

-- Everything that a run of the validator computes with.
unfoldable runs : Bool
unfolding new_auth add_response result verify verify_dnskeys verify_rrsets key_signing_keys
    equal_fold validate_positive_response authenticate count_name_type_combinations
    verify_one_or_more_rrsig_per_rrset time_left lowest_ttl key_matches filter_on_type
    extract_records extract_records_of_name_and_type records_of_type_exist names_equal
runs = true

unfoldable pub final : Authenticator
unfolding runs
final = stepped (add_response env (new_auth env question) root_zone reply)

pub reply_added : add_response env (new_auth env question) root_zone reply ≡ some (step final none)
unfolding final
reply_added = refl

abbrev pub finished : Authenticator
finished = record final { input_buffer_idx = 2 }

final_answer : result env final ≡ some (finished, verdict secure not_found none)
unfolding final
final_answer = refl

add_response-HasChain_example : HasChain env final
add_response-HasChain_example =
    add_response-HasChain env (new_auth env question) root_zone reply (step final none)
      (unfold new_auth in tt) reply_added

abbrev pub worked_off : Queue
worked_off = record { auth = final; errors = [] }

abbrev pub sent : List Input
sent = record { zone = root_zone; msg = reply } ∷ []

pub sent-worked_off : work_off env (new_authenticator env question) sent ≡ some worked_off
unfolding work_off
sent-worked_off = rw reply_added

pub queue_answer : queue_result env worked_off ≡ some (finished, verdict secure not_found none)
unfolding queue_result
queue_answer = final_answer

first_outcome : Outcome
unfolding runs
first_outcome = elim (verify env root_zone reply env.root_trust_anchors) [
  | none ↦ record { result = new_result root_zone reply; status = bogus; err = none }
  | some o ↦ o
]

judged : judge env question finished.results ≡ some (verdict secure not_found none)
unfolding final
judged = refl

judge_secure_example :
    AllSecure finished.results
    × ((last : Result) × (get_last? finished.results ≡ some last)
        × (not_found ≡ last.denial_of_existence)
        × Concludes question last)
judge_secure_example =
    judge_secure env question finished.results (verdict secure not_found none) judged refl

abbrev fresh : Signature
fresh = new_signature env root reply.answer (signed qname 1 1)

check_signature_iff_example :
    ((check_signature env (key ∷ []) fresh).verified ≡ true) ↔ IsAuthentic env (key ∷ []) fresh
check_signature_iff_example = check_signature_iff env (key ∷ []) fresh refl

check_signature_ttl_bounds_example :
    let sig = check_signature env (key ∷ []) fresh in
    (sig.ttl ≤ (signed qname 1 1).header.ttl)
    × (sig.ttl ≤ 200)
    × (sig.ttl ≤ time_left 1100 1000)
    × All (λ r. sig.ttl ≤ (header r).ttl) fresh.rrset
check_signature_ttl_bounds_example =
    check_signature_ttl_bounds env root reply.answer (signed qname 1 1) (key ∷ []) checked
  where
    checked : (check_signature env (key ∷ []) fresh).verified ≡ true
    checked = unfold check_signature runs in refl

abbrev good : Signature
good = record fresh { verified = true }

abbrev forged : Signature
forged = record fresh { name = codes "b." }

verify_one_or_more_iff_example :
    (verify_one_or_more_rrsig_per_rrset (good ∷ forged ∷ []) ≡ none)
    ↔ (((good ∷ forged ∷ []) ≢ []) × EachTypeVouched (good ∷ forged ∷ []))
verify_one_or_more_iff_example = verify_one_or_more_iff (good ∷ forged ∷ [])

abbrev keys : List Rr
keys = dnskey key ∷ []
