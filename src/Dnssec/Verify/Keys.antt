-- ===== src/Dnssec/Verify/Keys.antt =====
-- dnssec/verify_dnskey.go and dnssec/verify_rrset.go.
use resolver_lib.Prelude.{
  ℕ, ◌+◌, ◌==◌, leb, Bool, ◌&&◌, List, [], ◌∷◌, ◌++◌, map, Option, none, some, if◌then◌else◌,
  name_eq, ◌>>=◌,
}
use resolver_lib.Dns.{Rr, Dnskey, Ds, Dns, keys_not_found, bogus_result_found, wrapped}
use resolver_lib.Dnssec.Status.{unknown, insecure, bogus}
use resolver_lib.Dnssec.Env.{Env}
use resolver_lib.Dnssec.Records.{extract_records, as_dnskey}
use resolver_lib.Dnssec.Signatures.{verify_signatures}
use resolver_lib.Dnssec.Authenticate.{authenticate, answer_section, authority_section}
use resolver_lib.Dnssec.Outcome.{Result, Outcome, outcome}

-- `strings.EqualFold` on ASCII texts, which hexadecimal digests are.
abbrev lower : ℕ → ℕ
lower c = if leb b'A' c && leb c b'Z' then c + 32 else c

unfoldable pub equal_fold : List ℕ → List ℕ → Bool
equal_fold s t = name_eq (map lower s) (map lower t)

abbrev pub same_tag : Dns → Ds → Dnskey → Bool
same_tag dns d k = (d.algorithm == k.algorithm) && (d.key_tag == dns.key_tag k)

-- The first key that a DS record stands for. `ToDS` is nil for a digest type that the library does
-- not know, and the code reads its digest all the same.
unfoldable pub key_of : Dns → Ds → List Dnskey → Option (Option Dnskey)
key_of dns d [] = some none
key_of dns d (k ∷ keys) =
    let rest = key_of dns d keys in
    let compared = elim (dns.to_ds k d.digest_type) as (λ _. Option (Option Dnskey)) [
      | none ↦ none
      | some t ↦ if equal_fold d.digest t.digest then some (some k) else rest
    ] in
    if same_tag dns d k then compared else rest

abbrev pub add_key : Option Dnskey → List Dnskey → List Dnskey
add_key none keys = keys
add_key (some k) keys = k ∷ keys

unfoldable pub key_signing_keys : Dns → List Ds → List Dnskey → Option (List Dnskey)
unfolding key_of
key_signing_keys dns [] keys = some []
key_signing_keys dns (d ∷ ds_records) keys = do
  k ← key_of dns d keys
  rest ← key_signing_keys dns ds_records keys
  some (add_key k rest)

module _ (env : Env) where
  -- With the keys that may sign the key set at hand.
  unfoldable pub verify_key_set : Result → List Rr → List Dnskey → Outcome
  unfolding verify_signatures
  verify_key_set r keys [] = outcome r insecure (some keys_not_found)
  verify_key_set r keys (k ∷ ksks) =
      let (ss, err) = authenticate env r.zone.name keys (k ∷ ksks) answer_section in
      elim err [
        | some e ↦ outcome r bogus (some (wrapped bogus_result_found e))
        | none ↦ elim (verify_signatures env.require_all_signatures_valid ss) [
          | some e ↦ outcome (record r { keys = ss }) bogus (some (wrapped bogus_result_found e))
          | none ↦ outcome (record r { keys = ss }) unknown none
        ]
      ]

  unfoldable pub verify_dnskeys : Result → List Rr → List Ds → Option Outcome
  unfolding verify_key_set
  verify_dnskeys r keys ds_records_from_parent = elim (extract_records as_dnskey keys) [
    | [] ↦ some (outcome r insecure (some keys_not_found))
    | k ∷ zone_keys ↦ key_signing_keys env.dns ds_records_from_parent (k ∷ zone_keys) >>= λ ksks.
        some (verify_key_set r keys ksks)
  ]

  unfoldable pub verify_rrsets : Result → List Dnskey → Outcome
  verify_rrsets r keys =
      let (answer, err) = authenticate env r.zone.name r.msg.answer keys answer_section in
      let (authority, err') =
        authenticate env r.zone.name r.msg.ns_section keys authority_section in
      elim err [
        | some e ↦ outcome r bogus (some (wrapped bogus_result_found e))
        | none ↦ elim err' [
          | some e ↦ outcome r bogus (some (wrapped bogus_result_found e))
          | none ↦ elim (verify_signatures env.require_all_signatures_valid (answer ++ authority)) [
            | some e ↦ outcome r bogus (some (wrapped bogus_result_found e))
            | none ↦ outcome (record r { answer = answer; authority = authority }) unknown none
          ]
        ]
      ]
