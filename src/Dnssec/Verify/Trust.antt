-- ===== src/Dnssec/Verify/Trust.antt =====
-- What vetted keys and sections are, and what the steps of `verify` of dnssec/verify.go find.
use resolver_lib.Prelude.{
  ◌≡◌, refl, sym, ap, ◌∙◌, ◌≢◌, inl, inr, true, List, [], ◌∷◌, ◌++◌, Option, none, some,
  >>=-eq-some, Bool-cases, Option-cases, arith, In,
}
use resolver_lib.Dns.{Dns, Rr, Ds, Dnskey, Msg, GoError, keys_not_found}
use resolver_lib.Dnssec.Status.{unknown, insecure, secure}
use resolver_lib.Dnssec.Env.{Env, Zone}
use resolver_lib.Dnssec.Records.{extract_records, as_dnskey}
use resolver_lib.Dnssec.Signatures.{Signature, verify_signatures}
use resolver_lib.Dnssec.Authenticate.{authenticate, answer_section, authority_section}
use resolver_lib.Dnssec.Outcome.{Result, Outcome, outcome}
use resolver_lib.Dnssec.Verify.Keys.{
  equal_fold, same_tag, key_of, key_signing_keys, add_key, verify_key_set, verify_dnskeys,
  verify_rrsets,
}

-- A DS record of the parent stands for a key: same algorithm and tag, and the same digest.
abbrev pub StandsFor : Dns → List Ds → Dnskey → Type 0
StandsFor dns ds_records k =
    (d : Ds) × In d ds_records
    × (same_tag dns d k ≡ true)
    × ((t : Ds) × (dns.to_ds k d.digest_type ≡ some t) × (equal_fold d.digest t.digest ≡ true))

module _ (dns : Dns) where
  key_of_sound :
      (d : Ds) (keys : List Dnskey) (k : Dnskey)
      → key_of dns d keys ≡ some (some k)
      → In k keys
        × (same_tag dns d k ≡ true)
        × ((t : Ds) × (dns.to_ds k d.digest_type ≡ some t) × (equal_fold d.digest t.digest ≡ true))
  unfolding key_of
  key_of_sound d [] k h = cc
  key_of_sound d (x ∷ keys) k h = elim (Bool-cases (same_tag dns d x)) [
    | inr miss ↦ let r = key_of_sound d keys k (rw (miss, key_of) at h) in (inr r.0, r.1, r.2)
    | inl tag ↦ elim (Option-cases (dns.to_ds x d.digest_type)) [
      | inl nil ↦ cc (rw (tag, nil, key_of) at h)
      | inr (t, e) ↦ elim (Bool-cases (equal_fold d.digest t.digest)) [
        | inr other ↦
            let r = key_of_sound d keys k (rw (tag, e, other, key_of) at h) in (inr r.0, r.1, r.2)
        | inl same ↦
            let q : x ≡ k = cc (rw (tag, e, same, key_of) at h) in
            (inl (sym q), rw (← q) tag, (t, rw (← q) e, same))
      ]
    ]
  ]

  added :
      (d : Ds) (ds_records : List Ds) (keys rest : List Dnskey) (k : Dnskey) (first : Option Dnskey)
      → key_of dns d keys ≡ some first
      → (In k rest → In k keys × StandsFor dns ds_records k)
      → In k (add_key first rest)
      → In k keys × StandsFor dns (d ∷ ds_records) k
  added d ds_records keys rest k none e ih m =
      let r = ih m in (r.0, (r.1.0, inr r.1.1, r.1.2, r.1.3))
  added d ds_records keys rest k (some x) e ih (inl same) =
      let e' : key_of dns d keys ≡ some (some k) = e ∙ ap (λ y. some (some y)) (sym same) in
      let r = key_of_sound d keys k e' in (r.0, (d, inl refl, r.1, r.2))
  added d ds_records keys rest k (some x) e ih (inr m) =
      let r = ih m in (r.0, (r.1.0, inr r.1.1, r.1.2, r.1.3))

  -- Each key that may sign the key set is a zone key that a DS record of the parent stands for.
  pub key_signing_keys-StandsFor :
      (ds_records : List Ds) (keys ksks : List Dnskey)
      → key_signing_keys dns ds_records keys ≡ some ksks
      → (k : Dnskey) → In k ksks
      → In k keys × StandsFor dns ds_records k
  unfolding key_signing_keys
  key_signing_keys-StandsFor [] keys ksks h k m =
      let e : [] ≡ ksks = cc in absurd (rw (← e, In) at m)
  key_signing_keys-StandsFor (d ∷ ds_records) keys ksks h k m =
      let (first, e, h1) = >>=-eq-some (key_of dns d keys) _ h in
      let (rest, f, h2) = >>=-eq-some (key_signing_keys dns ds_records keys) _ h1 in
      let q : add_key first rest ≡ ksks = cc in
      added d ds_records keys rest k first e (key_signing_keys-StandsFor ds_records keys rest f k)
        (rw (← q) at m)

module _ (env : Env) where
  -- Each record set that needs a signature has one, and the signatures are as the policy wants them.
  abbrev pub Accepted : List Signature × Option GoError → Type 0
  Accepted authenticated =
      (authenticated.1 ≡ none)
      × (verify_signatures env.require_all_signatures_valid authenticated.0 ≡ none)

  -- The zone's key set is signed, as the policy wants, by keys that the parent's DS records select.
  abbrev pub KeysVetted : Zone → List Rr → List Ds → Type 0
  KeysVetted zone keys ds_records =
      (ksks : List Dnskey) × (key_signing_keys env.dns ds_records (extract_records as_dnskey keys)
        ≡ some ksks)
      × Accepted (authenticate env zone.name keys ksks answer_section)

  -- What authenticating a section of a message by the zone's keys gives.
  abbrev pub answer_of : Zone → Msg → List Rr → List Signature × Option GoError
  answer_of zone msg keys =
      authenticate env zone.name msg.answer (extract_records as_dnskey keys) answer_section

  abbrev pub authority_of : Zone → Msg → List Rr → List Signature × Option GoError
  authority_of zone msg keys =
      authenticate env zone.name msg.ns_section (extract_records as_dnskey keys) authority_section

  -- The signatures of both sections.
  abbrev pub signatures : Zone → Msg → List Rr → List Signature
  signatures zone msg keys = (answer_of zone msg keys).0 ++ (authority_of zone msg keys).0

  -- Each record set of both sections that needs a signature has one, and the signatures of both, by
  -- the zone's keys, are as the policy wants them.
  abbrev pub SectionsVetted : Zone → Msg → List Rr → Type 0
  SectionsVetted zone msg keys =
      ((answer_of zone msg keys).1 ≡ none)
      × ((authority_of zone msg keys).1 ≡ none)
      × (verify_signatures env.require_all_signatures_valid (signatures zone msg keys) ≡ none)

  verify_key_set_cases :
      (r : Result) (keys : List Rr) (ksks : List Dnskey)
      → ((verify_key_set env r keys ksks).status ≢ secure)
        × ((verify_key_set env r keys ksks).status ≡ unknown
            → Accepted (authenticate env r.zone.name keys ksks answer_section))
        × ((verify_key_set env r keys ksks).result.zone ≡ r.zone)
        × ((verify_key_set env r keys ksks).result.msg ≡ r.msg)
        × ((verify_key_set env r keys ksks).result.ds_records ≡ r.ds_records)
  unfolding verify_key_set
  verify_key_set_cases r keys [] = (λ h. cc, λ h. cc, refl, refl, refl)
  verify_key_set_cases r keys (k ∷ ksks) =
      (ground arith, λ h. (ground arith, ground arith), ground arith, ground arith, ground arith)

  pub verify_rrsets_cases :
      (r : Result) (keys : List Rr)
      → let o = verify_rrsets env r (extract_records as_dnskey keys) in
        (o.status ≢ secure)
        × (o.status ≡ unknown
            → SectionsVetted r.zone r.msg keys
              × (o.result.answer ≡ (answer_of r.zone r.msg keys).0)
              × (o.result.authority ≡ (authority_of r.zone r.msg keys).0))
        × (o.result.ds_records ≡ r.ds_records)
  unfolding verify_rrsets
  verify_rrsets_cases r keys = (
    ground arith,
    λ h. ((ground arith, ground arith, ground arith), ground arith, ground arith),
    ground arith,
  )

  pub verify_dnskeys_cases :
      (r : Result) (keys : List Rr) (ds_records : List Ds) (o : Outcome)
      → verify_dnskeys env r keys ds_records ≡ some o
      → (o.status ≢ secure)
        × (o.status ≡ unknown → KeysVetted r.zone keys ds_records)
        × (o.result.zone ≡ r.zone)
        × (o.result.msg ≡ r.msg)
        × (o.result.ds_records ≡ r.ds_records)
  unfolding verify_dnskeys
  verify_dnskeys_cases r keys ds_records o h = go (extract_records as_dnskey keys) refl
    where
      go :
          (zone_keys : List Dnskey)
          → extract_records as_dnskey keys ≡ zone_keys
          → (o.status ≢ secure)
            × (o.status ≡ unknown → KeysVetted r.zone keys ds_records)
            × (o.result.zone ≡ r.zone)
            × (o.result.msg ≡ r.msg)
            × (o.result.ds_records ≡ r.ds_records)
      go [] e =
          let q : outcome r insecure (some keys_not_found) ≡ o = cc (rw (e, verify_dnskeys) at h) in
          rw (← q) (λ u. cc, λ u. cc, refl, refl, refl)
      go (k ∷ ks) e =
          let (ksks, c, f) =
            >>=-eq-some (key_signing_keys env.dns ds_records (k ∷ ks))
              (λ ksks. some (verify_key_set env r keys ksks)) (rw (e, verify_dnskeys) at h) in
          let q : verify_key_set env r keys ksks ≡ o = cc in
          let v = verify_key_set_cases r keys ksks in
          rw (← q) (v.0, λ u. (ksks, rw e c, v.1 u), v.2, v.3, v.4)
