-- ===== src/Dnssec/Verify/Secure.antt =====
-- What a secure status from `verify` of dnssec/verify.go rests on.
use resolver_lib.Prelude.{
  ◌≡◌, refl, ap, ◌∙◌, ◌≢◌, ◌⊎◌, inl, inr, false, List, [], ◌∷◌, none, some, >>=-eq-some, Bool-cases,
  arith, In, subst,
}
use resolver_lib.Dns.{Rr, Ds, Msg}
use resolver_lib.Dnssec.Status.{unknown, insecure, secure, bogus}
use resolver_lib.Dnssec.Env.{Env, Zone, Fetched, fetched, failed}
use resolver_lib.Dnssec.Records.{extract_records, as_dnskey}
use resolver_lib.Dnssec.Signatures.{extract_ds_records}
use resolver_lib.Dnssec.Outcome.{Result, new_result, Outcome, outcome}
use resolver_lib.Dnssec.Verify.Keys.{verify_dnskeys, verify_rrsets}
use resolver_lib.Dnssec.Verify.Trust.{
  KeysVetted, SectionsVetted, answer_of, authority_of, signatures, verify_dnskeys_cases,
  verify_rrsets_cases,
}
use resolver_lib.Dnssec.Verify.Delegations.{IsSigned, extracted-IsSigned}
use resolver_lib.Dnssec.Verify.Frame.{FromSections, classify-frame}
use resolver_lib.Dnssec.Verify.{verify, decided}

module _ (env : Env) where
  undecided : (o : Outcome) → decided o ≡ false → o.status ≡ unknown
  undecided o h = ground arith

  abbrev Vetted : Result → Zone → Msg → List Rr → Type 0
  Vetted r zone msg keys =
      SectionsVetted env zone msg keys
      × (r.answer ≡ (answer_of env zone msg keys).0)
      × (r.authority ≡ (authority_of env zone msg keys).0)

  -- What a status of secure rests on, and the DS records that are left.
  abbrev pub IsSecured : Zone → Msg → List Ds → List Ds → Type 0
  IsSecured zone msg ds_records left =
      (ds_records ≢ [])
      × ((keys : List Rr) × (zone.dnskey_records ≡ fetched keys)
          × KeysVetted env zone keys ds_records
          × SectionsVetted env zone msg keys
          × ((d : Ds) → In d left → IsSigned (signatures env zone msg keys) d))

  classified :
      (zone : Zone) (msg : Msg) (keys : List Rr) (r : Result) (o : Outcome)
      → SectionsVetted env zone msg keys
      → r.answer ≡ (answer_of env zone msg keys).0
      → r.authority ≡ (authority_of env zone msg keys).0
      → r.ds_records ≡ []
      → FromSections r o.result
      → (d : Ds) → In d o.result.ds_records
      → IsSigned (signatures env zone msg keys) d
  classified zone msg keys r o v a b e f d m =
      extracted-IsSigned env.require_all_signatures_valid d (answer_of env zone msg keys).0
        (authority_of env zone msg keys).0 v.2 (from f)
    where
      from :
          FromSections r o.result
          → In d (extract_ds_records (authority_of env zone msg keys).0)
            ⊎ In d (extract_ds_records (answer_of env zone msg keys).0)
      from (inl g) = inl (subst (In d) (g ∙ ap extract_ds_records b) m)
      from (inr (inl g)) = inr (subst (In d) (g ∙ ap extract_ds_records a) m)
      from (inr (inr g)) = absurd (subst (In d) (g ∙ e) m)

  pub verify-secure :
      (zone : Zone) (msg : Msg) (ds_records : List Ds) (o : Outcome)
      → verify env zone msg ds_records ≡ some o
      → o.status ≡ secure
      → IsSecured zone msg ds_records o.result.ds_records
  unfolding verify
  verify-secure zone msg [] o h s =
      let q : outcome (new_result zone msg) insecure none ≡ o = cc in
      cc (ap (λ (x : Outcome). x.status) q)
  verify-secure zone msg (d ∷ ds_records) o h s = (λ e. cc, go zone.dnskey_records refl)
    where
      go :
          (f : Fetched)
          → zone.dnskey_records ≡ f
          → (keys : List Rr) × (zone.dnskey_records ≡ fetched keys)
            × KeysVetted env zone keys (d ∷ ds_records)
            × SectionsVetted env zone msg keys
            × ((x : Ds) → In x o.result.ds_records → IsSigned (signatures env zone msg keys) x)
      go (failed e) q =
          let k : outcome (new_result zone msg) bogus (some e) ≡ o = cc (rw (q, verify) at h) in
          cc (ap (λ (x : Outcome). x.status) k)
      go (fetched keys) q =
          let (o1, e1, f1) =
            >>=-eq-some (verify_dnskeys env (new_result zone msg) keys (d ∷ ds_records)) _
              (rw (q, verify) at h) in
          let c1 = verify_dnskeys_cases env (new_result zone msg) keys (d ∷ ds_records) o1 e1 in
          let zone_keys = extract_records as_dnskey keys in
          let o2 = verify_rrsets env o1.result zone_keys in
          let c2 = verify_rrsets_cases env o1.result keys in
          elim (Bool-cases (decided o1)) [
            | inl t ↦
                let k : o1 ≡ o = cc (rw t at f1) in
                absurd (c1.0 (ap (λ (x : Outcome). x.status) k ∙ s))
            | inr t ↦ elim (Bool-cases (decided o2)) [
              | inl u ↦
                  let k : o2 ≡ o = cc (rw (t, u) at f1) in
                  absurd (c2.0 (ap (λ (x : Outcome). x.status) k ∙ s))
              | inr u ↦
                  let (v, a, b) =
                    subst (λ z. Vetted o2.result z msg keys) c1.2
                      (subst (λ m. Vetted o2.result o1.result.zone m keys) c1.3
                        (c2.1 (undecided o2 u))) in
                  (
                    keys,
                    q,
                    c1.1 (undecided o1 t),
                    v,
                    classified zone msg keys o2.result o v a b (c2.2 ∙ c1.4)
                        (classify-frame env o2.result o (rw (t, u) at f1)).2,
                  )
            ]
          ]
