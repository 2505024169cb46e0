-- ===== src/Dnssec/Verify/Frame.antt =====
-- Verification leaves the zone and the message of a result alone, and never reports `unknown`
-- without reason.
use resolver_lib.Prelude.{
  ◌⊎◌, ◌≡◌, refl, ◌∙◌, inl, inr, Bool, true, false, ◌||◌, List, [], ◌∷◌, some, >>=-eq-some,
  Bool-cases, arith, Name,
}
use resolver_lib.Dns.{Dns, Ds, Dnskey, Msg, multiple_wildcard_signatures, failsafe_response}
use resolver_lib.Dnssec.Status.{bogus}
use resolver_lib.Dnssec.Env.{Env, Zone, Fetched, fetched, failed}
use resolver_lib.Dnssec.Records.{extract_records, as_dnskey}
use resolver_lib.Dnssec.Signatures.{Signature, extract_ds_records}
use resolver_lib.Dnssec.Outcome.{Result, new_result, Outcome, outcome}
use resolver_lib.Dnssec.Verify.Keys.{verify_dnskeys, verify_rrsets}
use resolver_lib.Dnssec.Verify.Responses.{
  deny_ds, validate_delegating_response, prove_wildcard, wildcard_loop, validate_positive_response,
  validate_negative_response,
}
use resolver_lib.Dnssec.Verify.Trust.{verify_dnskeys_cases}
use resolver_lib.Dnssec.Verify.{classify, verify, decided}

-- Two results are about the same zone and message.
abbrev pub SameFrame : Result → Result → Type 0
SameFrame r s = (s.zone ≡ r.zone) × (s.msg ≡ r.msg)

-- They also have the same DS records.
abbrev SameResult : Result → Result → Type 0
SameResult r s = (s.zone ≡ r.zone) × (s.msg ≡ r.msg) × (s.ds_records ≡ r.ds_records)

-- The DS records are those in the authority section, those in the answer, or those there were.
abbrev pub FromSections : Result → Result → Type 0
FromSections r s =
    (s.ds_records ≡ extract_ds_records r.authority)
    ⊎ (s.ds_records ≡ extract_ds_records r.answer)
    ⊎ (s.ds_records ≡ r.ds_records)

module _ (dns : Dns) where
  deny_ds-frame : (r : Result) (n : Name) → SameResult r (deny_ds dns r n).result
  unfolding deny_ds
  deny_ds-frame r n = (ground arith, ground arith, ground arith)

  delegating-frame :
      (r : Result) (o : Outcome)
      → validate_delegating_response dns r ≡ some o
      → SameResult (record r { ds_records = extract_ds_records r.authority }) o.result
  unfolding validate_delegating_response
  delegating-frame r o h = (
    ground (arith, deny_ds-frame (record r { ds_records = extract_ds_records r.authority })),
    ground arith,
    ground (arith, deny_ds-frame (record r { ds_records = extract_ds_records r.authority })),
  )

  prove_wildcard-frame :
      (r : Result) (sig : Signature) (s : Result) (b : Bool)
      → prove_wildcard dns r sig ≡ some (s, b)
      → SameResult r s
  unfolding prove_wildcard
  prove_wildcard-frame r sig s b h = (ground arith, ground arith, ground arith)

  wildcard_loop-frame :
      (ss : List Signature) (seen verified : Bool) (r : Result) (o : Outcome)
      → wildcard_loop dns ss seen verified r ≡ some o
      → SameResult r o.result
  unfolding wildcard_loop
  wildcard_loop-frame [] seen verified r o h = (ground arith, ground arith, ground arith)
  wildcard_loop-frame (sig ∷ ss) seen verified r o h = elim (Bool-cases sig.wildcard) [
    | inr no_star ↦ wildcard_loop-frame ss seen verified r o (rw (no_star, wildcard_loop) at h)
    | inl star_ ↦ elim (Bool-cases seen) [
      | inl again ↦
          let k : outcome r bogus (some multiple_wildcard_signatures) ≡ o =
            cc (rw (star_, again, wildcard_loop) at h) in
          rw (← k) (refl, refl, refl)
      | inr first ↦
          let (p, e, f) =
            >>=-eq-some (prove_wildcard dns r sig)
              (λ p. wildcard_loop dns ss true (verified || p.1) p.0)
              (rw (star_, first, wildcard_loop) at h) in
          let k = prove_wildcard-frame r sig p.0 p.1 e in
          let l = wildcard_loop-frame ss true (verified || p.1) p.0 o f in
          (l.0 ∙ k.0, l.1 ∙ k.1, l.2 ∙ k.2)
    ]
  ]

  negative-frame :
      (r : Result) (o : Outcome) → validate_negative_response dns r ≡ some o → SameResult r o.result
  unfolding validate_negative_response
  negative-frame r o h = (ground arith, ground arith, ground arith)

module _ (env : Env) where
  verify_rrsets-frame :
      (r : Result) (keys : List Dnskey) → SameFrame r (verify_rrsets env r keys).result
  unfolding verify_rrsets
  verify_rrsets-frame r keys = (ground arith, ground arith)

  classify_cases :
      (r : Result) (o : Outcome)
      → classify env r ≡ some o
      → (validate_delegating_response env.dns r ≡ some o)
        ⊎ (validate_positive_response env.dns r ≡ some o)
        ⊎ (validate_negative_response env.dns r ≡ some o)
        ⊎ (o ≡ outcome r bogus (some failsafe_response))
  unfolding classify
  classify_cases r o h = ground arith

  pub classify-frame :
      (r : Result) (o : Outcome)
      → classify env r ≡ some o
      → (o.result.zone ≡ r.zone) × (o.result.msg ≡ r.msg) × FromSections r o.result
  unfolding validate_positive_response
  classify-frame r o h = elim (classify_cases r o h) [
    | inl d ↦ let (z, m, k) = delegating-frame env.dns r o d in (z, m, inl k)
    | inr (inl p) ↦
        let (z, m, k) =
          wildcard_loop-frame env.dns r.answer false false
            (record r { ds_records = extract_ds_records r.answer }) o p in
        (z, m, inr (inl k))
    | inr (inr (inl n)) ↦ let (z, m, k) = negative-frame env.dns r o n in (z, m, inr (inr k))
    | inr (inr (inr e)) ↦ rw e (refl, refl, inr (inr refl))
  ]

  -- What `verify` returns is about the zone and the message that it was given.
  pub verify-frame :
      (zone : Zone) (msg : Msg) (ds_records : List Ds) (o : Outcome)
      → verify env zone msg ds_records ≡ some o
      → SameFrame (new_result zone msg) o.result
  unfolding verify
  verify-frame zone msg [] o h = (ground arith, ground arith)
  verify-frame zone msg (d ∷ ds_records) o h = go zone.dnskey_records refl
    where
      go : (f : Fetched) → zone.dnskey_records ≡ f → SameFrame (new_result zone msg) o.result
      go (failed e) q =
          let k : outcome (new_result zone msg) bogus (some e) ≡ o = cc (rw (q, verify) at h) in
          rw (← k) (refl, refl)
      go (fetched keys) q =
          let (o1, e1, f1) =
            >>=-eq-some (verify_dnskeys env (new_result zone msg) keys (d ∷ ds_records)) _
              (rw (q, verify) at h) in
          let c1 = verify_dnskeys_cases env (new_result zone msg) keys (d ∷ ds_records) o1 e1 in
          let zone_keys = extract_records as_dnskey keys in
          let o2 = verify_rrsets env o1.result zone_keys in
          let c2 = verify_rrsets-frame o1.result zone_keys in
          elim (Bool-cases (decided o1)) [
            | inl t ↦ let k : o1 ≡ o = cc (rw t at f1) in rw (← k) (c1.2, c1.3)
            | inr t ↦ elim (Bool-cases (decided o2)) [
              | inl u ↦ let k : o2 ≡ o = cc (rw (t, u) at f1) in rw (← k) (c2.0 ∙ c1.2, c2.1 ∙ c1.3)
              | inr u ↦
                  let l = classify-frame o2.result o (rw (t, u) at f1) in
                  (l.0 ∙ (c2.0 ∙ c1.2), l.1 ∙ (c2.1 ∙ c1.3))
            ]
          ]
