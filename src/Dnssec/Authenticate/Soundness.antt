-- ===== src/Dnssec/Authenticate/Soundness.antt =====
-- Which signatures `authenticate` of dnssec/authenticate_rrset.go marks as verified.
use resolver_lib.Prelude.{
  ◌≤◌, ◌≡◌, refl, sym, ap, ◌∙◌, ◌≢◌, ◌↔◌, ◌⊎◌, inl, inr, true, false, List, [], ◌∷◌, none, some, In,
  arith, Bool-cases, Option-cases, name_eq, name_eq_iff, name_eq→eq, ltb,
}
use resolver_lib.Dns.{Dns, Rr, Rrsig, Dnskey, GoError, wrapped, invalid_signature}
use resolver_lib.Dnssec.Env.{Env}
use resolver_lib.Dnssec.Signatures.{Signature}
use resolver_lib.Dnssec.Authenticate.{
  try_keys, key_matches, no_key_left, limit_signature, check_signature,
}

-- Some key of the list matches the signature and verifies it over the records.
abbrev pub HasKey : Dns → Rrsig → List Rr → List Dnskey → Type 0
HasKey dns rrsig rrset keys =
    (k : Dnskey) × In k keys × (key_matches dns rrsig k ≡ true) × (dns.verify rrsig k rrset ≡ none)

module _ (dns : Dns) where
  try_keys-hit :
      (sig : Signature) (k : Dnskey) (keys : List Dnskey)
      → key_matches dns sig.rrsig k ≡ true
      → dns.verify sig.rrsig k sig.rrset ≡ none
      → ((try_keys dns sig (k ∷ keys)).verified ≡ true) × ((try_keys dns sig (k ∷ keys)).err ≡ none)
  unfolding try_keys
  try_keys-hit sig k keys m v = (rw (m, v) refl, rw (m, v) refl)

  try_keys-miss :
      (sig : Signature) (k : Dnskey) (keys : List Dnskey)
      → key_matches dns sig.rrsig k ≡ false
      → try_keys dns sig (k ∷ keys) ≡ try_keys dns sig keys
  unfolding try_keys
  try_keys-miss sig k keys m = rw m

  try_keys-fail :
      (sig : Signature) (k : Dnskey) (keys : List Dnskey) (e : GoError)
      → key_matches dns sig.rrsig k ≡ true
      → dns.verify sig.rrsig k sig.rrset ≡ some e
      → try_keys dns sig (k ∷ keys)
        ≡ try_keys dns (record sig { err = some (wrapped invalid_signature e) }) keys
  unfolding try_keys
  try_keys-fail sig k keys e m v = rw (m, v)

  try_keys-verified :
      (sig : Signature) (keys : List Dnskey)
      → sig.verified ≡ false
      → (try_keys dns sig keys).verified ≡ true
      → HasKey dns sig.rrsig sig.rrset keys
  unfolding try_keys
  try_keys-verified sig [] h v = cc
  try_keys-verified sig (k ∷ keys) h v = elim (Bool-cases (key_matches dns sig.rrsig k)) [
    | inr miss ↦
        let r = try_keys-verified sig keys h (rw (miss, try_keys) at v) in (r.0, inr r.1, r.2, r.3)
    | inl hit ↦ elim (Option-cases (dns.verify sig.rrsig k sig.rrset)) [
      | inl good ↦ (k, inl refl, hit, good)
      | inr (e, bad) ↦
          let r =
            try_keys-verified (record sig { err = some (wrapped invalid_signature e) }) keys h
              (rw (hit, bad, try_keys) at v) in
          (r.0, inr r.1, r.2, r.3)
    ]
  ]

  try_keys_complete :
      (sig : Signature) (keys : List Dnskey)
      → HasKey dns sig.rrsig sig.rrset keys
      → (try_keys dns sig keys).verified ≡ true
  try_keys_complete sig [] h = absurd h.1
  try_keys_complete sig (k ∷ keys) (x, inl same, m, v) =
      (try_keys-hit sig k keys (rw same at m) (rw same at v)).0
  try_keys_complete sig (k ∷ keys) (x, inr later, m, v) =
      elim (Bool-cases (key_matches dns sig.rrsig k)) [
        | inr miss ↦
            rw (try_keys-miss sig k keys miss) (try_keys_complete sig keys (x, later, m, v))
        | inl hit ↦ elim (Option-cases (dns.verify sig.rrsig k sig.rrset)) [
          | inl good ↦ (try_keys-hit sig k keys hit good).0
          | inr (e, bad) ↦ rw (try_keys-fail sig k keys e hit bad) (
              try_keys_complete (record sig { err = some (wrapped invalid_signature e) }) keys
                (x, later, m, v))
        ]
      ]

  -- A signature that is not verified yet ends verified with no error.
  try_keys-err :
      (sig : Signature) (keys : List Dnskey)
      → sig.verified ≡ false
      → (try_keys dns sig keys).verified ≡ true
      → (try_keys dns sig keys).err ≡ none
  unfolding try_keys
  try_keys-err sig [] h v = cc
  try_keys-err sig (k ∷ keys) h v = elim (Bool-cases (key_matches dns sig.rrsig k)) [
    | inr miss ↦ rw miss (try_keys-err sig keys h (rw (miss, try_keys) at v))
    | inl hit ↦ elim (Option-cases (dns.verify sig.rrsig k sig.rrset)) [
      | inl good ↦ rw (hit, good) refl
      | inr (e, bad) ↦
          rw (hit, bad)
            (try_keys-err (record sig { err = some (wrapped invalid_signature e) }) keys h
              (rw (hit, bad, try_keys) at v))
    ]
  ]

no_key_left-verified : (sig : Signature) → (no_key_left sig).verified ≡ sig.verified
no_key_left-verified sig = elim (Bool-cases sig.verified) [
  | inl v ↦ ground arith
  | inr v ↦ elim (Option-cases sig.err) [ inl e ↦ ground arith | inr (x, e) ↦ ground arith ]
]

no_key_left-err :
    (sig : Signature)
    → (sig.verified ≡ true → sig.err ≡ none)
    → ((no_key_left sig).err ≡ none) ↔ (sig.verified ≡ true)
no_key_left-err sig h = ground arith

module _ (env : Env) where
  open env use {dns, now}

  -- The conditions of RFC 4035 5.3.1 that the code checks: the signer is the zone, the owner has at
  -- least the labels that were signed, the clock is in the validity period, and a key verifies it.
  abbrev pub IsAuthentic : List Dnskey → Signature → Type 0
  IsAuthentic keys sig =
      (dns.canonical_name sig.zone ≡ dns.canonical_name sig.rrsig.signer_name)
      × (sig.rrsig.labels ≤ dns.count_label sig.rrsig.header.name)
      × (dns.validity_period sig.rrsig now ≡ true)
      × HasKey dns sig.rrsig sig.rrset keys

  limited : List Dnskey → Signature → Signature
  limited keys sig = no_key_left (try_keys dns (limit_signature env sig) keys)

  check_signature-pass :
      (keys : List Dnskey) (sig : Signature)
      → dns.canonical_name sig.zone ≡ dns.canonical_name sig.rrsig.signer_name
      → sig.rrsig.labels ≤ dns.count_label sig.rrsig.header.name
      → dns.validity_period sig.rrsig now ≡ true
      → check_signature env keys sig ≡ limited keys sig
  unfolding check_signature limited
  check_signature-pass keys sig n l v =
      let n' =
        (name_eq_iff (dns.canonical_name sig.zone) (dns.canonical_name sig.rrsig.signer_name)).1
          n in
      let l' : ltb (dns.count_label sig.rrsig.header.name) sig.rrsig.labels ≡ false =
        ground arith in
      rw (n', l', v) refl

  -- A check that fails leaves an error, and what passes all of them goes on to the keys.
  check_signature_cases :
      (keys : List Dnskey) (sig : Signature)
      → (((check_signature env keys sig).verified ≡ sig.verified)
          × ((check_signature env keys sig).err ≢ none))
        ⊎ ((dns.canonical_name sig.zone ≡ dns.canonical_name sig.rrsig.signer_name)
            × (sig.rrsig.labels ≤ dns.count_label sig.rrsig.header.name)
            × (dns.validity_period sig.rrsig now ≡ true))
  unfolding check_signature
  check_signature_cases keys sig =
      elim (Bool-cases
        (name_eq (dns.canonical_name sig.zone) (dns.canonical_name sig.rrsig.signer_name))) [
          | inr n ↦ inl (rw n refl, rw n (λ h. cc))
          | inl n ↦
              elim (Bool-cases (ltb (dns.count_label sig.rrsig.header.name) sig.rrsig.labels)) [
                | inl l ↦ inl (rw (n, l) refl, rw (n, l) (λ h. cc))
                | inr l ↦ elim (Bool-cases (dns.validity_period sig.rrsig now)) [
                  | inr v ↦ inl (rw (n, l, v) refl, rw (n, l, v) (λ h. cc))
                  | inl v ↦ inr (name_eq→eq _ _ n, ground arith, v)
                ]
              ]
        ]

  -- A fresh signature comes out verified exactly when it is authentic: every matching key is tried,
  -- and nothing else makes a signature verified.
  pub check_signature_iff :
      (keys : List Dnskey) (sig : Signature)
      → sig.verified ≡ false
      → ((check_signature env keys sig).verified ≡ true) ↔ IsAuthentic keys sig
  unfolding limited limit_signature
  check_signature_iff keys sig f = (
    λ v. elim (check_signature_cases keys sig) [
      | inl bad ↦ cc (bad.0, f, v)
      | inr (n, l, t) ↦ (
        n,
        l,
        t,
        try_keys-verified dns (limit_signature env sig) keys f (
            sym (no_key_left-verified _)
            ∙ (ap (λ (s : Signature). s.verified) (sym (check_signature-pass keys sig n l t)) ∙ v)),
      )
    ],
    λ (n, l, t, k).
        ap (λ (s : Signature). s.verified) (check_signature-pass keys sig n l t)
        ∙ (no_key_left-verified _ ∙ try_keys_complete dns (limit_signature env sig) keys k),
  )

  -- A fresh signature comes out with an error exactly when it is not verified.
  pub check_signature_err :
      (keys : List Dnskey) (sig : Signature)
      → sig.verified ≡ false
      → ((check_signature env keys sig).err ≡ none)
        ↔ ((check_signature env keys sig).verified ≡ true)
  unfolding limited limit_signature
  check_signature_err keys sig f = elim (check_signature_cases keys sig) [
    | inl bad ↦ (λ h. absurd (bad.1 h), λ h. cc (bad.0, f, h))
    | inr (n, l, t) ↦
        let tried = try_keys dns (limit_signature env sig) keys in
        let iff = no_key_left-err tried (try_keys-err dns (limit_signature env sig) keys f) in
        rw (check_signature-pass keys sig n l t) (
          λ h. no_key_left-verified tried ∙ iff.0 h,
          λ h. iff.1 (sym (no_key_left-verified tried) ∙ h),
        )
  ]
