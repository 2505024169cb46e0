-- ===== src/Dnssec/Doe/NsecCovers.antt =====
-- What the proofs of dnssec/doe/nsec.go establish: gaps of the canonical order.
use resolver_lib.Prelude.{
  ◌≡◌, refl, ◌⊎◌, ◌↔◌, ◌≢◌, inl, inr, true, false, List, [], ◌∷◌, arith, In, name_eq_iff, Name,
  Bool-cases, subst,
}
use resolver_lib.Dns.{Dns, Nsec}
use resolver_lib.Dnssec.Doe.Names.{wildcard_name, before}
use resolver_lib.Dnssec.Doe.Order.{sort_key, canonical_cmp-eq_iff}
use resolver_lib.Dnssec.Doe.NsecProofs.{
  DenialOfExistenceNsec, covers, covered, verify_qname_covered, verify_wildcard_covered,
  perform_qname_does_not_exist_proof, perform_expanded_wildcard_proof, empty,
}

-- A name in the gap that a record of the zone describes: after its owner, and before its next
-- name, or anywhere after the owner where the next name is the zone's apex.
abbrev pub Gap : Dns → Name → Name → Nsec → Type 0
Gap dns zone name r =
    (before dns r.header.name name ≡ true)
    × ((dns.canonical_name r.next_domain ≡ zone) ⊎ (before dns name r.next_domain ≡ true))

-- Some record describes a gap with the name in it.
abbrev pub IsCovered : Dns → DenialOfExistenceNsec → Name → Type 0
IsCovered dns doe name = (r : Nsec) × In r doe.records × Gap dns doe.zone name r

module _ (dns : Dns) where
  covers-Gap : (zone name : Name) (r : Nsec) → (covers dns zone name r ≡ true) ↔ Gap dns zone name r
  unfolding covers
  covers-Gap zone name r = (
    λ h. ground (arith, name_eq_iff (dns.canonical_name r.next_domain) zone),
    λ g. ground (arith, name_eq_iff (dns.canonical_name r.next_domain) zone),
  )

  covered-true :
      (zone name : Name) (rr : List Nsec)
      → covered dns zone name rr ≡ true
      → (r : Nsec) × In r rr × Gap dns zone name r
  unfolding covered
  covered-true zone name [] h = cc
  covered-true zone name (r ∷ rr) h = elim (Bool-cases (covers dns zone name r)) [
    | inl c ↦ (r, inl refl, (covers-Gap zone name r).0 c)
    | inr c ↦ let k = covered-true zone name rr (rw c at h) in (k.0, inr k.1, k.2)
  ]

  true-covered :
      (zone name : Name) (r : Nsec) (rr : List Nsec)
      → In r rr
      → Gap dns zone name r
      → covered dns zone name rr ≡ true
  unfolding covered
  true-covered zone name r [] m g = absurd m
  true-covered zone name r (x ∷ rr) (inl e) g =
      let c : covers dns zone name x ≡ true =
        subst (λ y. covers dns zone name y ≡ true) e ((covers-Gap zone name r).1 g) in
      rw c
  true-covered zone name r (x ∷ rr) (inr m) g = ground (arith, true-covered zone name r rr m g)

module _ (dns : Dns) (doe : DenialOfExistenceNsec) where
  qname_iff :
      (q : Name)
      → (verify_qname_covered dns doe q ≡ true) ↔ IsCovered dns doe (dns.canonical_name q)
  unfolding verify_qname_covered
  qname_iff q = (
    covered-true dns doe.zone (dns.canonical_name q) doe.records,
    λ c. true-covered dns doe.zone (dns.canonical_name q) c.0 doe.records c.1 c.2,
  )

  wildcard_iff :
      (q : Name)
      → (verify_wildcard_covered dns doe q ≡ true)
        ↔ IsCovered dns doe (wildcard_name dns (dns.canonical_name q))
  unfolding verify_wildcard_covered
  wildcard_iff q = (
    covered-true dns doe.zone (wildcard_name dns (dns.canonical_name q)) doe.records,
    λ c. true-covered dns doe.zone _ c.0 doe.records c.1 c.2,
  )

  covered-not-empty : (n : Name) → IsCovered dns doe n → empty doe ≡ false
  covered-not-empty n (r, m, g) = go doe.records m
    where
      go : (rr : List Nsec) → In r rr → (elim rr [ [] ↦ true | _ ∷ _ ↦ false ]) ≡ false
      go [] k = absurd k
      go (x ∷ rr) k = refl

  -- The proof of a missing name succeeds exactly when both the canonical name and its wildcard lie
  -- in a gap that some record describes.
  pub perform_qname_does_not_exist_proof_iff :
      (q : Name)
      → (perform_qname_does_not_exist_proof dns doe q ≡ true) ↔ (
          IsCovered dns doe (dns.canonical_name q)
          × IsCovered dns doe (wildcard_name dns (dns.canonical_name q)))
  unfolding perform_qname_does_not_exist_proof
  perform_qname_does_not_exist_proof_iff q = (
    λ h.
        let k : (verify_qname_covered dns doe q ≡ true)
            × (verify_wildcard_covered dns doe q ≡ true) =
          ground arith in
        ((qname_iff q).0 k.0, (wildcard_iff q).0 k.1),
    λ c. ground (arith, covered-not-empty _ c.0, (qname_iff q).1 c.0, (wildcard_iff q).1 c.1),
  )

  -- The proof of a wildcard expansion succeeds exactly when the canonical name lies in a gap and no
  -- record describes a gap with the wildcard in it.
  pub perform_expanded_wildcard_proof_iff :
      (q : Name)
      → (perform_expanded_wildcard_proof dns doe q ≡ true) ↔ (
          IsCovered dns doe (dns.canonical_name q)
          × (¬ IsCovered dns doe (wildcard_name dns (dns.canonical_name q))))
  unfolding perform_expanded_wildcard_proof
  perform_expanded_wildcard_proof_iff q = (
    λ h.
        let k : (verify_qname_covered dns doe q ≡ true)
            × (verify_wildcard_covered dns doe q ≡ false) =
          ground arith in
        ((qname_iff q).0 k.0, λ c. cc (k.1, (wildcard_iff q).1 c)),
    λ (c, n). elim (Bool-cases (verify_wildcard_covered dns doe q)) [
      | inl w ↦ absurd (n ((wildcard_iff q).0 w))
      | inr w ↦ ground (arith, covered-not-empty _ c, (qname_iff q).1 c)
    ],
  )

  -- A record whose gap holds a name has another owner than that name, up to the decoded labels:
  -- nobody's own record denies that the name exists.
  pub Gap-owner_ne :
      (n : Name) (r : Nsec) → Gap dns doe.zone n r → sort_key dns r.header.name ≢ sort_key dns n
  Gap-owner_ne n r g e = ground (arith, canonical_cmp-eq_iff dns r.header.name n)
