-- ===== src/Dnssec/Doe/Nsec3Covers.antt =====
-- What the scans of dnssec/doe/nsec3.go over hashed names establish.
use resolver_lib.Prelude.{
  ◌≡◌, refl, ◌↔◌, ◌⊎◌, ◌≤◌, ◌<◌, ◌-◌, ℕ, Bool, true, false, not, ◌&&◌, ◌||◌, List, [], ◌∷◌, arith,
  any, Name, Option-cases, dec_lt, get_elem?-some, get_elem?-none, some, none, length, get_elem?,
  drop, ◌==◌, inl, inr,
}
use resolver_lib.Dns.{Dns, Nsec3}
use resolver_lib.Dnssec.Doe.Nsec3Proofs.{
  DenialOfExistenceNsec3, star, scan_wildcard, scan_matched, scan_next_closer,
  verify_wildcard_covered, verify_wildcard_matched, verify_next_closer_name_covered,
  perform_expanded_wildcard_proof,
}

module _ (dns : Dns) where
  abbrev pub matched : Name → List Nsec3 → Bool
  matched name = any (λ r. dns.nsec3_match r name)

  abbrev pub covered : Name → List Nsec3 → Bool
  covered name = any (λ r. dns.nsec3_cover r name)

  abbrev pub opted_out : Name → List Nsec3 → Bool
  opted_out name = any (λ r. dns.nsec3_cover r name && (r.flags == 1))

  scan_wildcard_lem :
      (w : Name) (proof : Bool) (rr : List Nsec3)
      → scan_wildcard dns w proof rr ≡ (not (matched w rr) && (proof || covered w rr))
  unfolding scan_wildcard
  scan_wildcard_lem w true [] = refl
  scan_wildcard_lem w false [] = refl
  scan_wildcard_lem w true (r ∷ rr) = ground (arith, scan_wildcard_lem w true rr)
  scan_wildcard_lem w false (r ∷ rr) =
      ground (arith, scan_wildcard_lem w true rr, scan_wildcard_lem w false rr)

  scan_matched_lem : (w : Name) (rr : List Nsec3) → scan_matched dns w rr ≡ matched w rr
  unfolding scan_matched
  scan_matched_lem w [] = refl
  scan_matched_lem w (r ∷ rr) = ground (arith, scan_matched_lem w rr)

  scan_next_closer_lem :
      (n : Name) (out proof : Bool) (rr : List Nsec3)
      → ((scan_next_closer dns n out proof rr).0 ≡ (not (matched n rr) && (out || opted_out n rr)))
        × ((scan_next_closer dns n out proof rr).1
            ≡ (not (matched n rr) && (proof || covered n rr)))
  unfolding scan_next_closer
  scan_next_closer_lem n out proof [] = ground arith
  scan_next_closer_lem n out proof (r ∷ rr) = ground (
    arith,
    scan_next_closer_lem n (out || (r.flags == 1)) true rr,
    scan_next_closer_lem n out proof rr,
  )

module _ (dns : Dns) (doe : DenialOfExistenceNsec3) where
  -- The next closer name counts as covered exactly when a record covers it and none matches it, and
  -- as opted out when moreover a record that covers it has the flag.
  pub verify_next_closer_name_covered_lem :
      (n : Name)
      → (verify_next_closer_name_covered dns doe n).0
          ≡ (not (matched dns n doe.records) && opted_out dns n doe.records)
        × ((verify_next_closer_name_covered dns doe n).1
            ≡ (not (matched dns n doe.records) && covered dns n doe.records))
  unfolding verify_next_closer_name_covered
  verify_next_closer_name_covered_lem n = scan_next_closer_lem dns n false false doe.records

  -- The wildcard of a name counts as covered exactly when a record covers it and none matches it.
  pub verify_wildcard_covered_lem :
      (ce : Name)
      → verify_wildcard_covered dns doe ce
        ≡ (not (matched dns (star ce) doe.records) && covered dns (star ce) doe.records)
  unfolding verify_wildcard_covered
  verify_wildcard_covered_lem ce = scan_wildcard_lem dns (star ce) false doe.records

  pub verify_wildcard_matched_lem :
      (ce : Name) → verify_wildcard_matched dns doe ce ≡ matched dns (star ce) doe.records
  unfolding verify_wildcard_matched
  verify_wildcard_matched_lem ce = scan_matched_lem dns (star ce) doe.records

  expanded_runs :
      (name : Name) (labels at above : ℕ)
      → 0 < labels
      → labels < length (dns.split name)
      → get_elem? (dns.split name) (length (dns.split name) - labels) ≡ some at
      → get_elem? (dns.split name) (length (dns.split name) - labels - 1) ≡ some above
      → perform_expanded_wildcard_proof dns doe name labels
        ≡ some (
            not (
              verify_wildcard_covered dns doe (drop at name)
              || verify_wildcard_matched dns doe (drop at name))
            && (verify_next_closer_name_covered dns doe (drop above name)).1)
  unfolding perform_expanded_wildcard_proof
  expanded_runs name labels at above h k e f = ground arith

  -- The NSEC3 proof of a wildcard expansion: with fewer labels in the signature than in the name,
  -- and not 0, the ancestor of the name with that many labels has a wildcard that no record matches
  -- or covers, and the name one label longer is covered and not matched.
  pub perform_expanded_wildcard_proof_lem :
      (name : Name) (labels at above : ℕ)
      → 0 < labels
      → labels < length (dns.split name)
      → get_elem? (dns.split name) (length (dns.split name) - labels) ≡ some at
      → get_elem? (dns.split name) (length (dns.split name) - labels - 1) ≡ some above
      → perform_expanded_wildcard_proof dns doe name labels
        ≡ some (
            (not (matched dns (star (drop at name)) doe.records)
              && not (covered dns (star (drop at name)) doe.records))
            && (not (matched dns (drop above name) doe.records)
                && covered dns (drop above name) doe.records))
  perform_expanded_wildcard_proof_lem name labels at above h k e f = ground (
    arith,
    expanded_runs name labels at above,
    verify_wildcard_covered_lem (drop at name),
    verify_wildcard_matched_lem (drop at name),
    (verify_next_closer_name_covered_lem (drop above name)).1,
  )

  expanded_total :
      (name : Name) (labels : ℕ)
      → 0 < labels
      → labels < length (dns.split name)
      → (b : Bool) × (perform_expanded_wildcard_proof dns doe name labels ≡ some b)
  expanded_total name labels h k =
      let at = get_elem?-some (dns.split name) (length (dns.split name) - labels) (omega arith) in
      let above =
        get_elem?-some (dns.split name) (length (dns.split name) - labels - 1) (omega arith) in
      (_, expanded_runs name labels at.0 above.0 h k at.1 above.1)

  expanded_zero :
      (name : Name) (labels : ℕ)
      → labels ≡ 0
      → perform_expanded_wildcard_proof dns doe name labels ≡ none
  unfolding perform_expanded_wildcard_proof
  expanded_zero name labels z =
      let e : length (dns.split name) - labels ≡ length (dns.split name) = omega arith in
      ground
        (arith, get_elem?-none (dns.split name) (length (dns.split name) - labels) (omega arith))

  expanded_long :
      (name : Name) (labels : ℕ)
      → length (dns.split name) ≤ labels
      → perform_expanded_wildcard_proof dns doe name labels ≡ none
  unfolding perform_expanded_wildcard_proof
  expanded_long name labels l =
      elim (Option-cases (get_elem? (dns.split name) (length (dns.split name) - labels))) [
        | inl e ↦ ground arith
        | inr (x, e) ↦ ground arith
      ]

  -- The proof of a wildcard expansion panics exactly when the labels field of the signature is 0 or
  -- is not below the number of labels of the owner name.
  pub perform_expanded_wildcard_proof_panics :
      (name : Name) (labels : ℕ)
      → (perform_expanded_wildcard_proof dns doe name labels ≡ none)
        ↔ ((labels ≡ 0) ⊎ (length (dns.split name) ≤ labels))
  perform_expanded_wildcard_proof_panics name labels = (
    λ h. elim (dec_lt 0 labels) [
      | yes p ↦ elim (dec_lt labels (length (dns.split name))) [
        | yes q ↦ cc (h, (expanded_total name labels p q).1)
        | no q ↦ inr (omega arith)
      ]
      | no p ↦ inl (omega arith)
    ],
    λ c. elim c [ inl z ↦ expanded_zero name labels z | inr l ↦ expanded_long name labels l ],
  )
