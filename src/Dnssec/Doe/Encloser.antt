-- ===== src/Dnssec/Doe/Encloser.antt =====
-- What `FindClosestEncloser` of dnssec/doe/nsec3.go finds.
use resolver_lib.Prelude.{
  ◌≡◌, refl, ◌≤◌, ℕ, ltb, true, false, List, [], ◌∷◌, arith, Name, Bool-cases, Option-cases, some,
  length, drop, inl, inr, In, sym, ap, ◌∙◌, subst,
}
use resolver_lib.Dns.{Dns, Nsec3}
use resolver_lib.Dnssec.Doe.Nsec3Proofs.{
  DenialOfExistenceNsec3, ProofPair, eligible, scan_ancestors, contenders, longest,
  find_closest_encloser,
}

-- A record vouches for an ancestor of the name: it is in the zone, at a label of the name, matched
-- by the record, and the record's bit map allows it.
abbrev pub Vouches : Dns → Name → Name → Nsec3 → Name → Type 0
Vouches dns zone qname r ce =
    ((i : ℕ) × In i (dns.split qname) × (ce ≡ drop i qname))
    × (dns.is_sub_domain zone ce ≡ true)
    × (dns.nsec3_match r ce ≡ true)
    × (eligible r ≡ true)

module _ (dns : Dns) (zone qname : Name) where
  scan_ancestors_sound :
      (r : Nsec3) (last : ℕ) (is : List ℕ) (p : ProofPair)
      → scan_ancestors dns zone qname r last is ≡ some p
      → ((i : ℕ) × In i is × (p.ce ≡ drop i qname))
        × (dns.is_sub_domain zone p.ce ≡ true)
        × (dns.nsec3_match r p.ce ≡ true)
        × (eligible r ≡ true)
  unfolding scan_ancestors
  scan_ancestors_sound r last [] p h = cc
  scan_ancestors_sound r last (i ∷ is) p h =
      elim (Bool-cases (dns.is_sub_domain zone (drop i qname))) [
        | inr out ↦ cc (rw out at h)
        | inl within ↦ elim (Bool-cases (dns.nsec3_match r (drop i qname))) [
          | inr miss ↦
              let k = scan_ancestors_sound r i is p (rw (within, miss) at h) in
              ((k.0.0, inr k.0.1, k.0.2), k.1, k.2, k.3)
          | inl hit ↦ elim (Bool-cases (eligible r)) [
            | inr bad ↦
                let k = scan_ancestors_sound r last is p (rw (within, hit, bad) at h) in
                ((k.0.0, inr k.0.1, k.0.2), k.1, k.2, k.3)
            | inl good ↦
                let e : record { ce = drop i qname; ncn = drop last qname } ≡ p = ground arith in
                let c : drop i qname ≡ p.ce = ap (λ (x : ProofPair). x.ce) e in
                ((i, inl refl, sym c), rw (← c) within, rw (← c) hit, good)
          ]
        ]
      ]

  longest-lt :
      (best p : ProofPair) (ps : List ProofPair)
      → ltb (length best.ce) (length p.ce) ≡ true
      → longest best (p ∷ ps) ≡ longest p ps
  unfolding longest
  longest-lt best p ps t = rw t

  longest-le :
      (best p : ProofPair) (ps : List ProofPair)
      → ltb (length best.ce) (length p.ce) ≡ false
      → longest best (p ∷ ps) ≡ longest best ps
  unfolding longest
  longest-le best p ps t = rw t

  longest-In : (best : ProofPair) (ps : List ProofPair) → In (longest best ps) (best ∷ ps)
  unfolding longest
  longest-In best [] = inl refl
  longest-In best (p ∷ ps) = elim (Bool-cases (ltb (length best.ce) (length p.ce))) [
    | inl t ↦
        subst (λ z. In z (best ∷ p ∷ ps)) (sym (longest-lt best p ps t)) (inr (longest-In p ps))
    | inr f ↦
        subst (λ z. In z (best ∷ p ∷ ps)) (sym (longest-le best p ps f))
          (elim (longest-In best ps) [ inl e ↦ inl e | inr m ↦ inr (inr m) ])
  ]

  longest_max :
      (best : ProofPair) (ps : List ProofPair) (q : ProofPair)
      → In q (best ∷ ps)
      → length q.ce ≤ length (longest best ps).ce
  unfolding longest
  longest_max best [] q (inl e) = rw e (omega arith)
  longest_max best [] q (inr m) = absurd m
  longest_max best (p ∷ ps) q (inl e) =
      ground (arith, longest_max p ps p (inl refl), longest_max best ps best (inl refl))
  longest_max best (p ∷ ps) q (inr (inl e)) =
      ground (arith, longest_max p ps p (inl refl), longest_max best ps best (inl refl))
  longest_max best (p ∷ ps) q (inr (inr m)) =
      ground (arith, longest_max p ps q (inr m), longest_max best ps q (inr m))

  contenders_sound :
      (rr : List Nsec3) (p : ProofPair)
      → In p (contenders dns zone qname rr)
      → (r : Nsec3) × In r rr × Vouches dns zone qname r p.ce
  unfolding contenders
  contenders_sound [] p m = absurd m
  contenders_sound (r ∷ rr) p m =
      elim (Option-cases (scan_ancestors dns zone qname r 0 (dns.split qname))) [
        | inl e ↦ let k = contenders_sound rr p (rw (e, In) at m) in (k.0, inr k.1, k.2)
        | inr (q, e) ↦
            elim (rw (e, In) at m)
              as (λ _. (x : Nsec3) × In x (r ∷ rr) × Vouches dns zone qname x p.ce) [
                | inl same ↦ (
                  r,
                  inl refl,
                  scan_ancestors_sound r 0 (dns.split qname) p (e ∙ ap some (sym same)),
                )
                | inr n ↦ let k = contenders_sound rr p n in (k.0, inr k.1, k.2)
              ]
      ]

  contenders_complete :
      (rr : List Nsec3) (r : Nsec3) (p : ProofPair)
      → In r rr
      → scan_ancestors dns zone qname r 0 (dns.split qname) ≡ some p
      → In p (contenders dns zone qname rr)
  unfolding contenders
  contenders_complete [] r p m e = absurd m
  contenders_complete (x ∷ rr) r p (inl q) e =
      let e' : scan_ancestors dns zone qname x 0 (dns.split qname) ≡ some p = rw (← q) e in
      rw (e', In) (inl refl)
  contenders_complete (x ∷ rr) r p (inr m) e =
      elim (Option-cases (scan_ancestors dns zone qname x 0 (dns.split qname))) [
        | inl q ↦ rw (q, In) (contenders_complete rr r p m e)
        | inr (y, q) ↦ rw (q, In) (inr (contenders_complete rr r p m e))
      ]

-- A closest encloser that is found is an ancestor that some record of the response vouches for, and
-- at least as long as the ancestor that any other record's scan stops at.
pub find_closest_encloser_sound :
    (dns : Dns) (doe : DenialOfExistenceNsec3) (qname : Name)
    → (find_closest_encloser dns doe qname).2 ≡ true
    → ((r : Nsec3) × In r doe.records
        × Vouches dns doe.zone qname r (find_closest_encloser dns doe qname).0)
      × ((r : Nsec3) (p : ProofPair)
          → In r doe.records
          → scan_ancestors dns doe.zone qname r 0 (dns.split qname) ≡ some p
          → length p.ce ≤ length (find_closest_encloser dns doe qname).0)
unfolding find_closest_encloser
find_closest_encloser_sound dns doe qname h = go (contenders dns doe.zone qname doe.records) refl
  where
    go :
        (ps : List ProofPair)
        → contenders dns doe.zone qname doe.records ≡ ps
        → ((r : Nsec3) × In r doe.records
            × Vouches dns doe.zone qname r (find_closest_encloser dns doe qname).0)
          × ((r : Nsec3) (p : ProofPair)
              → In r doe.records
              → scan_ancestors dns doe.zone qname r 0 (dns.split qname) ≡ some p
              → length p.ce ≤ length (find_closest_encloser dns doe qname).0)
    go [] e = cc (rw (e, find_closest_encloser) at h)
    go (p ∷ ps) e =
        rw (e, find_closest_encloser)
          (
            contenders_sound dns doe.zone qname doe.records (longest p ps)
                (rw e (longest-In dns doe.zone qname p ps)),
            λ r q m s. longest_max dns doe.zone qname p ps q (
                subst (λ z. In q z) e (contenders_complete dns doe.zone qname doe.records r q m s)),
          )
