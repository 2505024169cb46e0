-- ===== src/Resolver/Domain/Walk.antt =====
-- Where `windTo` of domain.go stops, and what `gap` lists.
use resolver_lib.Prelude.{
  ℕ, zero, suc, ◌+◌, ◌-◌, ◌≤◌, ◌<◌, ◌≡◌, refl, sym, ap, subst, ◌∙◌, ◌≢◌, ◌⊎◌, inl, inr, true, false,
  List, [], ◌∷◌, Option, none, some, Bool-cases, Option-cases, arith, dec_lt, Name, name_eq,
  name_eq_iff, get_elem?, get_elem?-none, get_elem?-some, length, drop, leb,
}
use resolver_lib.Dns.{Dns}
use resolver_lib.Resolver.Domain.{
  suffix, Domain, WindError, target_not_found, current, next, more, wind, wind_to, names_from, gap,
}

-- The positions are positions of the name, and the name from the i-th of them on has i labels.
abbrev pub IsLabelled : Dns → Name → ℕ → List ℕ → Type 0
IsLabelled dns name i [] = Unit
IsLabelled dns name i (at ∷ rest) =
    (at ≤ length name) × (dns.count_label (drop at name) ≡ i) × IsLabelled dns name (i + 1) rest

-- The name at a position of the walk.
abbrev pub at_index : Domain → ℕ → Option Name
at_index d i = current (record d { current_idx = i })

-- The name does not stand at the positions from one up to another.
abbrev pub Missing : Domain → Name → ℕ → ℕ → Type 0
Missing d target low high = (j : ℕ) → low ≤ j → j < high → at_index d j ≢ some target

-- Winding ends at the first position, from the current one on, at which the target stands, or
-- where there is none, past the last position.
abbrev pub Winds : Domain → Name → Option (Domain × Option WindError) → Type 0
Winds d target o =
    ((i : ℕ) × (d.current_idx ≤ i)
      × (i ≤ length d.label_indexes)
      × (at_index d i ≡ some target)
      × Missing d target d.current_idx i
      × (o ≡ some (record d { current_idx = i }, none)))
    ⊎ (Missing d target d.current_idx (length d.label_indexes + 1)
        × ((d' : Domain) × (o ≡ some (d', some target_not_found)) × (more d' ≡ false)))

module _ (dns : Dns) where
  labelled_at :
      (name : Name) (i j at : ℕ) (is : List ℕ)
      → IsLabelled dns name i is
      → get_elem? is j ≡ some at
      → (suffix name at ≡ some (drop at name)) × (dns.count_label (drop at name) ≡ i + j)
  unfolding suffix
  labelled_at name i j at [] h e = cc
  labelled_at name i zero at (x ∷ is) h e =
      let k : x ≡ at = cc in
      let b : at ≤ length name = subst (λ z. z ≤ length name) k h.0 in
      (ground arith, subst (λ z. dns.count_label (drop z name) ≡ i + 0) k (h.1 ∙ omega arith))
  labelled_at name i (suc j) at (x ∷ is) h e =
      let k = labelled_at name (i + 1) j at is h.2 e in (k.0, k.1 ∙ omega arith)

  current_total :
      (d : Domain) → IsLabelled dns d.name 0 d.label_indexes → (c : Name) × (current d ≡ some c)
  unfolding current
  current_total d h = elim (Option-cases (get_elem? d.label_indexes d.current_idx)) [
    | inl e ↦ (d.name, rw (e, current))
    | inr (at, e) ↦ (
      drop at d.name,
      rw (e, current) (labelled_at d.name 0 d.current_idx at d.label_indexes h e).0,
    )
  ]

  -- A position that does not hold the target is passed.
  passed :
      (d : Domain) (target c : Name) (high : ℕ)
      → current d ≡ some c
      → name_eq c target ≡ false
      → Missing d target (d.current_idx + 1) high
      → Missing d target d.current_idx high
  passed d target c high e q rest j low below at = elim (dec_lt d.current_idx j) [
    | yes l ↦ rest j (omega arith) below at
    | no l ↦
        let k : j ≡ d.current_idx = omega arith in
        let here : current d ≡ some target = subst (λ i. at_index d i ≡ some target) k at in
        let same : c ≡ target = cc in let t = (name_eq_iff c target).1 same in ground arith
  ]

  wind_on :
      (d : Domain) (target c : Name) (o o' : Option (Domain × Option WindError))
      → current d ≡ some c
      → name_eq c target ≡ false
      → o' ≡ o
      → Winds (next d) target o
      → Winds d target o'
  wind_on d target c o o' e q s (inl (i, low, high, at, missing, k)) =
      inl (i, omega arith, high, at, passed d target c i e q missing, s ∙ k)
  wind_on d target c o o' e q s (inr (missing, (d', k, past))) =
      inr (passed d target c (length d.label_indexes + 1) e q missing, (d', s ∙ k, past))

  wind_cases :
      (n : ℕ) (d : Domain) (target : Name)
      → IsLabelled dns d.name 0 d.label_indexes
      → length d.label_indexes + 1 ≤ n + d.current_idx
      → Winds d target (wind n d target)
  unfolding wind
  wind_cases zero d target h b = inr (λ j low high. absurd (omega arith), (d, refl, ground arith))
  wind_cases (suc n) d target h b = elim (Bool-cases (more d)) [
    | inr m ↦ inr (λ j low high. absurd (ground arith), (d, rw (m, wind), m))
    | inl m ↦
        let (c, e) = current_total d h in
        elim (Bool-cases (name_eq c target)) [
          | inl q ↦
              let at : current d ≡ some target = e ∙ ap some ((name_eq_iff c target).0 q) in
              inl (
                d.current_idx,
                omega arith,
                ground arith,
                at,
                λ j low high. absurd (omega arith),
                rw (m, e, q, wind),
              )
          | inr q ↦
              wind_on d target c (wind n (next d) target) (wind (suc n) d target) e q
                (rw (m, e, q, wind)) (wind_cases n (next d) target h (omega arith))
        ]
  ]

  -- For a target that the domain lies in, winding ends at the first position, from the current one
  -- on, at which the target stands, and else past the last position, with the error for that.
  pub wind_to_lem :
      (d : Domain) (target : Name)
      → IsLabelled dns d.name 0 d.label_indexes
      → dns.is_sub_domain (dns.canonical_name target) d.name ≡ true
      → Winds d (dns.canonical_name target) (wind_to dns d target)
  unfolding wind_to
  wind_to_lem d target h e =
      rw (e, wind_to)
        (wind_cases (length d.label_indexes + 1 - d.current_idx) d (dns.canonical_name target) h
          (omega arith))

  at_index-labelled :
      (d : Domain) (i at : ℕ)
      → get_elem? d.label_indexes i ≡ some at
      → at_index d i ≡ suffix d.name at
  unfolding current
  at_index-labelled d i at e = rw (e, current)

  prepended :
      (d : Domain) (i n at : ℕ) (names : List Name)
      → get_elem? d.label_indexes i ≡ some at
      → suffix d.name at ≡ some (drop at d.name)
      → ((k : ℕ) → k < n → get_elem? names k ≡ at_index d (i + 1 + k))
      → (k : ℕ) → k < suc n
      → get_elem? (drop at d.name ∷ names) k ≡ at_index d (i + k)
  prepended d i n at names e s each zero l =
      let z : i ≡ i + 0 = omega arith in
      sym s ∙ sym (at_index-labelled d i at e) ∙ ap (at_index d) z
  prepended d i n at names e s each (suc k) l =
      let z : i + 1 + k ≡ i + suc k = omega arith in each k (omega arith) ∙ ap (at_index d) z

  names_from_lem :
      (d : Domain) (i n : ℕ)
      → IsLabelled dns d.name 0 d.label_indexes
      → i + n ≤ length d.label_indexes
      → (names : List Name) × (names_from d i n ≡ some names)
        × (length names ≡ n)
        × ((k : ℕ) → k < n → get_elem? names k ≡ at_index d (i + k))
  unfolding names_from
  names_from_lem d i zero h b = ([], refl, refl, λ k l. absurd (omega arith))
  names_from_lem d i (suc n) h b =
      let (at, e) = get_elem?-some d.label_indexes i (omega arith) in
      let s = (labelled_at d.name 0 i at d.label_indexes h e).0 in
      let (names, r, l, each) = names_from_lem d (i + 1) n h (omega arith) in
      (
        drop at d.name ∷ names,
        rw (e, s, r, names_from),
        ap suc l,
        prepended d i n at names e s each,
      )

  -- `gap` never runs out of range, on positions that fit the labels of the name and where no domain
  -- that the name lies in has more labels than it. For a target that the name lies in, and a
  -- current position that is not past the last one, it has the names at the positions from the
  -- current one on, as many as the target has labels more than the current name, which itself is
  -- the first. For another target, or past the last position, it is empty.
  pub gap_lem :
      (d : Domain) (target : Name)
      → IsLabelled dns d.name 0 d.label_indexes
      → length d.label_indexes ≡ dns.count_label d.name + 1
      → (dns.is_sub_domain target d.name ≡ true → dns.count_label target ≤ dns.count_label d.name)
      → (names : List Name) × (gap dns d target ≡ some names)
        × (dns.is_sub_domain target d.name ≡ true
            → d.current_idx < length d.label_indexes
            → (length names ≡ dns.count_label target - d.current_idx)
              × ((k : ℕ) → k < length names → get_elem? names k ≡ at_index d (d.current_idx + k)))
        × (dns.is_sub_domain target d.name ≡ false → names ≡ [])
        × (length d.label_indexes ≤ d.current_idx → names ≡ [])
  unfolding gap current
  gap_lem d target h e b = elim (Bool-cases (dns.is_sub_domain target d.name)) [
    | inr f ↦ ([], rw (f, gap), λ t. ground arith, λ g. refl, λ g. refl)
    | inl t ↦ elim (Option-cases (get_elem? d.label_indexes d.current_idx)) [
      | inl past ↦
          let c : current d ≡ some d.name = rw (past, current) in
          let m : leb (dns.count_label target) (dns.count_label d.name) ≡ true =
            ground (arith, b t) in
          (
            [],
            rw (t, c, m, gap),
            λ g l. let (x, k) = get_elem?-some d.label_indexes d.current_idx l in ground arith,
            λ g. refl,
            λ g. refl,
          )
      | inr (at, l) ↦
          let (s, z) = labelled_at d.name 0 d.current_idx at d.label_indexes h l in
          let c : current d ≡ some (drop at d.name) = rw (l, current) s in
          elim (Bool-cases (leb (dns.count_label target) (dns.count_label (drop at d.name)))) [
            | inl m ↦ (
              [],
              rw (t, c, m, gap),
              λ g i. (ground arith, λ k j. absurd (omega arith)),
              λ g. refl,
              λ g. refl,
            )
            | inr m ↦
                let n = dns.count_label target - dns.count_label (drop at d.name) in
                let (names, r, len, each) =
                  names_from_lem d d.current_idx n h (ground (arith, b t)) in
                (
                  names,
                  rw (t, c, m, gap) r,
                  λ g i. (len ∙ omega arith, λ k j. each k (omega (arith, len))),
                  λ g. ground arith,
                  λ g. let none_there = get_elem?-none d.label_indexes d.current_idx g in cc,
                )
          ]
    ]
  ]
