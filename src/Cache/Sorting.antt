-- ===== src/Cache/Sorting.antt =====
-- What the first loop of UpdateWithTime (cache/cache.go) makes of records whose signatures are valid.
use resolver_lib.Prelude.{
  ℕ, ◌/◌, ◌==◌, ==_iff, ◌≡◌, refl, sym, ap, ◌∙◌, ◌≢◌, ◌⊎◌, inl, inr, Bool, true, false, not, ◌&&◌,
  List, [], ◌∷◌, ◌++◌, none, some, if◌then◌else◌, Bool-cases, All, select, lookup, insert,
  lookup-insert, IsMap, insert-IsMap, All-insert, nat_key,
}
use resolver_lib.Dns.{Rr, Rrsig, header, Dns, type_rrsig}
use resolver_lib.Dnssec.Records.{as_rrsig}
use resolver_lib.Cache.{
  Library, Groups, slice_at, is_ignored, key, sort_record, group, may_store, second,
}

abbrev pub Slots : Type 0
Slots = List (ℕ × List Rr)

slice_at-insert :
    (k j : ℕ) (v : List Rr) (m : Slots)
    → slice_at k (insert j v m) ≡ (if j == k then v else slice_at k m)
slice_at-insert k j v m = elim (Bool-cases (j == k)) [
  | inl t ↦ rw (slice_at, lookup-insert j k v m, t) refl
  | inr f ↦ rw (slice_at, lookup-insert j k v m, f) refl
]

append_nil : {A : Type 0} → (xs : List A) → xs ++ [] ≡ xs
append_nil [] = refl
append_nil (x ∷ xs) = ap (λ z. x ∷ z) (append_nil xs)

append_assoc : {A : Type 0} → (xs ys zs : List A) → (xs ++ ys) ++ zs ≡ xs ++ (ys ++ zs)
append_assoc [] ys zs = refl
append_assoc (x ∷ xs) ys zs = ap (λ z. x ∷ z) (append_assoc xs ys zs)

select-cons :
    (p : Rr → Bool) (r : Rr) (rs : List Rr) → select p (r ∷ rs) ≡ select p (r ∷ []) ++ select p rs
select-cons p r rs = elim (Bool-cases (p r)) [ inl t ↦ rw t refl | inr f ↦ rw f refl ]

append_not_nil : (xs : List Rr) (r : Rr) → xs ++ r ∷ [] ≢ []
append_not_nil [] r e = cc
append_not_nil (x ∷ xs) r e = cc

abbrev pub IsFilled : ℕ × List Rr → Type 0
IsFilled p = p.1 ≢ []

module _ (dns : Dns) (lib : Library) where
  open lib use {Table}

  -- A record that is cached under a key, and a signature that is cached with that key.
  abbrev pub is_of : ℕ → Rr → Bool
  is_of k r =
      not ((header r).rrtype == type_rrsig)
      && (not (is_ignored (header r).rrtype)
          && (key dns lib (header r).name (header r).rrtype == k))

  abbrev pub is_over : ℕ → Rr → Bool
  is_over k r = ((header r).rrtype == type_rrsig) && (elim (as_rrsig r) [
    | none ↦ false
    | some s ↦ key dns lib (header r).name s.type_covered == k
  ])

  -- A signature of the message is one, and valid now; any other record may be there.
  abbrev pub Admits : ℕ → Rr → Type 0
  Admits now r =
      (((header r).rrtype == type_rrsig) ≡ false)
      ⊎ ((s : Rrsig) × (as_rrsig r ≡ some s)
          × (((header r).rrtype == type_rrsig) ≡ true)
          × (dns.validity_period s (now / second) ≡ true))

  -- What the first loop has made of the records so far.
  pub record IsSorted (g : Groups) (rs : List Rr) (g' : Groups) : Type 0 where
    pub kept : (k : ℕ) → slice_at k g'.rrsets ≡ slice_at k g.rrsets ++ select (is_of k) rs
    pub signed : (k : ℕ) → slice_at k g'.sigs ≡ slice_at k g.sigs ++ select (is_over k) rs
    pub split : IsMap g.rrsets → IsMap g'.rrsets
    pub filled : All IsFilled g.rrsets → All IsFilled g'.rrsets
    pub storable :
        ((k : ℕ) → may_store dns lib (lookup k g.sigs) ≡ true)
        → (k : ℕ) → may_store dns lib (lookup k g'.sigs) ≡ true

  -- Putting a record at the end of the slice under its key.
  put-slice :
      (m : Slots) (j : ℕ) (r : Rr) (k : ℕ)
      → slice_at k (insert j (slice_at j m ++ r ∷ []) m)
        ≡ slice_at k m ++ (if j == k then r ∷ [] else [])
  put-slice m j r k = elim (Bool-cases (j == k)) [
    | inl t ↦
        let same : j ≡ k = (==_iff j k).0 t in
        rw (slice_at-insert k j (slice_at j m ++ r ∷ []) m, t, same) refl
    | inr f ↦ rw (slice_at-insert k j (slice_at j m ++ r ∷ []) m, f, append_nil (slice_at k m)) refl
  ]

  put-storable :
      (m : Slots) (j : ℕ) (r : Rr)
      → ((k : ℕ) → may_store dns lib (lookup k m) ≡ true)
      → (k : ℕ) → may_store dns lib (lookup k (insert j (slice_at j m ++ r ∷ []) m)) ≡ true
  put-storable m j r h k = elim (Bool-cases (j == k)) [
    | inl t ↦ rw (lookup-insert j k (slice_at j m ++ r ∷ []) m, t) (grown (slice_at j m))
    | inr f ↦ rw (lookup-insert j k (slice_at j m ++ r ∷ []) m, f) (h k)
  ]
    where
      grown : (xs : List Rr) → may_store dns lib (some (xs ++ r ∷ [])) ≡ true
      grown [] = refl
      grown (x ∷ xs) = refl

  signature-IsSorted :
      (now : ℕ) (g : Groups) (rr : Rr) (s : Rrsig)
      → as_rrsig rr ≡ some s
      → ((header rr).rrtype == type_rrsig) ≡ true
      → dns.validity_period s (now / second) ≡ true
      → (g' : Groups) × (sort_record dns lib now g rr ≡ some g') × IsSorted g (rr ∷ []) g'
  unfolding sort_record
  signature-IsSorted now g rr s e t v =
      let j = key dns lib (header rr).name s.type_covered in
      (
        record g { sigs = insert j (slice_at j g.sigs ++ rr ∷ []) g.sigs },
        rw (t, e, v) refl,
        record {
          kept = λ k. rw (t, append_nil (slice_at k g.rrsets)) refl;
          signed = λ k. rw (t, e) (put-slice g.sigs j rr k);
          split = λ h. h;
          filled = λ h. h;
          storable = put-storable g.sigs j rr;
        },
      )

  record-IsSorted :
      (now : ℕ) (g : Groups) (rr : Rr)
      → ((header rr).rrtype == type_rrsig) ≡ false
      → (g' : Groups) × (sort_record dns lib now g rr ≡ some g') × IsSorted g (rr ∷ []) g'
  unfolding sort_record
  record-IsSorted now g rr t = elim (Bool-cases (is_ignored (header rr).rrtype)) [
    | inl x ↦ (
      g,
      rw (t, x) refl,
      record {
        kept = λ k. rw (t, x, append_nil (slice_at k g.rrsets)) refl;
        signed = λ k. rw (t, append_nil (slice_at k g.sigs)) refl;
        split = λ h. h;
        filled = λ h. h;
        storable = λ h. h;
      },
    )
    | inr x ↦
        let j = key dns lib (header rr).name (header rr).rrtype in
        (
          record g { rrsets = insert j (slice_at j g.rrsets ++ rr ∷ []) g.rrsets },
          rw (t, x) refl,
          record {
            kept = λ k. rw (t, x) (put-slice g.rrsets j rr k);
            signed = λ k. rw (t, append_nil (slice_at k g.sigs)) refl;
            split = insert-IsMap j (slice_at j g.rrsets ++ rr ∷ []) g.rrsets;
            filled = λ h.
                All-insert IsFilled j (slice_at j g.rrsets ++ rr ∷ []) g.rrsets h
                  (append_not_nil (slice_at j g.rrsets) rr);
            storable = λ h. h;
          },
        )
  ]

  sort_record-IsSorted :
      (now : ℕ) (g : Groups) (rr : Rr)
      → Admits now rr
      → (g' : Groups) × (sort_record dns lib now g rr ≡ some g') × IsSorted g (rr ∷ []) g'
  sort_record-IsSorted now g rr (inl t) = record-IsSorted now g rr t
  sort_record-IsSorted now g rr (inr (s, e, t, v)) = signature-IsSorted now g rr s e t v

  longer :
      (p : Rr → Bool) (x y z : List Rr) (r : Rr) (rs : List Rr)
      → y ≡ x ++ select p (r ∷ [])
      → z ≡ y ++ select p rs
      → z ≡ x ++ select p (r ∷ rs)
  longer p x y z r rs e f =
      f
      ∙ ap (λ w. w ++ select p rs) e
      ∙ append_assoc x (select p (r ∷ [])) (select p rs)
      ∙ ap (λ w. x ++ w) (sym (select-cons p r rs))

  pub group-IsSorted :
      (now : ℕ) (rs : List Rr) (g : Groups)
      → All (Admits now) rs
      → (g' : Groups) × (group dns lib now g rs ≡ some g') × IsSorted g rs g'
  unfolding group
  group-IsSorted now [] g h = (
    g,
    refl,
    record {
      kept = λ k. sym (append_nil (slice_at k g.rrsets));
      signed = λ k. sym (append_nil (slice_at k g.sigs));
      split = λ h. h;
      filled = λ h. h;
      storable = λ h. h;
    },
  )
  group-IsSorted now (rr ∷ rs) g h =
      let (g1, e, i) = sort_record-IsSorted now g rr h.0 in
      let (g', f, j) = group-IsSorted now rs g1 h.1 in
      (
        g',
        rw e f,
        record {
          kept = λ k.
              longer (is_of k) (slice_at k g.rrsets) (slice_at k g1.rrsets) (slice_at k g'.rrsets)
                rr rs (i.kept k) (j.kept k);
          signed = λ k.
              longer (is_over k) (slice_at k g.sigs) (slice_at k g1.sigs) (slice_at k g'.sigs) rr rs
                (i.signed k) (j.signed k);
          split = λ m. j.split (i.split m);
          filled = λ m. j.filled (i.filled m);
          storable = λ m. j.storable (i.storable m);
        },
      )
