-- ===== src/Dnssec/Doe/Order.antt =====
-- The canonical order of names that `canonicalCmp` of dnssec/doe/functions.go decides.
use Prim.Native.Nat.{Ordering}
use resolver_lib.Prelude.{
  ◌≡◌, refl, ap, true, false, not, List, [], ◌∷◌, map, name_eq, name_eq→eq, name_eq_iff, Name,
  arith, ◌↔◌, ◌≢◌,
}
use resolver_lib.Dns.{Dns}
use resolver_lib.Dnssec.Doe.Names.{
  name_lt, decode_label, compare_labels, labels_from_root, canonical_cmp, before, is_lt,
}

abbrev pub swap : Ordering → Ordering
swap Ordering.lt = Ordering.gt
swap Ordering.eq = Ordering.eq
swap Ordering.gt = Ordering.lt

name_lt_irrefl : (xs : Name) → name_lt xs xs ≡ false
name_lt_irrefl [] = refl
name_lt_irrefl (x ∷ xs) = ground (arith, name_lt_irrefl xs)

name_lt-swap : (xs ys : Name) → name_eq xs ys ≡ false → name_lt ys xs ≡ not (name_lt xs ys)
name_lt-swap [] [] h = cc
name_lt-swap [] (y ∷ ys) h = refl
name_lt-swap (x ∷ xs) [] h = refl
name_lt-swap (x ∷ xs) (y ∷ ys) h = ground (arith, name_lt-swap xs ys)

name_eq_comm : (xs ys : Name) → name_eq xs ys ≡ name_eq ys xs
name_eq_comm [] [] = refl
name_eq_comm [] (y ∷ ys) = refl
name_eq_comm (x ∷ xs) [] = refl
name_eq_comm (x ∷ xs) (y ∷ ys) = ground (arith, name_eq_comm xs ys)

name_lt_trans :
    (xs ys zs : Name) → name_lt xs ys ≡ true → name_lt ys zs ≡ true → name_lt xs zs ≡ true
name_lt_trans [] [] zs h k = cc
name_lt_trans [] (y ∷ ys) [] h k = cc
name_lt_trans [] (y ∷ ys) (z ∷ zs) h k = refl
name_lt_trans (x ∷ xs) [] zs h k = cc
name_lt_trans (x ∷ xs) (y ∷ ys) [] h k = cc
name_lt_trans (x ∷ xs) (y ∷ ys) (z ∷ zs) h k = ground (arith, name_lt_trans xs ys zs)

compare_labels-swap : (xs ys : List Name) → compare_labels ys xs ≡ swap (compare_labels xs ys)
unfolding compare_labels
compare_labels-swap [] [] = refl
compare_labels-swap [] (y ∷ ys) = refl
compare_labels-swap (x ∷ xs) [] = refl
compare_labels-swap (x ∷ xs) (y ∷ ys) = ground (
  arith,
  compare_labels-swap xs ys,
  name_eq_comm (decode_label x) (decode_label y),
  name_lt-swap (decode_label x) (decode_label y),
)

compare_labels-eq :
    (xs ys : List Name)
    → compare_labels xs ys ≡ Ordering.eq
    → map decode_label xs ≡ map decode_label ys
unfolding compare_labels
compare_labels-eq [] [] h = refl
compare_labels-eq [] (y ∷ ys) h = cc
compare_labels-eq (x ∷ xs) [] h = cc
compare_labels-eq (x ∷ xs) (y ∷ ys) h =
    ground (arith, compare_labels-eq xs ys, name_eq→eq (decode_label x) (decode_label y))

eq-compare_labels :
    (xs ys : List Name)
    → map decode_label xs ≡ map decode_label ys
    → compare_labels xs ys ≡ Ordering.eq
unfolding compare_labels
eq-compare_labels [] [] h = refl
eq-compare_labels [] (y ∷ ys) h = cc
eq-compare_labels (x ∷ xs) [] h = cc
eq-compare_labels (x ∷ xs) (y ∷ ys) h =
    ground (arith, eq-compare_labels xs ys, (name_eq_iff (decode_label x) (decode_label y)).1)

compare_labels_trans :
    (xs ys zs : List Name)
    → compare_labels xs ys ≡ Ordering.lt
    → compare_labels ys zs ≡ Ordering.lt
    → compare_labels xs zs ≡ Ordering.lt
unfolding compare_labels
compare_labels_trans [] [] zs h k = cc
compare_labels_trans [] (y ∷ ys) [] h k = cc
compare_labels_trans [] (y ∷ ys) (z ∷ zs) h k = refl
compare_labels_trans (x ∷ xs) [] zs h k = cc
compare_labels_trans (x ∷ xs) (y ∷ ys) [] h k = cc
compare_labels_trans (x ∷ xs) (y ∷ ys) (z ∷ zs) h k = ground (
  arith,
  compare_labels_trans xs ys zs,
  name_eq_iff (decode_label x) (decode_label y),
  name_eq_iff (decode_label y) (decode_label z),
  name_eq_iff (decode_label x) (decode_label z),
  name_lt_trans (decode_label x) (decode_label y) (decode_label z),
  name_lt-swap (decode_label x) (decode_label y),
  name_lt_irrefl (decode_label x),
)

-- The labels that the order compares, last label first.
abbrev pub sort_key : Dns → Name → List Name
sort_key dns name = map decode_label (labels_from_root dns name)

module _ (dns : Dns) where
  -- Swapped names compare the opposite way.
  pub canonical_cmp-swap : (x y : Name) → canonical_cmp dns y x ≡ swap (canonical_cmp dns x y)
  unfolding canonical_cmp
  canonical_cmp-swap x y = compare_labels-swap (labels_from_root dns x) (labels_from_root dns y)

  -- The result is 0 exactly when the decoded labels are the same.
  pub canonical_cmp-eq_iff :
      (x y : Name) → (canonical_cmp dns x y ≡ Ordering.eq) ↔ (sort_key dns x ≡ sort_key dns y)
  unfolding canonical_cmp
  canonical_cmp-eq_iff x y = (
    compare_labels-eq (labels_from_root dns x) (labels_from_root dns y),
    eq-compare_labels (labels_from_root dns x) (labels_from_root dns y),
  )

  pub canonical_cmp_trans :
      (x y z : Name)
      → canonical_cmp dns x y ≡ Ordering.lt
      → canonical_cmp dns y z ≡ Ordering.lt
      → canonical_cmp dns x z ≡ Ordering.lt
  unfolding canonical_cmp
  canonical_cmp_trans x y z =
      compare_labels_trans (labels_from_root dns x) (labels_from_root dns y)
        (labels_from_root dns z)

  is_lt_eq : (o : Ordering) → is_lt o ≡ true → o ≡ Ordering.lt
  is_lt_eq Ordering.lt h = refl
  is_lt_eq Ordering.eq h = cc
  is_lt_eq Ordering.gt h = cc

  -- `canonicalCmp` decides a strict order on names up to their decoded labels: it is transitive,
  -- of two names that differ exactly one comes before the other, and no name is before itself.
  pub before_order :
      (x y z : Name)
      → (before dns x y ≡ true → before dns y z ≡ true → before dns x z ≡ true)
        × (before dns x y ≡ true → before dns y x ≡ false)
        × (sort_key dns x ≢ sort_key dns y → before dns x y ≡ false → before dns y x ≡ true)
        × (before dns x x ≡ false)
  before_order x y z = (
    λ h k. ap is_lt (canonical_cmp_trans x y z (is_lt_eq _ h) (is_lt_eq _ k)),
    λ h. ground (arith, canonical_cmp-swap x y),
    λ d h. ground (arith, canonical_cmp-swap x y, canonical_cmp-eq_iff x y),
    ground (arith, canonical_cmp-eq_iff x x),
  )
