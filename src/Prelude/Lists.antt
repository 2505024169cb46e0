-- ===== src/Prelude/Lists.antt =====
-- Lists measured and indexed by native numbers, and the list predicates that the parts share.
use Prim.Native.Nat.{ℕ, zero, suc, ◌+◌, ◌≤◌, ◌<◌}
use mathlib.Core.Path.{◌≡◌, refl, sym, ap, subst, ◌∙◌}
use mathlib.Core.Logic.{◌⊎◌, inl, inr, ◌↔◌}
use mathlib.Core.Bool.{Bool, true, false, ◌&&◌}
use mathlib.Core.List.{List, [], ◌∷◌, ◌++◌}
use mathlib.Core.Option.{Option, none, some}
use native.Mathlib.Omega.{arith}
use package.resolver_lib.Prelude.Tests.{if◌then◌else◌, ◌==◌, Bool-cases}

module _ {ℓ} {A : Type ℓ} where
  abbrev pub length : List A → ℕ
  length [] = 0
  length (x ∷ xs) = suc (length xs)

  abbrev pub get_elem? : List A → ℕ → Option A
  get_elem? [] i = none
  get_elem? (x ∷ xs) zero = some x
  get_elem? (x ∷ xs) (suc i) = get_elem? xs i

  -- A write out of bounds changes nothing.
  abbrev pub set : List A → ℕ → A → List A
  set [] i v = []
  set (x ∷ xs) zero v = v ∷ xs
  set (x ∷ xs) (suc i) v = x ∷ set xs i v

  abbrev pub drop : ℕ → List A → List A
  drop zero xs = xs
  drop (suc n) [] = []
  drop (suc n) (x ∷ xs) = drop n xs

  abbrev pub replicate : ℕ → A → List A
  replicate zero a = []
  replicate (suc n) a = a ∷ replicate n a

  abbrev pub get_last? : List A → Option A
  get_last? [] = none
  get_last? (x ∷ []) = some x
  get_last? (x ∷ y ∷ xs) = get_last? (y ∷ xs)

  -- The elements that pass a Boolean test, in order.
  abbrev pub select : (A → Bool) → List A → List A
  select p [] = []
  select p (x ∷ xs) = if p x then x ∷ select p xs else select p xs

  abbrev pub any : (A → Bool) → List A → Bool
  any p [] = false
  any p (x ∷ xs) = if p x then true else any p xs

module _ {ℓ} {A : Type ℓ} where
  pub length-append : (xs ys : List A) → length (xs ++ ys) ≡ length xs + length ys
  length-append [] ys = omega arith
  length-append (x ∷ xs) ys = omega (arith, length-append xs ys)

  pub length-set : (xs : List A) (i : ℕ) (v : A) → length (set xs i v) ≡ length xs
  length-set [] i v = refl
  length-set (x ∷ xs) zero v = refl
  length-set (x ∷ xs) (suc i) v = ap suc (length-set xs i v)

  pub length-replicate : (n : ℕ) (a : A) → length (replicate n a) ≡ n
  length-replicate zero a = refl
  length-replicate (suc n) a = ap suc (length-replicate n a)

-- Membership with the position kept, and a property of every element.
module _ {A : Type 0} where
  abbrev pub In : A → List A → Type 0
  In a [] = ⊥
  In a (x ∷ xs) = (a ≡ x) ⊎ In a xs

  abbrev pub All : (A → Type 0) → List A → Type 0
  All P [] = Unit
  All P (x ∷ xs) = P x × All P xs

  pub In-All : (P : A → Type 0) (a : A) (xs : List A) → All P xs → In a xs → P a
  In-All P a [] h m = absurd m
  In-All P a (x ∷ xs) h (inl e) = subst P (sym e) h.0
  In-All P a (x ∷ xs) h (inr m) = In-All P a xs h.1 m

  pub All-In : (P : A → Type 0) (xs : List A) → ((a : A) → In a xs → P a) → All P xs
  All-In P [] h = tt
  All-In P (x ∷ xs) h = (h x (inl refl), All-In P xs (λ a m. h a (inr m)))

  pub All-append : (P : A → Type 0) (xs ys : List A) → All P xs → All P ys → All P (xs ++ ys)
  All-append P [] ys h k = k
  All-append P (x ∷ xs) ys h k = (h.0, All-append P xs ys h.1 k)

  pub All-mono : (P Q : A → Type 0) (xs : List A) → ((a : A) → P a → Q a) → All P xs → All Q xs
  All-mono P Q [] f h = tt
  All-mono P Q (x ∷ xs) f h = (f x h.0, All-mono P Q xs f h.1)

  pub In-append_left : (a : A) (xs ys : List A) → In a xs → In a (xs ++ ys)
  In-append_left a [] ys m = absurd m
  In-append_left a (x ∷ xs) ys (inl e) = inl e
  In-append_left a (x ∷ xs) ys (inr m) = inr (In-append_left a xs ys m)

  pub In-append_right : (a : A) (xs ys : List A) → In a ys → In a (xs ++ ys)
  In-append_right a [] ys m = m
  In-append_right a (x ∷ xs) ys m = inr (In-append_right a xs ys m)

  pub In-append_cases : (a : A) (xs ys : List A) → In a (xs ++ ys) → In a xs ⊎ In a ys
  In-append_cases a [] ys m = inr m
  In-append_cases a (x ∷ xs) ys (inl e) = inl (inl e)
  In-append_cases a (x ∷ xs) ys (inr m) = elim (In-append_cases a xs ys m) [
    | inl k ↦ inl (inr k)
    | inr k ↦ inr k
  ]

  -- What a selection holds is in the list and passes the test, and the other way round.
  pub In-select : (p : A → Bool) (a : A) (xs : List A) → In a (select p xs) → In a xs × (p a ≡ true)
  In-select p a [] m = absurd m
  In-select p a (x ∷ xs) m = elim (Bool-cases (p x)) [
    | inl t ↦ elim (rw t at m) as (λ _. In a (x ∷ xs) × (p a ≡ true)) [
      | inl e ↦ (inl e, ap p e ∙ t)
      | inr k ↦ let r = In-select p a xs k in (inr r.0, r.1)
    ]
    | inr f ↦ let r = In-select p a xs (rw f at m) in (inr r.0, r.1)
  ]

  pub select-In : (p : A → Bool) (a : A) (xs : List A) → In a xs → p a ≡ true → In a (select p xs)
  select-In p a [] m t = absurd m
  select-In p a (x ∷ xs) (inl e) t = let q : p x ≡ true = ap p (sym e) ∙ t in rw q (inl e)
  select-In p a (x ∷ xs) (inr m) t = elim (Bool-cases (p x)) [
    | inl q ↦ rw q (inr (select-In p a xs m t))
    | inr q ↦ rw q (select-In p a xs m t)
  ]

  pub any-true : (p : A → Bool) (xs : List A) → any p xs ≡ true → (a : A) × In a xs × (p a ≡ true)
  any-true p [] h = cc
  any-true p (x ∷ xs) h = elim (Bool-cases (p x)) [
    | inl q ↦ (x, inl refl, q)
    | inr q ↦ let r = any-true p xs (rw q at h) in (r.0, inr r.1, r.2)
  ]

  pub any-In : (p : A → Bool) (a : A) (xs : List A) → In a xs → p a ≡ true → any p xs ≡ true
  any-In p a [] m t = absurd m
  any-In p a (x ∷ xs) (inl e) t = let q : p x ≡ true = ap p (sym e) ∙ t in rw q
  any-In p a (x ∷ xs) (inr m) t = ground (arith, any-In p a xs m t)

-- Texts are lists of bytes; this is `==` on them.
abbrev pub Name : Type 0
Name = List ℕ

abbrev pub name_eq : Name → Name → Bool
name_eq [] [] = true
name_eq [] (y ∷ ys) = false
name_eq (x ∷ xs) [] = false
name_eq (x ∷ xs) (y ∷ ys) = (x == y) && name_eq xs ys

pub name_eq_refl : (xs : Name) → name_eq xs xs ≡ true
name_eq_refl [] = refl
name_eq_refl (x ∷ xs) = ground (arith, name_eq_refl xs)

pub name_eq→eq : (xs ys : Name) → name_eq xs ys ≡ true → xs ≡ ys
name_eq→eq [] [] h = refl
name_eq→eq [] (y ∷ ys) h = cc
name_eq→eq (x ∷ xs) [] h = cc
name_eq→eq (x ∷ xs) (y ∷ ys) h = ground (arith, name_eq→eq xs ys)

pub name_eq_iff : (xs ys : Name) → (name_eq xs ys ≡ true) ↔ (xs ≡ ys)
name_eq_iff xs ys = (name_eq→eq xs ys, λ e. subst (λ z. name_eq xs z ≡ true) e (name_eq_refl xs))

module _ {A : Type 0} where
  pub get_elem?-some : (xs : List A) (i : ℕ) → i < length xs → (x : A) × (get_elem? xs i ≡ some x)
  get_elem?-some [] i h = absurd (omega arith)
  get_elem?-some (x ∷ xs) zero h = (x, refl)
  get_elem?-some (x ∷ xs) (suc i) h = get_elem?-some xs i (omega arith)

  pub get_elem?-none : (xs : List A) (i : ℕ) → length xs ≤ i → get_elem? xs i ≡ none
  get_elem?-none [] i h = refl
  get_elem?-none (x ∷ xs) zero h = absurd (omega arith)
  get_elem?-none (x ∷ xs) (suc i) h = get_elem?-none xs i (omega arith)

  pub In-get_elem? : (xs : List A) (i : ℕ) (x : A) → get_elem? xs i ≡ some x → In x xs
  In-get_elem? [] i x h = cc
  In-get_elem? (y ∷ xs) zero x h = inl (cc)
  In-get_elem? (y ∷ xs) (suc i) x h = inr (In-get_elem? xs i x h)

  pub get_elem?-In :
      (x : A) (xs : List A) → In x xs → (i : ℕ) × (i < length xs) × (get_elem? xs i ≡ some x)
  get_elem?-In x [] m = absurd m
  get_elem?-In x (y ∷ xs) (inl e) = (0, omega arith, ap some (sym e))
  get_elem?-In x (y ∷ xs) (inr m) = let (i, b, e) = get_elem?-In x xs m in (suc i, omega arith, e)
