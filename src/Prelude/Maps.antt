-- ===== src/Prelude/Maps.antt =====
-- Go maps as association lists: `insert` overwrites in place, and iteration is in the list's order.
use Prim.Native.Nat.{ℕ}
use mathlib.Core.Path.{◌≡◌, refl}
use mathlib.Core.Logic.{◌↔◌, inl, inr}
use mathlib.Core.Bool.{Bool, true}
use mathlib.Core.List.{List, [], ◌∷◌}
use mathlib.Core.Option.{Option, none, some}
use native.Mathlib.Omega.{arith}
use package.resolver_lib.Prelude.Tests.{Bool-cases, if◌then◌else◌, ◌==◌, ==_iff}
use package.resolver_lib.Prelude.Lists.{In, All, Name, name_eq, name_eq_iff}

-- Keys that a program compares with `==`.
pub record Key (K : Type 0) : Type 0 where
  pub beq : K → K → Bool
  pub beq_iff : (x y : K) → (beq x y ≡ true) ↔ (x ≡ y)

instance abbrev pub nat_key : Key ℕ
nat_key = record { beq = ◌==◌; beq_iff = ==_iff }

instance abbrev pub name_key : Key Name
name_key = record { beq = name_eq; beq_iff = name_eq_iff }

module _ {K V : Type 0} ⦃e : Key K⦄ where
  unfoldable pub lookup : K → List (K × V) → Option V
  lookup k [] = none
  lookup k ((j, v) ∷ m) = if e.beq j k then some v else lookup k m

  unfoldable pub insert : K → V → List (K × V) → List (K × V)
  insert k v [] = (k, v) ∷ []
  insert k v ((j, w) ∷ m) = if e.beq j k then (k, v) ∷ m else (j, w) ∷ insert k v m

  pub lookup-insert :
      (k j : K) (v : V) (m : List (K × V))
      → lookup j (insert k v m) ≡ (if e.beq k j then some v else lookup j m)
  unfolding lookup insert
  lookup-insert k j v [] = refl
  lookup-insert k j v ((i, w) ∷ m) =
      ground (arith, e.beq_iff k j, e.beq_iff i k, e.beq_iff i j, lookup-insert k j v m)

  -- No key stands twice.
  abbrev pub IsMap : List (K × V) → Type 0
  IsMap [] = Unit
  IsMap ((k, v) ∷ m) = (lookup k m ≡ none) × IsMap m

  pub insert-IsMap : (k : K) (v : V) (m : List (K × V)) → IsMap m → IsMap (insert k v m)
  unfolding lookup insert
  insert-IsMap k v [] h = (refl, tt)
  insert-IsMap k v ((j, w) ∷ m) h =
      ground (arith, insert-IsMap k v m h.1, lookup-insert k j v m, e.beq_iff j k, e.beq_iff k j)

  pub lookup-In : (k : K) (v : V) (m : List (K × V)) → lookup k m ≡ some v → In (k, v) m
  unfolding lookup
  lookup-In k v [] h = cc
  lookup-In k v ((j, w) ∷ m) h = ground (arith, lookup-In k v m, e.beq_iff j k)

  pub In-lookup : (k : K) (v : V) (m : List (K × V)) → IsMap m → In (k, v) m → lookup k m ≡ some v
  unfolding lookup
  In-lookup k v [] h m = absurd m
  In-lookup k v ((j, w) ∷ m) h i = ground (arith, In-lookup k v m h.1, e.beq_iff j k, e.beq_iff k j)

  -- A property of all entries is kept by a write of an entry that has it.
  pub All-insert :
      (P : K × V → Type 0) (k : K) (v : V) (m : List (K × V))
      → All P m
      → P (k, v)
      → All P (insert k v m)
  unfolding insert
  All-insert P k v [] h p = (p, tt)
  All-insert P k v ((j, w) ∷ m) h p = elim (Bool-cases (e.beq j k)) [
    | inl t ↦ rw t (p, h.1)
    | inr t ↦ rw t (h.0, All-insert P k v m h.1 p)
  ]
