-- ===== src/Tests/Dotted.antt =====
-- A DNS package that makes names canonical by a final dot.
use resolver_lib.Prelude.{
  ℕ, suc, ◌+◌, ◌-◌, ◌==◌, ◌≤◌, ◌≡◌, refl, sym, ap, ◌∙◌, inl, inr, true, false, [], ◌∷◌,
  if◌then◌else◌, Bool-cases, arith, Name, name_eq, name_eq_iff, Bool, subst, All, drop, length,
}
use resolver_lib.Dns.{Dns}
use resolver_lib.Resolver.Missing.{root_name}
use resolver_lib.Resolver.Start.Rooted.{IsRooted}
use resolver_lib.Tests.World.{world, starts, within}

unfoldable pub with_dot : Name → Name
with_dot [] = root_name
with_dot (c ∷ []) = if c == b'.' then c ∷ [] else c ∷ root_name
with_dot (c ∷ d ∷ r) = c ∷ with_dot (d ∷ r)

abbrev pub dotted : Dns
dotted = record world { canonical_name = with_dot }

with_dot-cons : (n : Name) → (c : ℕ) × (r : Name) × (with_dot n ≡ c ∷ r)
unfolding with_dot
with_dot-cons [] = (b'.', [], refl)
with_dot-cons (c ∷ []) = elim (Bool-cases (c == b'.')) [
  | inl t ↦ (c, [], rw t refl)
  | inr f ↦ (c, root_name, rw f refl)
]
with_dot-cons (c ∷ d ∷ r) = (c, with_dot (d ∷ r), refl)

dot : with_dot root_name ≡ root_name
unfolding with_dot
dot = refl

with_dot_twice : (n : Name) → with_dot (with_dot n) ≡ with_dot n
unfolding with_dot
with_dot_twice [] = refl
with_dot_twice (c ∷ []) = elim (Bool-cases (c == b'.')) [
  | inl t ↦ simp (t, with_dot) refl
  | inr f ↦ simp (f, with_dot) refl
]
with_dot_twice (c ∷ d ∷ r) =
    let (e, s, h) = with_dot-cons (d ∷ r) in
    let ih = with_dot_twice (d ∷ r) in
    ap (λ z. with_dot (c ∷ z)) h ∙ ap (λ z. c ∷ z) (ap with_dot (sym h) ∙ ih)

shift :
    (x : ℕ) (xs : Name) (c : ℕ)
    → drop (length (x ∷ xs) - 1) (x ∷ xs) ≡ root_name
    → drop (suc (length (x ∷ xs)) - 1) (c ∷ x ∷ xs) ≡ root_name
shift x xs c h =
    let e : suc (length (x ∷ xs)) - 1 ≡ suc (length (x ∷ xs) - 1) = omega arith in rw e h

ends_in_dot : (n : Name) → drop (length (with_dot n) - 1) (with_dot n) ≡ root_name
unfolding with_dot
ends_in_dot [] = refl
ends_in_dot (c ∷ []) = elim (Bool-cases (c == b'.')) [
  | inl t ↦ let e : c ≡ b'.' = ground arith in rw (t, with_dot) (ap (λ x. x ∷ []) e)
  | inr f ↦ rw (f, with_dot) refl
]
ends_in_dot (c ∷ d ∷ r) =
    let (e, s, h) = with_dot-cons (d ∷ r) in
    let ih = ends_in_dot (d ∷ r) in
    subst (λ z. drop (suc (length z) - 1) (c ∷ z) ≡ root_name) (sym h)
      (shift e s c (subst (λ z. drop (length z - 1) z ≡ root_name) h ih))

starts_within :
    (i : ℕ) (b : Bool) (n : Name) (k : ℕ) → i + length n ≤ k → All (λ j. j ≤ k) (starts i b n)
starts_within i b [] k h = tt
starts_within i b (c ∷ r) k h =
    let after = starts_within (i + 1) true r k (omega arith) in
    let inside = starts_within (i + 1) false r k (omega arith) in
    elim (Bool-cases (c == b'.')) [
      | inl t ↦ rw t after
      | inr f ↦ elim (Bool-cases b) [
        | inl e ↦ rw (f, e) (omega arith, inside)
        | inr e ↦ rw (f, e) inside
      ]
    ]

-- Nothing but the empty text and the dot is made into the dot.
no_labels : (n : Name) → with_dot n ≡ root_name → starts 0 true n ≡ []
unfolding with_dot
no_labels [] h = refl
no_labels (c ∷ []) h = elim (Bool-cases (c == b'.')) [
  | inl t ↦ rw t refl
  | inr f ↦ cc (rw (f, with_dot) at h)
]
no_labels (c ∷ d ∷ r) h = let (e, s, k) = with_dot-cons (d ∷ r) in cc

above :
    (parent name : Name)
    → within parent name ≡ true
    → with_dot name ≡ root_name
    → with_dot parent ≡ root_name
above parent name h e =
    let h' = rw (no_labels name e) at h in
    let only : name_eq parent root_name ≡ true = ground (arith, h') in
    ap with_dot ((name_eq_iff parent root_name).0 only) ∙ dot

pub dotted_IsRooted : IsRooted dotted
dotted_IsRooted = record {
  canonical_root = dot;
  canonical_twice = with_dot_twice;
  above_root = above;
  ends_in_root = ends_in_dot;
  splits_within = λ n. starts_within 0 true (with_dot n) (length (with_dot n)) (omega arith);
}
