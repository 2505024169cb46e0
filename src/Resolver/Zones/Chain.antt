-- ===== src/Resolver/Zones/Chain.antt =====
-- What a store of zones.go returns: zones that were added, and chains of parents.
use mathlib.Core.List.{reverse, reverse_aux}
use resolver_lib.Prelude.{
  ℕ, ◌≤◌, ◌≡◌, refl, inl, inr, false, List, [], ◌∷◌, Option, none, some, if◌then◌else◌, Bool-cases,
  Option-cases, arith, Name, name_eq, name_eq_iff, length, drop, All, lookup, lookup-insert, insert,
  name_key,
}
use resolver_lib.Dns.{Dns}
use resolver_lib.Resolver.Domain.{suffix, label_starts}
use resolver_lib.Resolver.Zones.{StoredZone, Zones, misaligned, collect, get_zone_list, get, add}

-- From the most specific zone on, each names the next as its parent.
abbrev pub Linked : List StoredZone → Type 0
Linked [] = Unit
Linked (z ∷ []) = Unit
Linked (z ∷ y ∷ zs) = (z.parent ≡ y.name) × Linked (y ∷ zs)

-- The zone stands in the map under an ancestor of the name, or the name itself, and is not expired
-- at the time.
abbrev pub Known : ℕ → List (Name × StoredZone) → Name → StoredZone → Type 0
Known now m name z = ((at : ℕ) × (lookup (drop at name) m ≡ some z)) × (z.expired now ≡ false)

-- The same chain from the root on, after a zone.
abbrev pub Descends : Option StoredZone → List StoredZone → Type 0
Descends last [] = Unit
Descends last (z ∷ zs) = (misaligned last z ≡ false) × Descends (some z) zs

misaligned-parent : (last z : StoredZone) → misaligned (some last) z ≡ false → z.parent ≡ last.name
misaligned-parent last z h = (name_eq_iff z.parent last.name).0 (ground arith)

reversed-Linked :
    (z : StoredZone) (zs acc : List StoredZone)
    → Descends (some z) zs
    → Linked (z ∷ acc)
    → Linked (reverse_aux zs (z ∷ acc))
reversed-Linked z [] acc h l = l
reversed-Linked z (y ∷ zs) acc h l =
    reversed-Linked y zs (z ∷ acc) h.1 (misaligned-parent z y h.0, l)

-- Reversing a chain from the root on links it.
reverse-Linked : (zs : List StoredZone) → Descends none zs → Linked (reverse zs)
reverse-Linked [] h = tt
reverse-Linked (z ∷ zs) h = reversed-Linked z zs [] h.1 tt

pub reverse_aux-All :
    {A : Type 0} (P : A → Type 0) (zs acc : List A)
    → All P zs
    → All P acc
    → All P (reverse_aux zs acc)
reverse_aux-All P [] acc h k = k
reverse_aux-All P (z ∷ zs) acc h k = reverse_aux-All P zs (z ∷ acc) h.1 (h.0, k)

pub collect_total :
    (now : ℕ) (m : List (Name × StoredZone)) (name : Name) (last : Option StoredZone) (is : List ℕ)
    → All (λ i. i ≤ length name) is
    → (zs : List StoredZone) × (collect now m name last is ≡ some zs)
      × Descends last zs
      × All (Known now m name) zs
unfolding collect suffix
collect_total now m name last [] h = ([], refl, tt, tt)
collect_total now m name last (at ∷ is) h =
    let s : suffix name at ≡ some (drop at name) = ground (arith, h.0) in
    let (zs, e, d, k) = collect_total now m name last is h.1 in
    elim (Option-cases (lookup (drop at name) m)) [
      | inl absent ↦ (zs, rw (s, absent, collect) e, d, k)
      | inr (z, found) ↦
          let (zs', e', d', k') = collect_total now m name (some z) is h.1 in
          elim (Bool-cases (z.expired now)) [
            | inl x ↦ (zs, rw (s, found, x, collect) e, d, k)
            | inr x ↦ elim (Bool-cases (misaligned last z)) [
              | inl w ↦ ([], rw (s, found, collect) (simp (x, w) refl), tt, tt)
              | inr w ↦ (
                z ∷ zs',
                rw (s, found, collect) (simp (x, w, e') refl),
                (w, d'),
                (((at, found), x), k'),
              )
            ]
          ]
    ]

module _ (dns : Dns) where
  -- A zone that was added is found under its name until it expires, whatever was there before, and
  -- the lookups of other names, as canonical names, are not changed.
  pub get-add :
      (now : ℕ) (zones : Zones) (z : StoredZone) (name : Name)
      → get dns now (add dns zones z) name ≡ (
          if name_eq (dns.canonical_name z.name) (dns.canonical_name name)
          then (if z.expired now then none else some z)
          else get dns now zones name)
  unfolding get add insert lookup
  get-add now none z name =
      ground (arith, lookup-insert (dns.canonical_name z.name) (dns.canonical_name name) z [])
  get-add now (some m) z name =
      rw (lookup-insert (dns.canonical_name z.name) (dns.canonical_name name) z m) (ground arith)

  -- `getZoneList` returns, where the labels start within the name, a chain of zones that are known
  -- and not expired at the time, the most specific one first, of which each has the next one as its parent.
  pub get_zone_list-Linked :
      (now : ℕ) (m : List (Name × StoredZone)) (name : Name)
      → All (λ i. i ≤ length (dns.canonical_name name)) (label_starts dns (dns.canonical_name name))
      → (zs : List StoredZone) × (get_zone_list dns now (some m) name ≡ some zs)
        × Linked zs
        × All (Known now m (dns.canonical_name name)) zs
  unfolding get_zone_list
  get_zone_list-Linked now m name h =
      let n = dns.canonical_name name in
      let (zs, e, d, k) = collect_total now m n none (label_starts dns n) h in
      (
        reverse zs,
        rw (e, get_zone_list),
        reverse-Linked zs d,
        reverse_aux-All (Known now m n) zs [] k tt,
      )
