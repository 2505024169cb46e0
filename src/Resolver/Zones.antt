-- ===== src/Resolver/Zones.antt =====
-- zones.go: the store of the zones that are known, by canonical name. The lock is left out: each
-- access is one step. `none` for a result is a slice out of range.
pub mod Chain
use mathlib.Core.List.{reverse}
use resolver_lib.Prelude.{
  ℕ, Bool, true, false, not, List, [], ◌∷◌, Option, none, some, if◌then◌else◌, ◌>>=◌, Name, name_eq,
  length, lookup, insert, name_key,
}
use resolver_lib.Dns.{Dns}
use resolver_lib.Resolver.Domain.{suffix, label_starts}

-- What the store asks of the interface `zone`; `expired` is what the method returns at each time.
pub record StoredZone : Type 0 where
  pub name : Name
  pub parent : Name
  pub expired : ℕ → Bool

-- The map, which is nil before the first zone is added.
abbrev pub Zones : Type 0
Zones = Option (List (Name × StoredZone))

-- The zone's parent is not the zone that was found last.
abbrev pub misaligned : Option StoredZone → StoredZone → Bool
misaligned none z = false
misaligned (some last) z = not (name_eq z.parent last.name)

-- The loop of `getZoneList` at a time: unknown and expired zones are skipped, and it stops where the chain of
-- parents breaks.
unfoldable pub collect :
    ℕ → List (Name × StoredZone) → Name → Option StoredZone → List ℕ → Option (List StoredZone)
unfolding suffix lookup
collect now m name last [] = some []
collect now m name last (at ∷ rest) =
    let skip = collect now m name last rest in
    elim (suffix name at) as (λ _. Option (List StoredZone)) [
      | none ↦ none
      | some zname ↦ elim (lookup zname m) as (λ _. Option (List StoredZone)) [
        | none ↦ skip
        | some z ↦
            let take = collect now m name (some z) rest >>= λ zs. some (z ∷ zs) in
            if z.expired now then skip else if misaligned last z then some [] else take
      ]
    ]

unfoldable pub get_zone_list : Dns → ℕ → Zones → Name → Option (List StoredZone)
unfolding collect
get_zone_list dns now none name = some []
get_zone_list dns now (some m) name =
    let name' = dns.canonical_name name in
    collect now m name' none (label_starts dns name') >>= λ zs. some (reverse zs)

abbrev unexpired : ℕ → StoredZone → Option StoredZone
unexpired now z = if z.expired now then none else some z

unfoldable pub get : Dns → ℕ → Zones → Name → Option StoredZone
unfolding lookup
get dns now none name = none
get dns now (some m) name = lookup (dns.canonical_name name) m >>= unexpired now

unfoldable pub add : Dns → Zones → StoredZone → Zones
unfolding insert
add dns none z = some (insert (dns.canonical_name z.name) z [])
add dns (some m) z = some (insert (dns.canonical_name z.name) z m)

unfoldable pub count : Zones → ℕ
count none = 0
count (some m) = length m
