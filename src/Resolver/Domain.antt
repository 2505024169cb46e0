-- ===== src/Resolver/Domain.antt =====
-- domain.go: the labels of a name, walked from the root down. `none` is a slice out of range.
pub mod Walk
use mathlib.Core.List.{reverse}
use resolver_lib.Prelude.{
  ℕ, zero, suc, ◌+◌, ◌-◌, leb, Bool, not, List, [], ◌∷◌, ◌++◌, Option, none, some, if◌then◌else◌,
  ◌>>=◌, Name, name_eq, get_elem?, length, drop,
}
use resolver_lib.Dns.{Dns}

-- `name[i:]`.
unfoldable pub suffix : Name → ℕ → Option Name
suffix name i = if leb i (length name) then some (drop i name) else none

-- The positions at which the labels of a canonical name start, that of the root first. A canonical
-- name ends in a dot, so it is not empty.
unfoldable pub label_starts : Dns → Name → List ℕ
label_starts dns name = reverse (dns.split name ++ (length name - 1) ∷ [])

pub record Domain : Type 0 where
  pub name : Name
  pub label_indexes : List ℕ
  pub current_idx : ℕ

-- The two errors of `windTo`.
pub data WindError : Type 0 where
  not_a_subdomain target_not_found : WindError

unfoldable pub new_domain : Dns → Name → Domain
unfolding label_starts
new_domain dns d = record {
  name = dns.canonical_name d;
  label_indexes = label_starts dns (dns.canonical_name d);
  current_idx = 0;
}

unfoldable pub current : Domain → Option Name
unfolding suffix
current d = elim (get_elem? d.label_indexes d.current_idx) [
  | none ↦ some d.name
  | some i ↦ suffix d.name i
]

abbrev pub next : Domain → Domain
next d = record d { current_idx = d.current_idx + 1 }

abbrev pub more : Domain → Bool
more d = leb d.current_idx (length d.label_indexes)

abbrev pub last : Domain → Bool
last d = leb (length d.label_indexes - 1) d.current_idx

-- The loop of `windTo`, of at most as many rounds as the first argument says.
unfoldable pub wind : ℕ → Domain → Name → Option (Domain × Option WindError)
unfolding current
wind zero d target = some (d, some target_not_found)
wind (suc n) d target =
    let rest = wind n (next d) target in
    let round = current d >>= λ c. (if name_eq c target then some (d, none) else rest) in
    if more d then round else some (d, some target_not_found)

unfoldable pub wind_to : Dns → Domain → Name → Option (Domain × Option WindError)
unfolding wind
wind_to dns d target =
    let target' = dns.canonical_name target in
    if not (dns.is_sub_domain target' d.name)
    then some (d, some not_a_subdomain)
    else wind (length d.label_indexes + 1 - d.current_idx) d target'

-- The loop of `gap`: the names at so many positions from one on.
unfoldable pub names_from : Domain → ℕ → ℕ → Option (List Name)
unfolding suffix
names_from d i zero = some []
names_from d i (suc n) = do
  at ← get_elem? d.label_indexes i
  s ← suffix d.name at
  rest ← names_from d (i + 1) n
  some (s ∷ rest)

unfoldable pub gap : Dns → Domain → Name → Option (List Name)
unfolding names_from
gap dns d target =
    if not (dns.is_sub_domain target d.name)
    then some []
    else current d >>= λ c.
        (if leb (dns.count_label target) (dns.count_label c)
          then some []
          else names_from d d.current_idx (dns.count_label target - dns.count_label c))
