-- ===== src/Dnssec/Doe/Names.antt =====
-- dnssec/doe/functions.go: wildcard names and the canonical order of names.
-- `Ordering` stands for the results -1, 0 and 1 of `canonicalCmp`.
use Prim.Native.Nat.{Ordering}
use mathlib.Core.List.{reverse}
use resolver_lib.Prelude.{
  ℕ, ◌+◌, ◌-◌, ◌*◌, ◌/◌, ◌%◌, ◌==◌, ltb, leb, Bool, true, false, not, ◌&&◌, List, [], ◌∷◌, ◌++◌,
  if◌then◌else◌, name_eq, Name, drop, any,
}
use resolver_lib.Dns.{Dns}

-- `*.` before what follows the first label; the index is one that `dns.Split` returned.
unfoldable pub wildcard_name : Dns → Name → Name
wildcard_name dns name = elim (dns.split name) [
  | [] ↦ b'*' ∷ b'.' ∷ []
  | _ ∷ [] ↦ b'*' ∷ b'.' ∷ []
  | _ ∷ i ∷ _ ↦ b'*' ∷ b'.' ∷ drop i name
]

canonical_is_digit : ℕ → Bool
canonical_is_digit b = leb b'0' b && leb b b'9'

-- `string(rune(n))`: UTF-8, at the values below 2048 that the code reaches.
abbrev rune_string : ℕ → Name
rune_string n = if ltb n 128 then n ∷ [] else (192 + n / 64) ∷ (128 + n % 64) ∷ []

-- `strconv.Atoi` on three digits, which cannot fail.
abbrev octet_value : ℕ → ℕ → ℕ → ℕ
octet_value x y z = (x - b'0') * 100 + (y - b'0') * 10 + (z - b'0')

-- The byte 92 is the backslash.
unfoldable pub canonical_decode_escaped : Name → Name
unfolding canonical_is_digit
canonical_decode_escaped [] = []
canonical_decode_escaped (b ∷ []) = rune_string b
canonical_decode_escaped (b ∷ x ∷ []) = rune_string b ++ rune_string x
canonical_decode_escaped (b ∷ x ∷ y ∷ []) = rune_string b ++ (rune_string x ++ rune_string y)
canonical_decode_escaped (b ∷ x ∷ y ∷ z ∷ rest) =
    let escaped = rune_string (octet_value x y z) ++ canonical_decode_escaped rest in
    let plain = rune_string b ++ canonical_decode_escaped (x ∷ y ∷ z ∷ rest) in
    if (b == 92) && (canonical_is_digit x && (canonical_is_digit y && canonical_is_digit z))
    then escaped
    else plain

-- Go's `<` on strings: bytes, lexicographically.
abbrev pub name_lt : Name → Name → Bool
name_lt [] [] = false
name_lt [] (y ∷ ys) = true
name_lt (x ∷ xs) [] = false
name_lt (x ∷ xs) (y ∷ ys) = if x == y then name_lt xs ys else ltb x y

unfoldable pub decode_label : Name → Name
decode_label label = if any (λ b. b == 92) label then canonical_decode_escaped label else label

-- The loop over the labels from the last to the first, and the comparison of the counts after it.
unfoldable pub compare_labels : List Name → List Name → Ordering
compare_labels [] [] = Ordering.eq
compare_labels [] (b ∷ bs) = Ordering.lt
compare_labels (a ∷ as_) [] = Ordering.gt
compare_labels (a ∷ as_) (b ∷ bs) =
    let rest = compare_labels as_ bs in
    if not (name_eq (decode_label a) (decode_label b))
    then (if name_lt (decode_label a) (decode_label b) then Ordering.lt else Ordering.gt)
    else rest

unfoldable pub labels_from_root : Dns → Name → List Name
labels_from_root dns name = reverse (dns.split_domain_name (dns.canonical_name name))

unfoldable pub canonical_cmp : Dns → Name → Name → Ordering
unfolding compare_labels labels_from_root
canonical_cmp dns a b = compare_labels (labels_from_root dns a) (labels_from_root dns b)

-- `canonicalCmp(a, b) < 0`.
abbrev pub is_lt : Ordering → Bool
is_lt Ordering.lt = true
is_lt _ = false

abbrev pub before : Dns → Name → Name → Bool
before dns a b = is_lt (canonical_cmp dns a b)
