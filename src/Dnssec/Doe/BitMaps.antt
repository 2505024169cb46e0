-- ===== src/Dnssec/Doe/BitMaps.antt =====
-- The loop of the two methods `TypeBitMapContainsAnyOf` of dnssec/doe/nsec.go and nsec3.go: over
-- the records that match a name, is one of some types in a bit map?
use resolver_lib.Prelude.{
  ℕ, ◌==◌, ◌≡◌, refl, Bool, true, false, not, ◌&&◌, ◌||◌, List, [], ◌∷◌, if◌then◌else◌, any, arith,
}

-- `slices.Contains`.
abbrev pub contains : List ℕ → ℕ → Bool
contains xs t = any (λ x. x == t) xs

module _ {T : Type 0} (matches : T → Bool) (bit_map : T → List ℕ) where
  unfoldable pub contains_any_of : List ℕ → Bool → List T → Bool × Bool
  contains_any_of types name_seen [] = (name_seen, false)
  contains_any_of types name_seen (r ∷ records) =
      let skip = contains_any_of types name_seen records in
      let on = contains_any_of types true records in
      if not (matches r)
      then skip
      else if any (λ t. contains (bit_map r) t) types
      then (true, true)
      else on

  seen_flags :
      (types : List ℕ) (seen : Bool) (records : List T)
      → ((contains_any_of types seen records).1
          ≡ any (λ r. matches r && any (λ t. contains (bit_map r) t) types) records)
        × ((contains_any_of types seen records).0 ≡ (seen || any matches records))
  unfolding contains_any_of
  seen_flags types true [] = (refl, refl)
  seen_flags types false [] = (refl, refl)
  seen_flags types true (r ∷ records) = ground (arith, seen_flags types true records)
  seen_flags types false (r ∷ records) =
      ground (arith, seen_flags types true records, seen_flags types false records)

  -- The flags say: some record matches, and some matching record lists one of the types.
  pub contains_any_of_lem :
      (types : List ℕ) (records : List T)
      → ((contains_any_of types false records).1
          ≡ any (λ r. matches r && any (λ t. contains (bit_map r) t) types) records)
        × ((contains_any_of types false records).0 ≡ any matches records)
  contains_any_of_lem types records = seen_flags types false records
