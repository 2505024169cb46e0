-- ===== src/Dnssec/Records.antt =====
-- dnssec/functions.go: selecting records. `extractRecords[T]` is one function over the type
-- assertion `record.(T)`, which is an argument.
use resolver_lib.Prelude.{
  ℕ, ◌==◌, ◌≡◌, refl, Bool, true, false, not, ◌&&◌, List, [], ◌∷◌, Option, none, some,
  if◌then◌else◌, name_eq, Name, In, inl, inr, any, select, Option-cases, sym, ap, ◌∙◌,
}
use resolver_lib.Dns.{
  Rr, rrsig, dnskey, ds, nsec, nsec3, header, Rrsig, Dnskey, Ds, Nsec, Nsec3, Dns,
}

abbrev pub as_rrsig : Rr → Option Rrsig
as_rrsig (rrsig r) = some r
as_rrsig _ = none

abbrev pub as_dnskey : Rr → Option Dnskey
as_dnskey (dnskey r) = some r
as_dnskey _ = none

abbrev pub as_ds : Rr → Option Ds
as_ds (ds r) = some r
as_ds _ = none

abbrev pub as_nsec : Rr → Option Nsec
as_nsec (nsec r) = some r
as_nsec _ = none

abbrev pub as_nsec3 : Rr → Option Nsec3
as_nsec3 (nsec3 r) = some r
as_nsec3 _ = none

unfoldable pub extract_records : {T : Type 0} → (Rr → Option T) → List Rr → List T
extract_records as_t [] = []
extract_records as_t (record_ ∷ rr) =
    let rest = extract_records as_t rr in elim (as_t record_) [ some t ↦ t ∷ rest | none ↦ rest ]

abbrev has_type : ℕ → Rr → Bool
has_type t r = (header r).rrtype == t

abbrev has_name_and_type : Name → ℕ → Rr → Bool
has_name_and_type name t r = ((header r).rrtype == t) && name_eq (header r).name name

unfoldable pub extract_records_of_type : List Rr → ℕ → List Rr
extract_records_of_type rr t = select (has_type t) rr

unfoldable pub extract_records_of_name_and_type : List Rr → Name → ℕ → List Rr
extract_records_of_name_and_type rr name t = select (has_name_and_type name t) rr

unfoldable pub records_of_type_exist : List Rr → ℕ → Bool
records_of_type_exist rr t = any (has_type t) rr

same_owner : Name → List Rr → Bool
same_owner owner [] = true
same_owner owner (r ∷ rr) =
    if not (name_eq (header r).name owner) then false else same_owner owner rr

unfoldable pub records_have_the_same_owner : List Rr → Bool
unfolding same_owner
records_have_the_same_owner [] = true
records_have_the_same_owner (r ∷ rr) = same_owner (header r).name rr

unfoldable pub get_owner_name_from_set : List Rr → Name × Bool
get_owner_name_from_set [] = ([], false)
get_owner_name_from_set (r ∷ rr) = ((header r).name, true)

unfoldable pub names_equal : Dns → Name → Name → Bool
names_equal dns s1 s2 = name_eq (dns.canonical_name s1) (dns.canonical_name s2)

-- What a typed extraction returns stands in the list, and all of it is returned.
pub In-extract_records :
    {T : Type 0} (as_t : Rr → Option T) (t : T) (rr : List Rr)
    → In t (extract_records as_t rr)
    → (r : Rr) × In r rr × (as_t r ≡ some t)
unfolding extract_records
In-extract_records as_t t [] m = absurd m
In-extract_records as_t t (r ∷ rr) m = elim (Option-cases (as_t r)) [
  | inl e ↦ let k = In-extract_records as_t t rr (rw (e, In) at m) in (k.0, inr k.1, k.2)
  | inr (u, e) ↦ elim (rw (e, In) at m) as (λ _. (r' : Rr) × In r' (r ∷ rr) × (as_t r' ≡ some t)) [
    | inl q ↦ (r, inl refl, e ∙ ap some (sym q))
    | inr n ↦ let k = In-extract_records as_t t rr n in (k.0, inr k.1, k.2)
  ]
]
