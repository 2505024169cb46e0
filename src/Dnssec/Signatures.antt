-- ===== src/Dnssec/Signatures.antt =====
-- dnssec/signatures.go and the type of a signature of dnssec/types.go.
pub mod Verdicts
use resolver_lib.Prelude.{
  ℕ, ◌==◌, Bool, true, false, not, ◌&&◌, ◌||◌, List, [], ◌∷◌, ◌++◌, Option, none, some,
  if◌then◌else◌, Name, name_eq, select, any, length, lookup, insert, nat_key,
}
use resolver_lib.Dns.{
  Rr, Rrsig, Dnskey, Ds, Nsec, Nsec3, type_ds, type_nsec, type_nsec3, GoError, signature_set_empty,
  verify_failed, unable_to_verify, wrapped,
}
use resolver_lib.Dnssec.Records.{extract_records, as_ds, as_nsec, as_nsec3}

pub record Signature : Type 0 where
  pub zone : Name
  pub name : Name
  pub rtype : ℕ
  pub ttl : ℕ
  pub key : Option Dnskey
  pub rrsig : Rrsig
  pub rrset : List Rr
  pub wildcard : Bool
  pub verified : Bool
  pub err : Option GoError
  pub ds_sha256 : Option (List ℕ)

unfoldable pub filter_on_type : List Signature → ℕ → List Signature
filter_on_type ss rtype = select (λ s. s.rtype == rtype) ss

-- A set of names with types: a Go map with a struct as its key.
abbrev pub Combination : Type 0
Combination = Name × ℕ

abbrev same_combination : Combination → Combination → Bool
same_combination (n, t) (m, u) = name_eq n m && (t == u)

unfoldable pub add_combination : Combination → List Combination → List Combination
add_combination c set = if any (same_combination c) set then set else c ∷ set

combinations_of : List Signature → List Combination → List Combination
combinations_of [] set = set
combinations_of (s ∷ ss) set = combinations_of ss (add_combination (s.name, s.rtype) set)

unfoldable pub count_name_type_combinations : List Signature → ℕ
unfolding combinations_of add_combination
count_name_type_combinations ss = length (combinations_of ss [])

-- The error of a signature that is not verified, or the default.
abbrev error_or_default : Option GoError → GoError
error_or_default none = unable_to_verify
error_or_default (some e) = e

pub record RrsetState : Type 0 where
  pub verified_sig_seen : Bool
  pub err : Option GoError

abbrev add_error : Option GoError → Option GoError → Option GoError
add_error none e = some (error_or_default e)
add_error (some old) e = some (wrapped old (error_or_default e))

-- The new state of a signature's type, `none` where the map has no state for it yet.
abbrev update_state : Option RrsetState → Signature → RrsetState
update_state none s = record {
  verified_sig_seen = s.verified;
  err = if s.verified then none else add_error none s.err;
}
update_state (some st) s = record {
  verified_sig_seen = st.verified_sig_seen || s.verified;
  err = if s.verified then st.err else add_error st.err s.err;
}

-- The first loop: the states by type.
unfoldable pub collect_states : List (ℕ × RrsetState) → List Signature → List (ℕ × RrsetState)
collect_states states [] = states
collect_states states (s ∷ ss) =
    collect_states (insert s.rtype (update_state (lookup s.rtype states) s) states) ss

abbrev first_error : Option GoError → GoError
first_error none = verify_failed
first_error (some e) = e

-- The second loop: the types with no verified signature. The order of the types shows only in how
-- their errors are nested.
unfoldable pub report_states : Option GoError → List (ℕ × RrsetState) → Option GoError
report_states err [] = err
report_states err ((rtype, st) ∷ states) =
    report_states
      (if not st.verified_sig_seen
        then some (wrapped (first_error err) (error_or_default st.err))
        else err)
      states

unfoldable pub verify_one_or_more_rrsig_per_rrset : List Signature → Option GoError
unfolding collect_states report_states
verify_one_or_more_rrsig_per_rrset [] = some signature_set_empty
verify_one_or_more_rrsig_per_rrset (s ∷ []) =
    if s.verified then none else some (wrapped verify_failed (error_or_default s.err))
verify_one_or_more_rrsig_per_rrset (s ∷ s' ∷ ss) =
    report_states none (collect_states [] (s ∷ s' ∷ ss))

unfoldable pub wrap_unverified : Option GoError → List Signature → Option GoError
wrap_unverified err [] = err
wrap_unverified err (s ∷ ss) =
    wrap_unverified
      (if not s.verified then some (wrapped (first_error err) (error_or_default s.err)) else err) ss

unfoldable pub verify_all_rrsigs_per_rrset : List Signature → Option GoError
unfolding wrap_unverified
verify_all_rrsigs_per_rrset [] = some signature_set_empty
verify_all_rrsigs_per_rrset (s ∷ ss) = wrap_unverified none (s ∷ ss)

-- `Verify`; the argument is `RequireAllSignaturesValid`.
unfoldable pub verify_signatures : Bool → List Signature → Option GoError
verify_signatures require_all ss =
    if require_all then verify_all_rrsigs_per_rrset ss else verify_one_or_more_rrsig_per_rrset ss

unfoldable pub valid : Bool → List Signature → Bool
unfolding verify_signatures
valid require_all ss = elim (verify_signatures require_all ss) [ none ↦ true | some _ ↦ false ]

unfoldable pub extract_from : {T : Type 0} → (Rr → Option T) → List Signature → List T
extract_from as_t [] = []
extract_from as_t (s ∷ ss) = extract_records as_t s.rrset ++ extract_from as_t ss

unfoldable pub extract_ds_records : List Signature → List Ds
unfolding extract_from extract_records filter_on_type
extract_ds_records ss = extract_from as_ds (filter_on_type ss type_ds)

unfoldable pub extract_nsec_records : List Signature → List Nsec
unfolding extract_from extract_records filter_on_type
extract_nsec_records ss = extract_from as_nsec (filter_on_type ss type_nsec)

unfoldable pub extract_nsec3_records : List Signature → List Nsec3
unfolding extract_from extract_records filter_on_type
extract_nsec3_records ss = extract_from as_nsec3 (filter_on_type ss type_nsec3)
