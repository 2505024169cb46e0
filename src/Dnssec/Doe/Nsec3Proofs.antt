-- ===== src/Dnssec/Doe/Nsec3Proofs.antt =====
-- dnssec/doe/nsec3.go, with the type and the constructor of dnssec/doe/doe.go.
use resolver_lib.Prelude.{
  Bool, true, false, not, ◌&&◌, ◌||◌, List, [], ◌∷◌, ℕ, ◌-◌, ◌==◌, ltb, leb, if◌then◌else◌, Name,
  Option, none, some, drop, get_elem?, length, ◌>>=◌, select,
}
use resolver_lib.Dns.{Dns, Nsec3, sha1, type_dname, type_ns, type_soa}
use resolver_lib.Dnssec.Doe.BitMaps.{contains_any_of, contains}

pub record DenialOfExistenceNsec3 : Type 0 where
  pub zone : Name
  pub records : List Nsec3

-- Records with another hash, or with a flag beside opt-out, are ignored.
abbrev known_values : Nsec3 → Bool
known_values r = if not (r.hash == sha1) then false else if ltb 1 r.flags then false else true

unfoldable pub new_denial_of_existence_nsec3 : Name → List Nsec3 → DenialOfExistenceNsec3
new_denial_of_existence_nsec3 zone records = record {
  zone = zone;
  records = select known_values records;
}

abbrev pub empty : DenialOfExistenceNsec3 → Bool
empty doe = elim doe.records [ [] ↦ true | _ ∷ _ ↦ false ]

abbrev pub star : Name → Name
star name = b'*' ∷ b'.' ∷ name

-- A match decides at once; else a cover is remembered.
unfoldable pub scan_wildcard : Dns → Name → Bool → List Nsec3 → Bool
scan_wildcard dns wildcard proof [] = proof
scan_wildcard dns wildcard proof (r ∷ rr) =
    let rest = scan_wildcard dns wildcard (if dns.nsec3_cover r wildcard then true else proof) rr in
    if dns.nsec3_match r wildcard then false else rest

unfoldable pub scan_matched : Dns → Name → List Nsec3 → Bool
scan_matched dns wildcard [] = false
scan_matched dns wildcard (r ∷ rr) =
    if dns.nsec3_match r wildcard then true else scan_matched dns wildcard rr

-- The results are `optedOut` and `nextCloserNameProof`.
unfoldable pub scan_next_closer : Dns → Name → Bool → Bool → List Nsec3 → Bool × Bool
scan_next_closer dns name opted_out proof [] = (opted_out, proof)
scan_next_closer dns name opted_out proof (r ∷ rr) =
    let covered = scan_next_closer dns name (opted_out || (r.flags == 1)) true rr in
    let other = scan_next_closer dns name opted_out proof rr in
    if dns.nsec3_match r name
    then (false, false)
    else if dns.nsec3_cover r name
    then covered
    else other

pub record ProofPair : Type 0 where
  pub ce : Name
  pub ncn : Name

-- The DNAME bit is clear, and NS is set only beside SOA.
abbrev pub eligible : Nsec3 → Bool
eligible r =
    if contains r.type_bit_map type_dname
    then false
    else if contains r.type_bit_map type_ns && not (contains r.type_bit_map type_soa)
    then false
    else true

-- The inner loop: the ancestors of the name, longest first, until one leaves the zone or is the
-- record's owner. A record that is not eligible leaves `last` as it was.
unfoldable pub scan_ancestors : Dns → Name → Name → Nsec3 → ℕ → List ℕ → Option ProofPair
scan_ancestors dns zone qname r last [] = none
scan_ancestors dns zone qname r last (i ∷ is) =
    let skip = scan_ancestors dns zone qname r last is in
    let on = scan_ancestors dns zone qname r i is in
    if not (dns.is_sub_domain zone (drop i qname))
    then none
    else if dns.nsec3_match r (drop i qname)
    then (if eligible r then some (record { ce = drop i qname; ncn = drop last qname }) else skip)
    else on

unfoldable pub contenders : Dns → Name → Name → List Nsec3 → List ProofPair
unfolding scan_ancestors
contenders dns zone qname [] = []
contenders dns zone qname (r ∷ rr) =
    let rest = contenders dns zone qname rr in
    elim (scan_ancestors dns zone qname r 0 (dns.split qname)) [ none ↦ rest | some p ↦ p ∷ rest ]

-- The first of the longest.
unfoldable pub longest : ProofPair → List ProofPair → ProofPair
longest best [] = best
longest best (p ∷ ps) = longest (if ltb (length best.ce) (length p.ce) then p else best) ps

module _ (dns : Dns) (doe : DenialOfExistenceNsec3) where
  unfoldable pub find_closest_encloser : Name → Name × Name × Bool
  unfolding contenders longest
  find_closest_encloser qname = elim (contenders dns doe.zone qname doe.records) [
    | [] ↦ ([], [], false)
    | p ∷ ps ↦ let best = longest p ps in (best.ce, best.ncn, true)
  ]

  unfoldable pub verify_wildcard_covered : Name → Bool
  unfolding scan_wildcard
  verify_wildcard_covered closest_encloser =
      scan_wildcard dns (star closest_encloser) false doe.records

  unfoldable pub verify_wildcard_matched : Name → Bool
  unfolding scan_matched
  verify_wildcard_matched closest_encloser = scan_matched dns (star closest_encloser) doe.records

  unfoldable pub verify_next_closer_name_covered : Name → Bool × Bool
  unfolding scan_next_closer
  verify_next_closer_name_covered name = scan_next_closer dns name false false doe.records

  -- The results are `optedOut`, `closestEncloserProof`, `nextCloserNameProof`, `wildcardProof`.
  unfoldable pub perform_closest_encloser_proof : Name → Bool × Bool × Bool × Bool
  unfolding find_closest_encloser verify_wildcard_covered verify_next_closer_name_covered
  perform_closest_encloser_proof name =
      if empty doe
      then (false, false, false, false)
      else (let (ce, ncn, found) = find_closest_encloser name in
          if not found
          then (false, false, false, false)
          else (let (opted_out, next_closer) = verify_next_closer_name_covered ncn in
              (opted_out, true, next_closer, verify_wildcard_covered ce)))

  -- `none` where an index is out of range: the labels field is 0, or not below the label count.
  unfoldable pub perform_expanded_wildcard_proof : Name → ℕ → Option Bool
  unfolding verify_wildcard_covered verify_wildcard_matched verify_next_closer_name_covered
  perform_expanded_wildcard_proof name labels = do
    let indexes = dns.split name
    let index = length indexes - labels
    at ← if leb labels (length indexes) then get_elem? indexes index else none
    above ← if index == 0 then none else get_elem? indexes (index - 1)
    let wildcard_proof =
        verify_wildcard_covered (drop at name) || verify_wildcard_matched (drop at name)
    some (not wildcard_proof && (verify_next_closer_name_covered (drop above name)).1)

  unfoldable pub type_bit_map_contains_any_of : Name → List ℕ → Bool × Bool
  unfolding contains_any_of
  type_bit_map_contains_any_of name types =
      contains_any_of (λ r. dns.nsec3_match r name) (λ r. r.type_bit_map) types false doe.records
