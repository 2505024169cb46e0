-- ===== src/Tests/Denials.antt =====
-- The theorems on denial of existence at concrete inputs.
use resolver_lib.Prelude.{
  ℕ, ◌≤◌, ◌≡◌, refl, ◌≢◌, ◌↔◌, ◌⊎◌, inl, inr, true, false, [], ◌∷◌, none, some, length, In, Name,
}
use resolver_lib.Dns.{Nsec, Nsec3}
use resolver_lib.Dnssec.Doe.Names.{before, wildcard_name, canonical_cmp, decode_label}
use resolver_lib.Dnssec.Doe.Order.{sort_key, before_order}
use resolver_lib.Dnssec.Doe.NsecProofs.{DenialOfExistenceNsec}
use resolver_lib.Dnssec.Doe.NsecProofs
use resolver_lib.Dnssec.Doe.NsecCovers.{
  IsCovered, Gap, perform_qname_does_not_exist_proof_iff, perform_expanded_wildcard_proof_iff,
}
use resolver_lib.Dnssec.Doe.Nsec3Proofs.{
  DenialOfExistenceNsec3, star, find_closest_encloser, scan_ancestors, ProofPair,
}
use resolver_lib.Dnssec.Doe.Nsec3Proofs
use resolver_lib.Dnssec.Doe.Nsec3Covers.{perform_expanded_wildcard_proof_panics}
use resolver_lib.Dnssec.Doe.Encloser.{Vouches, find_closest_encloser_sound}
use resolver_lib.Tests.World.{codes, world, root, header_of}

abbrev gap : Nsec
gap = record { header = header_of (codes "a.") 47; next_domain = codes "z."; type_bit_map = [] }

abbrev denials : DenialOfExistenceNsec
denials = record { zone = root; records = gap ∷ [] }

abbrev middle : Name
middle = codes "m."

before_order_example :
    (before world (codes "a.") middle ≡ true
      → before world middle (codes "z.") ≡ true
      → before world (codes "a.") (codes "z.") ≡ true)
    × (before world (codes "a.") middle ≡ true → before world middle (codes "a.") ≡ false)
    × (sort_key world (codes "a.") ≢ sort_key world middle
        → before world (codes "a.") middle ≡ false
        → before world middle (codes "a.") ≡ true)
    × (before world (codes "a.") (codes "a.") ≡ false)
before_order_example = before_order world (codes "a.") middle (codes "z.")

perform_qname_does_not_exist_proof_iff_example :
    (NsecProofs.perform_qname_does_not_exist_proof world denials middle ≡ true)
    ↔ (IsCovered world denials middle × IsCovered world denials (wildcard_name world middle))
perform_qname_does_not_exist_proof_iff_example =
    perform_qname_does_not_exist_proof_iff world denials middle

perform_expanded_wildcard_proof_iff_example :
    (NsecProofs.perform_expanded_wildcard_proof world denials middle ≡ true)
    ↔ (IsCovered world denials middle × (¬ IsCovered world denials (wildcard_name world middle)))
perform_expanded_wildcard_proof_iff_example =
    perform_expanded_wildcard_proof_iff world denials middle

middle_in_gap : Gap world root middle gap
unfolding canonical_cmp decode_label
middle_in_gap = (refl, inr refl)

abbrev encloser : Nsec3
encloser = record {
  header = header_of (codes "b.") 50;
  hash = 1;
  flags = 1;
  iterations = 0;
  salt = [];
  next_domain = codes "d.";
  type_bit_map = [];
}

abbrev hashed : DenialOfExistenceNsec3
hashed = record { zone = root; records = encloser ∷ [] }

abbrev below : Name
below = codes "c.b."

perform_expanded_wildcard_proof_panics_example :
    (Nsec3Proofs.perform_expanded_wildcard_proof world hashed below 0 ≡ none)
    ↔ (◌≡◌ {A = ℕ} 0 0 ⊎ (length (world.split below) ≤ 0))
perform_expanded_wildcard_proof_panics_example =
    perform_expanded_wildcard_proof_panics world hashed below 0

-- A wildcard at the root expands with a labels field of 0.
root_wildcard_panics : Nsec3Proofs.perform_expanded_wildcard_proof world hashed middle 0 ≡ none
root_wildcard_panics = (perform_expanded_wildcard_proof_panics world hashed middle 0).1 (inl refl)

find_closest_encloser_sound_example :
    ((r : Nsec3) × In r (encloser ∷ [])
      × Vouches world root below r (find_closest_encloser world hashed below).0)
    × ((r : Nsec3) (p : ProofPair)
        → In r (encloser ∷ [])
        → scan_ancestors world root below r 0 (world.split below) ≡ some p
        → length p.ce ≤ length (find_closest_encloser world hashed below).0)
unfolding find_closest_encloser
find_closest_encloser_sound_example = find_closest_encloser_sound world hashed below refl
