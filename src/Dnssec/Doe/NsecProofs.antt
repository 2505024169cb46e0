-- ===== src/Dnssec/Doe/NsecProofs.antt =====
-- dnssec/doe/nsec.go, with the type of dnssec/doe/doe.go.
use resolver_lib.Prelude.{
  Bool, true, false, not, ◌&&◌, ◌||◌, List, [], ◌∷◌, ℕ, if◌then◌else◌, name_eq, Name,
}
use resolver_lib.Dns.{Dns, Nsec}
use resolver_lib.Dnssec.Doe.Names.{wildcard_name, before}
use resolver_lib.Dnssec.Doe.BitMaps.{contains_any_of}

pub record DenialOfExistenceNsec : Type 0 where
  pub zone : Name
  pub records : List Nsec

abbrev pub empty : DenialOfExistenceNsec → Bool
empty doe = elim doe.records [ [] ↦ true | _ ∷ _ ↦ false ]

-- `name` lies after the owner of the record, and before its next name or in the last gap of the zone.
unfoldable pub covers : Dns → Name → Name → Nsec → Bool
covers dns zone name r =
    before dns r.header.name name
    && (name_eq (dns.canonical_name r.next_domain) zone || before dns name r.next_domain)

unfoldable pub covered : Dns → Name → Name → List Nsec → Bool
covered dns zone name [] = false
covered dns zone name (r ∷ rr) = if covers dns zone name r then true else covered dns zone name rr

module _ (dns : Dns) (doe : DenialOfExistenceNsec) where
  unfoldable pub verify_qname_covered : Name → Bool
  unfolding covered covers
  verify_qname_covered qname = covered dns doe.zone (dns.canonical_name qname) doe.records

  unfoldable pub verify_wildcard_covered : Name → Bool
  unfolding covered covers
  verify_wildcard_covered qname =
      covered dns doe.zone (wildcard_name dns (dns.canonical_name qname)) doe.records

  unfoldable pub perform_qname_does_not_exist_proof : Name → Bool
  unfolding verify_qname_covered verify_wildcard_covered
  perform_qname_does_not_exist_proof qname =
      not (empty doe) && (verify_qname_covered qname && verify_wildcard_covered qname)

  unfoldable pub perform_expanded_wildcard_proof : Name → Bool
  unfolding verify_qname_covered verify_wildcard_covered
  perform_expanded_wildcard_proof qname =
      not (empty doe) && (verify_qname_covered qname && not (verify_wildcard_covered qname))

  unfoldable pub type_bit_map_contains_any_of : Name → List ℕ → Bool × Bool
  unfolding contains_any_of
  type_bit_map_contains_any_of name types =
      contains_any_of (λ r. name_eq name (dns.canonical_name r.header.name)) (λ r. r.type_bit_map)
        types false doe.records
