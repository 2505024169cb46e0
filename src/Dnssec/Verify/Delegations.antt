-- ===== src/Dnssec/Verify/Delegations.antt =====
-- Where DS records that are extracted from the signatures of dnssec/signatures.go come from.
use resolver_lib.Prelude.{
  ==_iff, ◌≡◌, refl, ◌⊎◌, inl, inr, true, List, [], ◌∷◌, ◌++◌, some, none, Bool, ◌∙◌, In, In-select,
  In-append_right, In-append_cases, In-append_left, subst, sym,
}
use resolver_lib.Dns.{
  Rr, Ds, rrsig, dnskey, ds, nsec, nsec3, ns, cname, a, aaaa, soa, opt, other, type_ds,
}
use resolver_lib.Dnssec.Records.{extract_records, as_ds, In-extract_records}
use resolver_lib.Dnssec.Signatures.{
  Signature, extract_from, extract_ds_records, filter_on_type, verify_signatures,
}
use resolver_lib.Dnssec.Signatures.Verdicts.{verify_signatures-vouched}

as_ds-some : (r : Rr) (d : Ds) → as_ds r ≡ some d → ds d ≡ r
as_ds-some (rrsig x) d h = cc
as_ds-some (dnskey x) d h = cc
as_ds-some (ds x) d h = cc
as_ds-some (nsec x) d h = cc
as_ds-some (nsec3 x) d h = cc
as_ds-some (ns x) d h = cc
as_ds-some (cname x) d h = cc
as_ds-some (a x) d h = cc
as_ds-some (aaaa x) d h = cc
as_ds-some (soa x) d h = cc
as_ds-some (opt x) d h = cc
as_ds-some (other x) d h = cc

In-extract_from :
    (d : Ds) (ss : List Signature)
    → In d (extract_from as_ds ss)
    → (s : Signature) × In s ss × In (ds d) s.rrset
unfolding extract_from
In-extract_from d [] m = absurd m
In-extract_from d (s ∷ ss) m = elim (In-append_cases d (extract_records as_ds s.rrset) _ m) [
  | inl k ↦
      let (r, i, e) = In-extract_records as_ds d s.rrset k in
      (s, inl refl, subst (λ x. In x s.rrset) (sym (as_ds-some r d e)) i)
  | inr k ↦ let (t, i, e) = In-extract_from d ss k in (t, inr i, e)
]

-- A DS record is in the record set of a signature of the list over DS records, and some signature of
-- the list over DS records has been verified.
abbrev pub IsSigned : List Signature → Ds → Type 0
IsSigned ss d =
    ((s : Signature) × In s ss × (s.rtype ≡ type_ds) × In (ds d) s.rrset)
    × ((v : Signature) × In v ss × (v.rtype ≡ type_ds) × (v.verified ≡ true))

In-extract_ds_records :
    (d : Ds) (ss : List Signature)
    → In d (extract_ds_records ss)
    → (s : Signature) × In s ss × (s.rtype ≡ type_ds) × In (ds d) s.rrset
unfolding extract_ds_records filter_on_type
In-extract_ds_records d ss m =
    let (s, i, e) = In-extract_from d (filter_on_type ss type_ds) m in
    let (j, t) = In-select _ s ss i in (s, j, (==_iff s.rtype type_ds).0 t, e)

-- The DS records of either part of a signature set that the policy accepts are signed.
pub extracted-IsSigned :
    (require_all : Bool) (d : Ds) (answer authority : List Signature)
    → verify_signatures require_all (answer ++ authority) ≡ none
    → In d (extract_ds_records authority) ⊎ In d (extract_ds_records answer)
    → IsSigned (answer ++ authority) d
extracted-IsSigned require_all d answer authority h m =
    let (s, i, t, e) = found m in
    let (v, j, same, ok) = (verify_signatures-vouched require_all (answer ++ authority) h).1 s i in
    ((s, i, t, e), (v, j, same ∙ t, ok))
  where
    found :
        In d (extract_ds_records authority) ⊎ In d (extract_ds_records answer)
        → (s : Signature) × In s (answer ++ authority) × (s.rtype ≡ type_ds) × In (ds d) s.rrset
    found (inl k) =
        let (s, i, t, e) = In-extract_ds_records d authority k in
        (s, In-append_right s answer authority i, t, e)
    found (inr k) =
        let (s, i, t, e) = In-extract_ds_records d answer k in
        (s, In-append_left s answer authority i, t, e)
