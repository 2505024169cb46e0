-- ===== src/Dnssec/Authenticate.antt =====
-- dnssec/authenticate_rrset.go: the signatures of a section, each checked against the zone's keys.
pub mod Soundness
pub mod Ttl
use Prim.Native.Nat.{min}
use mathlib.Core.Option
use resolver_lib.Prelude.{
  ℕ, ◌+◌, ◌-◌, ◌*◌, ◌/◌, ◌%◌, ◌^◌, ◌==◌, ltb, leb, Bool, true, false, not, ◌&&◌, List, [], ◌∷◌, map,
  Option, none, some, if◌then◌else◌, Name, name_eq, length,
}
use resolver_lib.Dns.{
  Rr, header, Rrsig, Dnskey, Ds, Dns, GoError, wrapped, auth_signer_name_mismatch,
  invalid_label_count, invalid_time, invalid_signature, no_key_found_for_signature,
  unexpected_signature_count, type_rrsig, type_ns, sha256,
}
use resolver_lib.Dnssec.Env.{Env}
use resolver_lib.Dnssec.Records.{extract_records, extract_records_of_name_and_type, as_rrsig}
use resolver_lib.Dnssec.Signatures.{
  Signature, Combination, add_combination, filter_on_type, count_name_type_combinations,
}

-- `const year68 = 1 << 31`.
abbrev pub year68 : ℕ
year68 = 2 ^ 31

-- `delta`: the seconds to the expiration as a `uint32`. The 64-bit difference and its quotient have
-- the sign of `expiration - utc`; Go's division truncates towards 0, and the conversion wraps.
unfoldable pub time_left : ℕ → ℕ → ℕ
time_left expiration utc =
    if leb utc expiration
    then (expiration - utc + (expiration - utc) / year68 * year68) % 2 ^ 32
    else (2 ^ 32 - (utc - expiration + (utc - expiration) / year68 * year68) % 2 ^ 32) % 2 ^ 32

-- The lowest of a bound and the TTLs of the records.
unfoldable pub lowest_ttl : ℕ → List Rr → ℕ
lowest_ttl ttl [] = ttl
lowest_ttl ttl (r ∷ rr) = lowest_ttl (min ttl (header r).ttl) rr

-- The condition under which a key is tried for a signature.
unfoldable pub key_matches : Dns → Rrsig → Dnskey → Bool
key_matches dns rrsig key =
    (key.algorithm == rrsig.algorithm)
    && ((dns.key_tag key == rrsig.key_tag)
        && name_eq (dns.canonical_name key.header.name) (dns.canonical_name rrsig.signer_name))

-- The loop over the keys: each that matches is tried, until one verifies the signature. The library
-- supports SHA-256, so that `ToDS` is not nil for it.
unfoldable pub try_keys : Dns → Signature → List Dnskey → Signature
try_keys dns sig [] = sig
try_keys dns sig (key ∷ keys) =
    let skip = try_keys dns sig keys in
    let attempt : Signature = elim (dns.verify sig.rrsig key sig.rrset) [
      | some e ↦ try_keys dns (record sig { err = some (wrapped invalid_signature e) }) keys
      | none ↦ record sig {
        err = none;
        key = some key;
        verified = true;
        ds_sha256 = Option.map (λ (d : Ds). d.digest) (dns.to_ds key sha256);
      }
    ] in
    if key_matches dns sig.rrsig key then attempt else skip

abbrev pub no_key_left : Signature → Signature
no_key_left sig =
    if sig.verified
    then sig
    else elim sig.err [ some _ ↦ sig | none ↦ record sig { err = some no_key_found_for_signature } ]

module _ (env : Env) where
  open env use {dns, now}

  -- A signature before any check; the zone's name is canonical.
  abbrev pub new_signature : Name → List Rr → Rrsig → Signature
  new_signature zone rrsets rrsig = record {
    zone = zone;
    name = rrsig.header.name;
    rtype = rrsig.type_covered;
    ttl = min rrsig.header.ttl rrsig.orig_ttl;
    key = none;
    rrsig = rrsig;
    rrset = extract_records_of_name_and_type rrsets rrsig.header.name rrsig.type_covered;
    wildcard = false;
    verified = false;
    err = none;
    ds_sha256 = none;
  }

  -- The signature that the keys are tried on.
  unfoldable pub limit_signature : Signature → Signature
  limit_signature sig = record sig {
    wildcard = ltb sig.rrsig.labels (dns.count_label sig.rrsig.header.name);
    ttl = lowest_ttl (min sig.ttl (time_left sig.rrsig.expiration now)) sig.rrset;
  }

  unfoldable pub check_signature : List Dnskey → Signature → Signature
  unfolding limit_signature try_keys
  check_signature dnskeys sig =
      if not (name_eq (dns.canonical_name sig.zone) (dns.canonical_name sig.rrsig.signer_name))
      then record sig { err = some auth_signer_name_mismatch }
      else if ltb (dns.count_label sig.rrsig.header.name) sig.rrsig.labels
      then record sig { err = some invalid_label_count }
      else if not (dns.validity_period sig.rrsig now)
      then record sig { err = some invalid_time }
      else no_key_left (try_keys dns (limit_signature sig) dnskeys)

  unfoldable pub signatures_of : Name → List Rr → List Dnskey → List Signature
  unfolding check_signature
  signatures_of zone rrsets dnskeys =
      map (λ rrsig. check_signature dnskeys (new_signature zone rrsets rrsig))
        (extract_records as_rrsig rrsets)

-- The sections: `answerSection` is true.
abbrev pub answer_section : Bool
answer_section = true

abbrev pub authority_section : Bool
authority_section = false

-- The names and types that need a signature: all but RRSIG, and but NS in the authority section
-- where no signature covers that type.
unfoldable pub signed_combinations :
    Bool → List Signature → List Rr → List Combination → List Combination
unfolding add_combination
signed_combinations section ss [] set = set
signed_combinations section ss (r ∷ rr) set = signed_combinations section ss rr (
    if (header r).rrtype == type_rrsig
    then set
    else if (not section && ((header r).rrtype == type_ns))
        && (length (filter_on_type ss type_ns) == 0)
    then set
    else add_combination ((header r).name, (header r).rrtype) set)

unfoldable pub authenticate :
    Env → Name → List Rr → List Dnskey → Bool → List Signature × Option GoError
unfolding signatures_of signed_combinations
authenticate env zone rrsets dnskeys section =
    let ss = signatures_of env (env.dns.canonical_name zone) rrsets dnskeys in
    (
      ss,
      if not (length (signed_combinations section ss rrsets []) == count_name_type_combinations ss)
          then some unexpected_signature_count
          else none,
    )
