-- ===== src/Dnssec/Authenticate/Ttl.antt =====
-- The TTLs that `authenticate` of dnssec/authenticate_rrset.go gives to signatures.
use resolver_lib.Prelude.{
  ℕ, ◌+◌, ◌-◌, ◌^◌, ◌≤◌, ◌<◌, ◌≡◌, refl, inl, inr, true, false, List, [], ◌∷◌, some, arith,
  Bool-cases, Option-cases, min, All, Name,
}
use resolver_lib.Dns.{Dns, Rr, Rrsig, header, Dnskey, wrapped, invalid_signature}
use resolver_lib.Dnssec.Env.{Env}
use resolver_lib.Dnssec.Signatures.{Signature}
use resolver_lib.Dnssec.Authenticate.{
  time_left, lowest_ttl, year68, try_keys, key_matches, no_key_left, limit_signature,
  check_signature, new_signature,
}

-- Less than 68 years before the expiration, the time left is the plain difference, and it always is
-- a 32-bit number.
pub time_left_lem :
    (expiration utc : ℕ)
    → (time_left expiration utc < 2 ^ 32)
      × (utc ≤ expiration → expiration < utc + year68 → time_left expiration utc ≡ expiration - utc)
unfolding time_left
time_left_lem expiration utc = (ground arith, λ h k. ground arith)

lowest_ttl-le : (ttl : ℕ) (rr : List Rr) → lowest_ttl ttl rr ≤ ttl
unfolding lowest_ttl
lowest_ttl-le ttl [] = omega arith
lowest_ttl-le ttl (r ∷ rr) = omega (arith, lowest_ttl-le (min ttl (header r).ttl) rr)

lowest_ttl-All : (ttl : ℕ) (rr : List Rr) → All (λ r. lowest_ttl ttl rr ≤ (header r).ttl) rr
unfolding lowest_ttl
lowest_ttl-All ttl [] = tt
lowest_ttl-All ttl (r ∷ rr) = (
  omega (arith, lowest_ttl-le (min ttl (header r).ttl) rr),
  lowest_ttl-All (min ttl (header r).ttl) rr,
)

try_keys-ttl :
    (dns : Dns) (sig : Signature) (keys : List Dnskey) → (try_keys dns sig keys).ttl ≡ sig.ttl
unfolding try_keys
try_keys-ttl dns sig [] = refl
try_keys-ttl dns sig (k ∷ keys) = elim (Bool-cases (key_matches dns sig.rrsig k)) [
  | inr miss ↦ rw miss (try_keys-ttl dns sig keys)
  | inl hit ↦ elim (Option-cases (dns.verify sig.rrsig k sig.rrset)) [
    | inl good ↦ rw (hit, good) refl
    | inr (e, bad) ↦
        rw (hit, bad)
          (try_keys-ttl dns (record sig { err = some (wrapped invalid_signature e) }) keys)
  ]
]

no_key_left-ttl : (sig : Signature) → (no_key_left sig).ttl ≡ sig.ttl
no_key_left-ttl sig = elim (Bool-cases sig.verified) [
  | inl v ↦ ground arith
  | inr v ↦ elim (Option-cases sig.err) [ inl e ↦ ground arith | inr (x, e) ↦ ground arith ]
]

module _ (env : Env) where
  open env use {dns, now}

  check_signature-ttl :
      (keys : List Dnskey) (sig : Signature)
      → sig.verified ≡ false
      → (check_signature env keys sig).verified ≡ true
      → (check_signature env keys sig).ttl ≡ (limit_signature env sig).ttl
  unfolding check_signature
  check_signature-ttl keys sig f v = ground (
    arith,
    try_keys-ttl dns (limit_signature env sig) keys,
    no_key_left-ttl (try_keys dns (limit_signature env sig) keys),
  )

  -- The TTL of a signature made from an RRSIG record that comes out verified is at most each of the
  -- bounds of RFC 4035 5.3.3: the TTL of the RRSIG record, the original TTL that it states, the time
  -- left before it expires, and the TTL of each record that is signed.
  pub check_signature_ttl_bounds :
      (zone : Name) (rrsets : List Rr) (rrsig : Rrsig) (keys : List Dnskey)
      → (check_signature env keys (new_signature env zone rrsets rrsig)).verified ≡ true
      → let sig = check_signature env keys (new_signature env zone rrsets rrsig) in
        (sig.ttl ≤ rrsig.header.ttl)
        × (sig.ttl ≤ rrsig.orig_ttl)
        × (sig.ttl ≤ time_left rrsig.expiration now)
        × All (λ r. sig.ttl ≤ (header r).ttl) (new_signature env zone rrsets rrsig).rrset
  unfolding limit_signature
  check_signature_ttl_bounds zone rrsets rrsig keys v =
      let sig = new_signature env zone rrsets rrsig in
      let e = check_signature-ttl keys sig refl v in
      let start = min sig.ttl (time_left rrsig.expiration now) in
      rw e (
        omega (arith, lowest_ttl-le start sig.rrset),
        omega (arith, lowest_ttl-le start sig.rrset),
        omega (arith, lowest_ttl-le start sig.rrset),
        lowest_ttl-All start sig.rrset,
      )
