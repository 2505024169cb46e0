-- ===== src/Resolver/Cname/Weaker.antt =====
-- What following CNAME records of cname.go does to the message and to its authentication result.
use resolver_lib.Prelude.{
  ◌≤◌, ◌≡◌, refl, ap, ◌∙◌, Bool, true, false, ◌||◌, List, [], ◌∷◌, ◌++◌, Option, none, some, arith,
  if◌then◌else◌,
}
use resolver_lib.Dns.{Rr, Pointer, Question, Msg, Dns, GoError, type_cname}
use resolver_lib.Dnssec.Status.{AuthenticationResult, strength, strength-combine}
use resolver_lib.Resolver.Response.{
  Response, response_err, response_msg, Query, records_of_name_and_type_exist, is_set_do,
}
use resolver_lib.Resolver.Cname.{Followed, merge, auth_of, follow, follow_cnames, as_cname}
use resolver_lib.Dnssec.Records.{extract_records}

-- One list starts with another.
abbrev pub Extends : List Rr → List Rr → Type 0
Extends rr rr' = (more : List Rr) × (rr' ≡ rr ++ more)

-- A message and its result, after something was added: nothing is lost, and nothing is vouched for
-- that was not before.
abbrev pub IsWeaker : Msg → AuthenticationResult → Msg → AuthenticationResult → Type 0
IsWeaker m auth m' auth' =
    (strength auth' ≤ strength auth)
    × (m'.authoritative ≡ true → m.authoritative ≡ true)
    × (m.rcode ≤ m'.rcode)
    × Extends m.answer m'.answer
    × Extends m.ns_section m'.ns_section
    × Extends m.extra m'.extra

append_nil : (rr : List Rr) → rr ≡ rr ++ []
append_nil [] = refl
append_nil (r ∷ rr) = ap (◌∷◌ r) (append_nil rr)

append_assoc : (a b c : List Rr) → (a ++ b) ++ c ≡ a ++ (b ++ c)
append_assoc [] b c = refl
append_assoc (r ∷ a) b c = ap (◌∷◌ r) (append_assoc a b c)

Extends-refl : (rr : List Rr) → Extends rr rr
Extends-refl rr = ([], append_nil rr)

Extends-append : (a b c : List Rr) → Extends (a ++ b) c → Extends a c
Extends-append a b c (more, e) = (b ++ more, e ∙ append_assoc a b more)

IsWeaker-refl : (m : Msg) (auth : AuthenticationResult) → IsWeaker m auth m auth
IsWeaker-refl m auth = (
  omega arith,
  λ h. h,
  omega arith,
  Extends-refl m.answer,
  Extends-refl m.ns_section,
  Extends-refl m.extra,
)

strength-auth_of :
    (r : Option Response) (auth : AuthenticationResult) → strength (auth_of r auth) ≤ strength auth
strength-auth_of none auth = omega arith
strength-auth_of (some r) auth = omega (arith, strength-combine auth r.auth)

IsWeaker-merge :
    (m n m' : Msg) (r : Option Response) (auth auth' : AuthenticationResult)
    → IsWeaker (merge m n) (auth_of r auth) m' auth'
    → IsWeaker m auth m' auth'
unfolding merge
IsWeaker-merge m n m' r auth auth' (s, a, c, x, y, z) = (
  omega (arith, strength-auth_of r auth),
  λ h. let k = a h in ground arith,
  ground arith,
  Extends-append m.answer n.answer m'.answer x,
  Extends-append m.ns_section n.ns_section m'.ns_section y,
  Extends-append m.extra n.extra m'.extra z,
)

module _ {S : Type 0} (dns : Dns) (exchange : S → Query → S × Option Response) where
  -- One round: a target that is skipped, an error, an empty response, or an answer.
  round-IsWeaker :
      (skipped : Bool) (e : Option GoError) (n : Option Msg) (unable : GoError) (s : S) (m : Msg)
      (auth : AuthenticationResult) (r : Option Response) (skip : Followed S)
      (on : Msg → Followed S)
      → IsWeaker m auth skip.msg skip.auth
      → ((n : Msg) → IsWeaker (merge m n) (auth_of r auth) (on n).msg (on n).auth)
      → let f : Followed S = if skipped then skip else elim e as (λ _. Followed S) [
        | some e ↦ record { state = s; msg = m; auth = auth; err = some e }
        | none ↦ elim n as (λ _. Followed S) [
          | none ↦ record { state = s; msg = m; auth = auth; err = some unable }
          | some n ↦ on n
        ]
      ] in
        IsWeaker m auth f.msg f.auth
  round-IsWeaker true e n unable s m auth r skip on h k = h
  round-IsWeaker false (some e) n unable s m auth r skip on h k = IsWeaker-refl m auth
  round-IsWeaker false none none unable s m auth r skip on h k = IsWeaker-refl m auth
  round-IsWeaker false none (some n) unable s m auth r skip on h k =
      IsWeaker-merge m n (on n).msg r auth (on n).auth (k n)

  follow-IsWeaker :
      (unable : GoError) (q : Question) (dnssec_ok : Bool) (s : S) (m : Msg)
      (auth : AuthenticationResult) (cnames : List Pointer)
      → IsWeaker m auth
          (follow dns exchange unable q dnssec_ok s m auth cnames).msg
          (follow dns exchange unable q dnssec_ok s m auth cnames).auth
  unfolding follow
  follow-IsWeaker unable q dnssec_ok s m auth [] = IsWeaker-refl m auth
  follow-IsWeaker unable q dnssec_ok s m auth (c ∷ cnames) =
      let target = dns.canonical_name c.value in
      let query : Query = record {
        question = record { qname = target; qtype = q.qtype };
        dnssec_ok = dnssec_ok;
      } in
      let (s', r) = exchange s query in
      round-IsWeaker
        (records_of_name_and_type_exist m.answer target q.qtype
          || records_of_name_and_type_exist m.answer target type_cname)
        (response_err r) (response_msg r) unable s' m auth r
        (follow dns exchange unable q dnssec_ok s m auth cnames)
        (λ n. follow dns exchange unable q dnssec_ok s' (merge m n) (auth_of r auth) cnames)
        (follow-IsWeaker unable q dnssec_ok s m auth cnames)
        (λ n. follow-IsWeaker unable q dnssec_ok s' (merge m n) (auth_of r auth) cnames)

  -- Following CNAME records, whether or not it ends in an error, only adds records after those of
  -- each section, only weakens the authentication result, does not lower the response code, and
  -- leaves the message authoritative only if it was.
  pub follow_cnames-IsWeaker :
      (unable : GoError) (q : Question) (extra : List Rr) (s : S) (m : Msg)
      (auth : AuthenticationResult)
      → IsWeaker m auth
          (follow_cnames dns exchange unable q extra s m auth).msg
          (follow_cnames dns exchange unable q extra s m auth).auth
  unfolding follow_cnames
  follow_cnames-IsWeaker unable q extra s m auth =
      follow-IsWeaker unable q (is_set_do extra) s m auth (extract_records as_cname m.answer)
