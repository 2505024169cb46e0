-- ===== src/Resolver/Cname.antt =====
-- cname.go: following the CNAME records of an answer. The interface `exchanger` is a function that threads a
-- state of its own, since the zones that the resolver knows change from call to call.
pub mod Weaker
use Prim.Native.Nat.{max}
use resolver_lib.Prelude.{
  ℕ, ◌==◌, Bool, true, false, ◌&&◌, ◌||◌, List, [], ◌∷◌, ◌++◌, Option, none, some, if◌then◌else◌,
  Name, name_eq, any,
}
use resolver_lib.Dns.{Rr, cname, opt, header, Pointer, Question, Msg, Dns, GoError, type_cname}
use resolver_lib.Dnssec.Status.{AuthenticationResult, DenialOfExistenceState, combine}
use resolver_lib.Dnssec.Records.{extract_records}
use resolver_lib.Resolver.Response.{
  Response, Query, response_err, response_msg, is_set_do, records_of_name_and_type_exist,
}

abbrev pub as_cname : Rr → Option Pointer
as_cname (cname r) = some r
as_cname _ = none

-- The message and the state that are built up, and the error that `cname` returns.
pub record Followed (S : Type 0) : Type 0 where
  pub state : S
  pub msg : Msg
  pub auth : AuthenticationResult
  pub err : Option GoError

-- An answer for a target is added to the message.
unfoldable pub merge : Msg → Msg → Msg
merge m n = record m {
  answer = m.answer ++ n.answer;
  ns_section = m.ns_section ++ n.ns_section;
  extra = m.extra ++ n.extra;
  authoritative = m.authoritative && n.authoritative;
  rcode = max m.rcode n.rcode;
}

-- The result of a response that has a message.
abbrev pub auth_of : Option Response → AuthenticationResult → AuthenticationResult
auth_of none auth = auth
auth_of (some r) auth = combine auth r.auth

module _ {S : Type 0} (dns : Dns) (exchange : S → Query → S × Option Response) where
  -- The text `unable to follow cname` is an error of its own, here `unable`.
  unfoldable pub follow :
      GoError → Question → Bool → S → Msg → AuthenticationResult → List Pointer → Followed S
  unfolding merge records_of_name_and_type_exist
  follow unable q dnssec_ok s m auth [] = record { state = s; msg = m; auth = auth; err = none }
  follow unable q dnssec_ok s m auth (c ∷ cnames) =
      let target = dns.canonical_name c.value in
      let query : Query = record {
        question = record { qname = target; qtype = q.qtype };
        dnssec_ok = dnssec_ok;
      } in
      let s' = (exchange s query).0 in
      let r = (exchange s query).1 in
      let skip = follow unable q dnssec_ok s m auth cnames in
      let asked : Followed S = elim (response_err r) [
        | some e ↦ record { state = s'; msg = m; auth = auth; err = some e }
        | none ↦ elim (response_msg r) [
          | none ↦ record { state = s'; msg = m; auth = auth; err = some unable }
          | some n ↦ follow unable q dnssec_ok s' (merge m n) (auth_of r auth) cnames
        ]
      ] in
      if records_of_name_and_type_exist m.answer target q.qtype
        || records_of_name_and_type_exist m.answer target type_cname
      then skip
      else asked

  -- `cname`, on the first question of the query and the additional section of it.
  unfoldable pub follow_cnames :
      GoError → Question → List Rr → S → Msg → AuthenticationResult → Followed S
  unfolding follow is_set_do
  follow_cnames unable q extra s m auth =
      follow unable q (is_set_do extra) s m auth (extract_records as_cname m.answer)
