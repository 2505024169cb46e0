-- ===== src/Resolver/Finalise.antt =====
-- finaliseResponse of resolver_exchange.go: what is done to a response before it is returned. The
-- TTLs that the code keeps in a map are those of a function, so it is asked each time. `none` is a
-- run-time panic of the validator.
pub mod Flags
use Prim.Native.Nat.{min}
use resolver_lib.Prelude.{
  ℕ, ◌==◌, Bool, true, false, not, ◌&&◌, ◌||◌, List, [], ◌∷◌, map, Option, none, some,
  if◌then◌else◌, ◌>>=◌,
}
use resolver_lib.Dns.{
  Header, Rr, rrsig, dnskey, ds, nsec, nsec3, ns, cname, a, aaaa, soa, opt, other, header, Question,
  Msg, Dns, GoError, type_cname, type_soa,
}
use resolver_lib.Dnssec.Status.{
  AuthenticationResult, DenialOfExistenceState, unknown, not_found, is_secure, is_bogus,
}
use resolver_lib.Dnssec.Env.{Env}
use resolver_lib.Dnssec.Records.{records_of_type_exist}
use resolver_lib.Dnssec.Authenticator.{Authenticator}
use resolver_lib.Dnssec.Authenticator.Judge.{Verdict, result_ttl_answer, result_ttl_authority}
use resolver_lib.Resolver.Queue.{Queue, queue_result}
use resolver_lib.Resolver.Response.{Response, Query}
use resolver_lib.Resolver.Cname.{Followed, follow_cnames}

-- The package variables of config.go that are read here.
pub record Settings : Type 0 where
  pub remove_authority : Bool
  pub remove_additional : Bool
  pub suppress_bogus : Bool

-- `rr.Header().Ttl = ttl`.
unfoldable pub set_ttl : ℕ → Rr → Rr
set_ttl t (rrsig r) = rrsig (record r { header = record r.header { ttl = t } })
set_ttl t (dnskey r) = dnskey (record r { header = record r.header { ttl = t } })
set_ttl t (ds r) = ds (record r { header = record r.header { ttl = t } })
set_ttl t (nsec r) = nsec (record r { header = record r.header { ttl = t } })
set_ttl t (nsec3 r) = nsec3 (record r { header = record r.header { ttl = t } })
set_ttl t (ns r) = ns (record r { header = record r.header { ttl = t } })
set_ttl t (cname r) = cname (record r { header = record r.header { ttl = t } })
set_ttl t (a r) = a (record r { header = record r.header { ttl = t } })
set_ttl t (aaaa r) = aaaa (record r { header = record r.header { ttl = t } })
set_ttl t (soa h) = soa (record h { ttl = t })
set_ttl t (opt r) = opt (record r { header = record r.header { ttl = t } })
set_ttl t (other h) = other (record h { ttl = t })

-- A record whose type has a TTL in the result is capped by it.
unfoldable pub cap_ttl : (ℕ → ℕ × Bool) → Rr → Rr
unfolding set_ttl
cap_ttl ttl_of r =
    let (ttl, found) = ttl_of (header r).rrtype in
    if found then set_ttl (min ttl (header r).ttl) r else r

-- The first OPT record, as a list.
unfoldable pub only_opt : List Rr → List Rr
only_opt [] = []
only_opt (opt r ∷ extra) = opt r ∷ []
only_opt (_ ∷ extra) = only_opt extra

abbrev pub is_nonempty : List Rr → Bool
is_nonempty [] = false
is_nonempty (_ ∷ _) = true

-- An answer with no SOA in the authority section.
abbrev pub is_positive : Msg → Bool
is_positive m = is_nonempty m.answer && not (records_of_type_exist m.ns_section type_soa)

-- The two sections that may be removed from a positive answer, then the removal of duplicates.
unfoldable pub trim : Settings → (List Rr → List Rr) → Msg → Msg
unfolding only_opt
trim cfg dedup m =
    let m1 : Msg =
      if cfg.remove_authority && is_positive m then record m { ns_section = [] } else m in
    let m2 : Msg =
      if cfg.remove_additional && is_positive m1
      then record m1 { extra = only_opt m1.extra }
      else m1 in
    record m2 {
      answer = if is_nonempty m2.answer then dedup m2.answer else m2.answer;
      ns_section = if is_nonempty m2.ns_section then dedup m2.ns_section else m2.ns_section;
      extra = if is_nonempty m2.extra then dedup m2.extra else m2.extra;
    }

-- The last stage: the AD flag, and a server failure in place of a bogus answer.
unfoldable pub mark : Settings → Bool → AuthenticationResult → Msg → Msg
mark cfg checking_disabled auth m =
    let flagged : Msg = record m { authenticated_data = is_secure auth } in
    let failed : Msg = record flagged { rcode = 2 } in
    let emptied : Msg = record failed { answer = []; ns_section = []; extra = [] } in
    if checking_disabled
    then m
    else if not (is_bogus auth)
    then flagged
    else if cfg.suppress_bogus
    then emptied
    else failed

module _ {S : Type 0} (env : Env) (exchange : S → Query → S × Option Response) (cfg : Settings)
    (dedup : List Rr → List Rr) (unable : GoError) (unsuccessful : ℕ → GoError) where
  open env use {dns}

  -- CNAME records are followed unless they were asked for.
  unfoldable pub with_aliases : Question → Msg → S → Msg → AuthenticationResult → Followed S
  with_aliases q qmsg s m auth =
      if not (q.qtype == type_cname) && records_of_type_exist m.answer type_cname
      then follow_cnames dns exchange unable q qmsg.extra s m auth
      else record { state = s; msg = m; auth = auth; err = none }

  -- From the check of the response code on; the first argument is whether there is a validator.
  unfoldable pub complete :
      Bool → Bool → DenialOfExistenceState → Option GoError → Followed S → S × Response
  unfolding trim mark
  complete validated checking_disabled doe err f = elim f.err as (λ _. S × Response) [
    | some e ↦ (f.state, record { msg = none; err = some e; doe = not_found; auth = unknown })
    | none ↦
        let trimmed = trim cfg dedup f.msg in
        (
          f.state,
          record {
            msg = some (if validated then mark cfg checking_disabled f.auth trimmed else trimmed);
            err =
                if (f.msg.rcode == 0) || (f.msg.rcode == 3)
                then err
                else some (unsuccessful f.msg.rcode);
            doe = doe;
            auth = f.auth;
          },
        )
  ]

  -- The answer and the authority section of a secure response, capped by what was validated.
  unfoldable pub cap : Authenticator → Verdict → Msg → Msg
  unfolding cap_ttl
  cap b v m =
      let capped : Msg = record m {
        answer = map (cap_ttl (result_ttl_answer env b)) m.answer;
        ns_section = map (cap_ttl (result_ttl_authority env b)) m.ns_section;
      } in
      if is_secure v.auth then capped else m

  -- The message of the response is an argument of its own, since it is there.
  unfoldable pub finalise :
      Option Queue → Question → Msg → S → Response → Msg → Option (S × Response)
  unfolding with_aliases complete cap
  finalise none q qmsg s r m =
      some (complete false qmsg.checking_disabled r.doe r.err (with_aliases q qmsg s m r.auth))
  finalise (some queue) q qmsg s r m = queue_result env queue >>= λ t. some (
      complete true qmsg.checking_disabled t.1.doe t.1.err
        (with_aliases q qmsg s (cap t.0 t.1 m) t.1.auth))
