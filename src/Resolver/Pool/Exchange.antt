-- ===== src/Resolver/Pool/Exchange.antt =====
-- pool_exchange.go: asking a server of the pool, and another one if that fails. Asking a server is a
-- parameter that threads a state of its own; `none` is a run-time panic. The texts of errors are left
-- out, but not that they read the name in the question.
pub mod Total
use resolver_lib.Prelude.{
  ℕ, ltb, ◌≡◌, refl, ap, ◌∙◌, ◌≢◌, Bool, true, false, not, ◌&&◌, ◌||◌, Option, none, some, ◌>>=◌,
  if◌then◌else◌, length, [], ◌∷◌, Bool-cases, Option-cases, inl, inr, arith,
}
use resolver_lib.Dns.{Msg, GoError, no_pool_configured_for_zone, unable_to_resolve_answer, wrapped}
use resolver_lib.Resolver.Response.{Response, response_err, response_msg, new_response_error}
use resolver_lib.Resolver.Nameserver.{Nameserver}
use resolver_lib.Resolver.Pool.{NameserverPool, has_ipv4, has_ipv6, get_ipv4, get_ipv6}

-- `response.IsEmpty() || response.HasError()`.
abbrev pub failed : Option Response → Bool
failed r = elim (response_msg r) [
  | none ↦ true
  | some _ ↦ elim (response_err r) [ none ↦ false | some _ ↦ true ]
]

-- The error that a failed response ends with; a message without a question is a panic then, and so is
-- writing the error to nil.
unfoldable pub conclude : Msg → Option Response → Option Response
conclude m r =
    let fail : Response → Response = λ x. record x {
      err = some (elim x.err [
        | some e ↦ wrapped e unable_to_resolve_answer
        | none ↦ unable_to_resolve_answer
      ]);
    } in
    let failing = elim r as (λ _. Option Response) [ none ↦ none | some x ↦ some (fail x) ] in
    if failed r then elim m.question [ [] ↦ none | _ ∷ _ ↦ failing ] else r

module _ {S : Type 0} (ask : S → Nameserver → Option (S × Response)) where
  -- The server whose turn it is is asked, if there is one; otherwise the response stays.
  abbrev pub turn :
      NameserverPool × Option Nameserver
      → S
      → Option Response
      → Option (S × NameserverPool × Option Response)
  turn (pool, none) s r = some (s, pool, r)
  turn (pool, some n) s r = ask s n >>= λ t. some (t.0, pool, some t.1)

  unfoldable pub exchange : Msg → Bool → NameserverPool → S → Option (S × NameserverPool × Response)
  exchange m ipv6_available pool s =
      let first =
        turn (if has_ipv6 pool && ipv6_available then get_ipv6 pool else get_ipv4 pool) s none in
      let second : S × NameserverPool × Option Response
          → Option (S × NameserverPool × Option Response) =
        λ t. turn (if has_ipv4 pool then get_ipv4 t.1 else get_ipv6 t.1) t.0 t.2 in
      if not (has_ipv4 pool) && not (has_ipv6 pool)
      then some (s, pool, new_response_error no_pool_configured_for_zone)
      else first >>= λ t. (if failed t.2 then second t else some t) >>= λ u.
          conclude m u.2 >>= λ r. some (u.0, u.1, r)
