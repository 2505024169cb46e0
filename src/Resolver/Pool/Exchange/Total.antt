-- ===== src/Resolver/Pool/Exchange/Total.antt =====
-- Asking a pool, pool_exchange.go, ends with a response that has a message or an error.
use resolver_lib.Prelude.{
  ◌%◌, ◌^◌, ◌+◌, ◌<◌, ◌≡◌, refl, ap, ◌∙◌, ◌≢◌, Bool, true, false, not, ◌&&◌, ◌||◌, Option, none,
  some, if◌then◌else◌, length, Bool-cases, inl, inr, arith, [], ◌∷◌, List,
}
use resolver_lib.Dnssec.Status.{DenialOfExistenceState, AuthenticationResult}
use resolver_lib.Dns.{
  Question, Msg, GoError, wrapped, unable_to_resolve_answer, no_pool_configured_for_zone,
}
use resolver_lib.Resolver.Response.{Response, new_response_error}
use resolver_lib.Resolver.Nameserver.{Nameserver}
use resolver_lib.Resolver.Pool.{NameserverPool, has_ipv4, has_ipv6, get_ipv4, get_ipv6}
use resolver_lib.Resolver.Pool.Counts.{get_ipv4-eq, get_ipv6-eq, at_turn}
use resolver_lib.Resolver.Pool.Exchange.{failed, conclude, turn, exchange}

-- The counters agree with the lists.
pub record IsServing (pool : NameserverPool) : Type 0 where
  pub ipv4 : pool.ipv4_count ≡ length pool.ipv4
  pub ipv6 : pool.ipv6_count ≡ length pool.ipv6

-- Taking a server changes whose turn it is, and no more.
abbrev Turned : NameserverPool → NameserverPool → Type 0
Turned p q = IsServing q × (has_ipv4 q ≡ has_ipv4 p) × (has_ipv6 q ≡ has_ipv6 p)

take_ipv4 :
    (p : NameserverPool)
    → IsServing p
    → has_ipv4 p ≡ true
    → (q : NameserverPool) × (n : Nameserver) × (get_ipv4 p ≡ (q, some n)) × Turned p q
take_ipv4 p c h =
    let pos : 0 < p.ipv4_count = ground arith in
    let ne : p.ipv4 ≢ [] = λ e. let l = ap (length {0}) e in absurd (omega (arith, c.ipv4)) in
    let (n, e, i) = at_turn p.ipv4 p.ipv4_next p.ipv4_count c.ipv4 ne in
    let q = record p { ipv4_next = (p.ipv4_next % p.ipv4_count + 1) % 2 ^ 32 } in
    (
      q,
      n,
      get_ipv4-eq p pos ∙ ap (λ z. (q, z)) e,
      (record { ipv4 = c.ipv4; ipv6 = c.ipv6 }, refl, refl),
    )

take_ipv6 :
    (p : NameserverPool)
    → IsServing p
    → has_ipv6 p ≡ true
    → (q : NameserverPool) × (n : Nameserver) × (get_ipv6 p ≡ (q, some n)) × Turned p q
take_ipv6 p c h =
    let pos : 0 < p.ipv6_count = ground arith in
    let ne : p.ipv6 ≢ [] = λ e. let l = ap (length {0}) e in absurd (omega (arith, c.ipv6)) in
    let (n, e, i) = at_turn p.ipv6 p.ipv6_next p.ipv6_count c.ipv6 ne in
    let q = record p { ipv6_next = (p.ipv6_next % p.ipv6_count + 1) % 2 ^ 32 } in
    (
      q,
      n,
      get_ipv6-eq p pos ∙ ap (λ z. (q, z)) e,
      (record { ipv4 = c.ipv4; ipv6 = c.ipv6 }, refl, refl),
    )

no_ipv4 : (p : NameserverPool) → has_ipv4 p ≡ false → get_ipv4 p ≡ (p, none)
unfolding get_ipv4
no_ipv4 p h = simp h refl

-- What a response that is returned has.
abbrev pub HasOutcome : Response → Type 0
HasOutcome r = r.err ≡ none → r.msg ≢ none

conclude_parts :
    (query : Msg) (q : Question) (qs : List Question) (m : Option Msg) (e : Option GoError)
    (doe : DenialOfExistenceState) (auth : AuthenticationResult)
    → query.question ≡ q ∷ qs
    → (r' : Response) × (conclude query (some (record { msg = m; err = e; doe = doe; auth = auth }))
        ≡ some r')
      × HasOutcome r'
unfolding conclude
conclude_parts query q qs none none doe auth h = (
  record { msg = none; err = some unable_to_resolve_answer; doe = doe; auth = auth },
  rw h refl,
  λ z. cc,
)
conclude_parts query q qs none (some e) doe auth h = (
  record { msg = none; err = some (wrapped e unable_to_resolve_answer); doe = doe; auth = auth },
  rw h refl,
  λ z. cc,
)
conclude_parts query q qs (some m) none doe auth h = (_, refl, λ z n. cc)
conclude_parts query q qs (some m) (some e) doe auth h = (
  record { msg = some m; err = some (wrapped e unable_to_resolve_answer); doe = doe; auth = auth },
  rw h refl,
  λ z. cc,
)

conclude-HasOutcome :
    (query : Msg) (q : Question) (qs : List Question) (r : Response)
    → query.question ≡ q ∷ qs
    → (r' : Response) × (conclude query (some r) ≡ some r') × HasOutcome r'
conclude-HasOutcome query q qs r = conclude_parts query q qs r.msg r.err r.doe r.auth

-- What is not concluded as failed has a message already.
succeeded_some : (r : Option Response) → failed r ≡ false → (x : Response) × (r ≡ some x)
succeeded_some none h = cc
succeeded_some (some x) h = (x, refl)

module _ {S : Type 0} (ask : S → Nameserver → Option (S × Response)) where
  -- Asking a server never panics.
  abbrev pub Asks : Type 0
  Asks = (s : S) (n : Nameserver) → (t : S × Response) × (ask s n ≡ some t)

  turn_asked :
      (t : NameserverPool × Option Nameserver) (q : NameserverPool) (n : Nameserver) (s : S)
      (r : Option Response)
      → Asks
      → t ≡ (q, some n)
      → (u : S × Response) × (turn ask t s r ≡ some (u.0, q, some u.1))
  turn_asked t q n s r a e = let (u, k) = a s n in (u, ap (λ z. turn ask z s r) e ∙ simp k refl)

  first_turn :
      (ipv6_available : Bool) (p : NameserverPool) (s : S)
      → Asks
      → IsServing p
      → (s' : S) × (q : NameserverPool) × (r : Option Response) × (turn ask
            (if has_ipv6 p && ipv6_available then get_ipv6 p else get_ipv4 p)
            s
            none
          ≡ some (s', q, r))
        × Turned p q
  first_turn v p s a c = elim (Bool-cases (has_ipv6 p && v)) [
    | inl t ↦
        let (q, n, e, k) = take_ipv6 p c (ground arith) in
        let (u, w) = turn_asked (get_ipv6 p) q n s none a e in (u.0, q, some u.1, simp t w, k)
    | inr t ↦ elim (Bool-cases (has_ipv4 p)) [
      | inl h ↦
          let (q, n, e, k) = take_ipv4 p c h in
          let (u, w) = turn_asked (get_ipv4 p) q n s none a e in (u.0, q, some u.1, simp t w, k)
      | inr h ↦ (s, p, none, simp t (ap (λ z. turn ask z s none) (no_ipv4 p h)), (c, refl, refl))
    ]
  ]

  second_turn :
      (p q : NameserverPool) (s : S) (r : Option Response)
      → Asks
      → Turned p q
      → (has_ipv4 p || has_ipv6 p) ≡ true
      → (s' : S) × (q' : NameserverPool) × (r' : Response) × (turn ask
            (if has_ipv4 p then get_ipv4 q else get_ipv6 q)
            s
            r
          ≡ some (s', q', some r'))
        × IsServing q'
  second_turn p q s r a (c, same4, same6) h = elim (Bool-cases (has_ipv4 p)) [
    | inl t ↦
        let (q', n, e, k) = take_ipv4 q c (same4 ∙ t) in
        let (u, w) = turn_asked (get_ipv4 q) q' n s r a e in (u.0, q', u.1, simp t w, k.0)
    | inr t ↦
        let (q', n, e, k) = take_ipv6 q c (same6 ∙ ground arith) in
        let (u, w) = turn_asked (get_ipv6 q) q' n s r a e in (u.0, q', u.1, simp t w, k.0)
  ]

  -- Asking a pool whose counters agree with its lists ends, if asking each server does and the
  -- message has a question: the pool
  -- that is left still has them agree, and the response has an error or else a message.
  pub exchange-HasOutcome :
      (query : Msg) (q0 : Question) (qs : List Question) (ipv6_available : Bool)
      (p : NameserverPool) (s : S)
      → query.question ≡ q0 ∷ qs
      → Asks
      → IsServing p
      → (s' : S) × (q : NameserverPool) × (r : Response) × (exchange ask query ipv6_available p s
          ≡ some (s', q, r))
        × IsServing q
        × HasOutcome r
  unfolding exchange
  exchange-HasOutcome query q0 qs v p s hq a c =
      elim (Bool-cases (not (has_ipv4 p) && not (has_ipv6 p))) [
        | inl t ↦ (s, p, new_response_error no_pool_configured_for_zone, simp t refl, c, λ z. cc)
        | inr t ↦
            let (s1, q1, r1, e1, k1) = first_turn v p s a c in
            elim (Bool-cases (failed r1)) [
              | inl f ↦
                  let (s2, q2, r2, e2, k2) = second_turn p q1 s1 r1 a k1 (ground arith) in
                  let (r3, e3, o) = conclude-HasOutcome query q0 qs r2 hq in
                  (s2, q2, r3, simp (t, e1, f, e2, e3) refl, k2, o)
              | inr f ↦
                  let (x, y) = succeeded_some r1 f in
                  let (r3, e3, o) = conclude-HasOutcome query q0 qs x hq in
                  (s1, q1, r3, simp (t, e1, f, ap (conclude query) y ∙ e3) refl, k1.0, o)
            ]
      ]
