-- ===== src/Resolver/Exchange/Does.antt =====
-- A whole request of resolver_exchange.go in single steps.
use resolver_lib.Prelude.{
  ℕ, zero, suc, ◌+◌, ◌-◌, ◌%◌, ◌^◌, ltb, ◌≡◌, refl, subst, inl, inr, List, [], ◌∷◌, Option, none,
  some, if◌then◌else◌, >>=-eq-some, Bool-cases, Option-cases, length,
}
use resolver_lib.Dns.{Question, Msg, Dns, external}
use resolver_lib.Resolver.Response.{Response, Query, is_set_do}
use resolver_lib.Resolver.Domain.{Domain, current, next, more, last, wind_to, new_domain}
use resolver_lib.Resolver.Zones.{StoredZone, get, get_zone_list}
use resolver_lib.Resolver.Missing.{
  State, Funcs, add_delegation_signer_link, check_for_missing_zones, add_response,
}
use resolver_lib.Resolver.Exchange.{
  Outcome, returned, Label, after_label, take_known, process_delegation, follow_answer,
  resolve_label, rounds, exchange_zones, exchange, link_zones, starting, is_delegation,
}
use resolver_lib.Resolver.Exchange.Steps.{
  Does, nothing, asks, counts, finishes, link-Does, add_response-Does, check_for_missing_zones-Does,
  process_delegation-Does,
}

module _ (dns : Dns) {S : Type 0} (funcs : Funcs S) where
  follow_answer-Does :
      (a st st' : State S) (d d' : Domain) (z : StoredZone) (z' : Option StoredZone) (r : Response)
      (r' : Option Response) (m : Msg)
      → Does dns funcs a st
      → follow_answer dns funcs st d z r m ≡ some (st', d', z', r')
      → Does dns funcs a st'
  unfolding follow_answer
  follow_answer-Does a st st' d d' z z' r r' m g h =
      let ((st1, d1, z1), f, rest) =
        >>=-eq-some (check_for_missing_zones dns funcs (external 3) st d z m) _ h in
      let first = check_for_missing_zones-Does dns funcs (external 3) a st st1 d d1 z z1 m g f in
      let st2 = add_response dns funcs st1 z1 m in
      let second = add_response-Does dns funcs a st1 z1 m first in
      elim (Bool-cases (is_delegation m)) [
        | inl t ↦
            let same : (process_delegation dns funcs st2 z1 m).0 ≡ st' = cc (rw t at rest) in
            subst (Does dns funcs a) same (process_delegation-Does dns funcs a st2 z1 m second)
        | inr t ↦
            let same : (funcs.finalise st2 m r).0 ≡ st' = cc (rw t at rest) in
            subst (Does dns funcs a) same (finishes second m r)
      ]

  resolve_label-Does :
      (query : Query) (a st st' : State S) (d d' : Domain) (z z' : Option StoredZone)
      (r : Option Response)
      → Does dns funcs a st
      → resolve_label dns funcs query st d z ≡ some (st', d', z', r)
      → Does dns funcs a st'
  unfolding resolve_label
  resolve_label-Does query a st st' d d' none z' r g h =
      let same : st ≡ st' = cc in subst (Does dns funcs a) same g
  resolve_label-Does query a st st' d d' (some z) z' r g h =
      let asked = record st { outside = (funcs.ask st.outside z query).0 } in
      let end : asked ≡ st' → Does dns funcs a st' =
        λ e. subst (Does dns funcs a) e (asks g z query) in
      elim (Option-cases (funcs.ask st.outside z query).1) [
        | inl e ↦ end (cc (rw (e, resolve_label) at h))
        | inr (x, e) ↦ elim (Option-cases x.err) [
          | inr (y, f) ↦ end (cc (rw (e, f, resolve_label) at h))
          | inl f ↦ elim (Option-cases x.msg) [
            | inl k ↦ end (cc (rw (e, f, k, resolve_label) at h))
            | inr (m, k) ↦
                follow_answer-Does a asked st' d d' z z' x r m (asks g z query)
                  (simp (e, f, k, resolve_label) at h)
          ]
        ]
      ]

  -- How a loop ends where it returns.
  abbrev Ends : State S → Outcome (State S × Response) → Type 0
  Ends a o = (st : State S) (r : Response) → o ≡ returned (st, r) → Does dns funcs a st

  known-Ends :
      (a : State S) (on : Option StoredZone → Outcome (State S × Response))
      (ask : Outcome (State S × Response)) (o : Option StoredZone)
      → ((z : Option StoredZone) → Ends a (on z))
      → Ends a ask
      → Ends a (take_known on ask o)
  known-Ends a on ask none h k = k
  known-Ends a on ask (some z) h k = h (some z)

  label-Ends :
      (a : State S) (on : State S → Domain → Option StoredZone → Outcome (State S × Response))
      (o : Option (Label S))
      → ((st : State S) (d : Domain) (z : Option StoredZone) (r : Option Response)
          → o ≡ some (st, d, z, r)
          → Does dns funcs a st)
      → ((st : State S) (d : Domain) (z : Option StoredZone)
          → Does dns funcs a st
          → Ends a (on st d z))
      → Ends a (after_label on o)
  label-Ends a on none h k st r e = cc
  label-Ends a on (some (st1, d, z, some x)) h k st r e =
      let same : st1 ≡ st = cc in subst (Does dns funcs a) same (h st1 d z (some x) refl)
  label-Ends a on (some (st1, d, z, none)) h k st r e =
      k st1 (next d) z (h st1 d z none refl) st r e

  rounds-Does :
      (max_queries : ℕ) (query : Query) (a : State S) (n : ℕ) (st : State S) (d : Domain)
      (z : Option StoredZone)
      → Does dns funcs a st
      → Ends a (rounds dns max_queries funcs.clock (resolve_label dns funcs query) n st d z)
  unfolding rounds
  rounds-Does max_queries query a zero st d z g st' r h = elim (Bool-cases (more d)) [
    | inl t ↦ cc (rw t at h)
    | inr f ↦ let same : st ≡ st' = cc (rw f at h) in subst (Does dns funcs a) same g
  ]
  rounds-Does max_queries query a (suc n) st d z g st' r h =
      let resolve = resolve_label dns funcs query in
      let counted = record st { counter = (st.counter + 1) % 2 ^ 32 } in
      elim (Bool-cases (more d)) [
        | inr f ↦ let same : st ≡ st' = cc (rw f at h) in subst (Does dns funcs a) same g
        | inl f ↦ elim (Bool-cases (ltb max_queries ((st.counter + 1) % 2 ^ 32))) [
          | inl l ↦
              let same : counted ≡ st' = cc (rw (f, l) at h) in
              subst (Does dns funcs a) same (counts g)
          | inr l ↦ elim (Option-cases (current d)) [
            | inl c ↦ cc (rw (f, l, c) at h)
            | inr (c, k) ↦
                known-Ends a (rounds dns max_queries funcs.clock resolve n counted (next d))
                  (after_label (rounds dns max_queries funcs.clock resolve n) (resolve counted d z))
                  (if last d then none else get dns (funcs.clock counted.outside) counted.zones c)
                  (λ z'. rounds-Does max_queries query a n counted (next d) z' (counts g))
                  (label-Ends a (rounds dns max_queries funcs.clock resolve n) (resolve counted d z)
                    (λ st1 d1 z1 r1 e.
                      resolve_label-Does query a counted st1 d d1 z z1 r1 (counts g) e)
                    (λ st1 d1 z1 g1. rounds-Does max_queries query a n st1 d1 z1 g1))
                  st' r (rw (f, l, k) at h)
          ]
        ]
      ]

  link_zones-Does :
      (max_queries : ℕ) (zs : List StoredZone) (a st : State S)
      → Does dns funcs a st
      → Does dns funcs a (link_zones dns max_queries funcs st zs)
  unfolding link_zones
  link_zones-Does max_queries [] a st g = g
  link_zones-Does max_queries (z ∷ []) a st g = g
  link_zones-Does max_queries (z ∷ parent ∷ zs) a st g =
      link_zones-Does max_queries (parent ∷ zs) a
        (add_delegation_signer_link dns funcs st parent z.name)
        (link-Does dns funcs a st parent z.name g)

  exchange_zones-Does :
      (max_queries : ℕ) (q : Question) (qmsg : Msg) (st : State S) (known : List StoredZone)
      → Ends (starting qmsg st) (exchange_zones dns max_queries funcs q qmsg st known)
  unfolding exchange_zones
  exchange_zones-Does max_queries q qmsg st [] st' r h = cc
  exchange_zones-Does max_queries q qmsg st (z ∷ known) st' r h =
      let a = starting qmsg st in
      let linked = link_zones dns max_queries funcs a (z ∷ known) in
      let g : Does dns funcs a linked = link_zones-Does max_queries (z ∷ known) a a nothing in
      elim (Option-cases (wind_to dns (new_domain dns q.qname) z.name)) [
        | inl e ↦ cc (rw (e, exchange_zones) at h)
        | inr ((d, none), e) ↦
            let query : Query = record { question = q; dnssec_ok = is_set_do qmsg.extra } in
            rounds-Does max_queries query a (length d.label_indexes + 1 - d.current_idx) linked d
              (some z) g st' r (rw (e, exchange_zones) at h)
        | inr ((d, some x), e) ↦
            let same : linked ≡ st' = cc (rw (e, exchange_zones) at h) in
            subst (Does dns funcs a) same g
      ]

  -- A request that returns refines the relation of single steps: what it leaves is reached from the
  -- state in which it starts, with or without an authenticator, by asking zones, sending to the
  -- authenticator, counting rounds, adding zones that were cloned or created strictly below another,
  -- and finishing a response.
  pub exchange-Does :
      (max_queries : ℕ) (qmsg : Msg) (st st' : State S) (r : Response)
      → exchange dns max_queries funcs qmsg st ≡ returned (st', r)
      → Does dns funcs (starting qmsg st) st'
  unfolding exchange
  exchange-Does max_queries qmsg st st' r h = go qmsg.question refl
    where
      go : (qs : List Question) → qmsg.question ≡ qs → Does dns funcs (starting qmsg st) st'
      go [] e = cc (simp (e, exchange) at h)
      go (q ∷ others) e =
          elim (Option-cases (get_zone_list dns (funcs.clock st.outside) st.zones q.qname)) [
            | inl f ↦ cc (simp (e, f, exchange) at h)
            | inr (known, f) ↦
                exchange_zones-Does max_queries q qmsg st known st' r (simp (e, f, exchange) at h)
          ]
