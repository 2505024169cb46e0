-- ===== src/Resolver/Exchange/Limit.antt =====
-- The bound on the rounds for a request that resolver_exchange.go keeps.
use resolver_lib.Prelude.{
  ℕ, zero, suc, ◌+◌, ◌%◌, ◌^◌, ◌≤◌, ◌<◌, ltb, ◌≡◌, refl, ap, ◌∙◌, inl, inr, true, Option, none,
  some, if◌then◌else◌, Bool-cases, Option-cases, arith,
}
use native.Mathlib.Nat.{mod-eq_of_lt}
use resolver_lib.Dns.{Dns, max_queries_per_request_reached}
use resolver_lib.Resolver.Response.{Response, new_response_error}
use resolver_lib.Resolver.Domain.{Domain, current, next, more, last}
use resolver_lib.Resolver.Zones.{StoredZone, get}
use resolver_lib.Resolver.Missing.{State}
use resolver_lib.Resolver.Exchange.{
  Outcome, returned, Label, Resolve, after_label, take_known, rounds,
}

-- Two ways to resolve a label that do the same as long as the count is within the bound.
abbrev pub Agree : {S : Type 0} → ℕ → Resolve S → Resolve S → Type 0
Agree {S} max_queries resolve resolve' =
    (st : State S) (d : Domain) (z : Option StoredZone)
    → st.counter ≤ max_queries
    → resolve st d z ≡ resolve' st d z

after_label-cong :
    {S : Type 0} (on on' : State S → Domain → Option StoredZone → Outcome (State S × Response))
    (o : Option (Label S))
    → ((st : State S) (d : Domain) (z : Option StoredZone) → on st d z ≡ on' st d z)
    → after_label on o ≡ after_label on' o
after_label-cong on on' none h = refl
after_label-cong on on' (some (st, d, z, some r)) h = refl
after_label-cong on on' (some (st, d, z, none)) h = h st (next d) z

take_known-cong :
    {S : Type 0} (on on' : Option StoredZone → Outcome (State S × Response))
    (ask ask' : Outcome (State S × Response)) (o : Option StoredZone)
    → ((z : Option StoredZone) → on z ≡ on' z)
    → ask ≡ ask'
    → take_known on ask o ≡ take_known on' ask' o
take_known-cong on on' ask ask' none h k = k
take_known-cong on on' ask ask' (some z) h k = h (some z)

module _ (dns : Dns) (max_queries : ℕ) {S : Type 0} where
  -- The bound is kept: what resolving a label would do once the count is above it has no influence
  -- on the loop, which does not resolve one then. At the bound, a loop with a label left returns the
  -- error for it, and only the count has changed.
  pub rounds_limit :
      (clock : S → ℕ) (resolve resolve' : Resolve S) (n : ℕ) (st : State S) (d : Domain)
      (z : Option StoredZone)
      → Agree max_queries resolve resolve'
      → (rounds dns max_queries clock resolve n st d z
          ≡ rounds dns max_queries clock resolve' n st d z)
        × (max_queries ≤ st.counter
            → st.counter + 1 < 2 ^ 32
            → 0 < n
            → more d ≡ true
            → rounds dns max_queries clock resolve n st d z
              ≡ returned (
                record st { counter = st.counter + 1 },
                new_response_error max_queries_per_request_reached,
              ))
  unfolding rounds
  rounds_limit clock resolve resolve' zero st d z h = (refl, λ l small pos. absurd (omega arith))
  rounds_limit clock resolve resolve' (suc n) st d z h =
      let st' = record st { counter = (st.counter + 1) % 2 ^ 32 } in
      (
        elim (Bool-cases (more d)) [
          | inr f ↦ rw f refl
          | inl f ↦ elim (Bool-cases (ltb max_queries ((st.counter + 1) % 2 ^ 32))) [
            | inl l ↦ rw (f, l) refl
            | inr l ↦ elim (Option-cases (current d)) [
              | inl c ↦ rw (f, l, c) refl
              | inr (c, k) ↦
                  rw (f, l, k)
                    (take_known-cong (rounds dns max_queries clock resolve n st' (next d))
                      (rounds dns max_queries clock resolve' n st' (next d))
                      (after_label (rounds dns max_queries clock resolve n) (resolve st' d z))
                      (after_label (rounds dns max_queries clock resolve' n) (resolve' st' d z))
                      (if last d then none else get dns (clock st'.outside) st'.zones c)
                      (λ z'. (rounds_limit clock resolve resolve' n st' (next d) z' h).0)
                      (ap (after_label (rounds dns max_queries clock resolve n))
                          (h st' d z (ground arith))
                        ∙ after_label-cong (rounds dns max_queries clock resolve n)
                            (rounds dns max_queries clock resolve' n) (resolve' st' d z)
                            (λ st1 d1 z1. (rounds_limit clock resolve resolve' n st1 d1 z1 h).0)))
            ]
          ]
        ],
        λ full small pos f.
            let e : (st.counter + 1) % 2 ^ 32 ≡ st.counter + 1 = mod-eq_of_lt small in
            let l : ltb max_queries (st.counter + 1) ≡ true = ground arith in simp (f, e, l) refl,
      )
