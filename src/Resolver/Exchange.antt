-- ===== src/Resolver/Exchange.antt =====
-- resolver_exchange.go: resolving a name zone by zone. The query has a question. Starting
-- times and traces, which are only measured and logged, are left out, as is fetching keys ahead.
pub mod Ends
pub mod Limit
pub mod Bailiwick
pub mod Steps
pub mod Does
pub mod Links
use resolver_lib.Prelude.{
  ℕ, zero, suc, ◌+◌, ◌-◌, ◌%◌, ◌^◌, ltb, Bool, true, false, not, ◌&&◌, ◌||◌, List, [], ◌∷◌, Option,
  none, some, if◌then◌else◌, ◌>>=◌, inl, inr, Name, name_eq, length, ◌==◌,
}
use resolver_lib.Dns.{
  Rr, header, Pointer, Question, Msg, Dns, GoError, type_soa, type_ns, type_ds, empty_response,
  internal_error, next_nameservers_not_found, unable_to_resolve_answer,
  max_queries_per_request_reached, not_recursion_desired, external,
}
use resolver_lib.Dnssec.Records.{extract_records, records_of_type_exist}
use resolver_lib.Resolver.Response.{
  Response, Query, response_err, response_msg, new_response_error, is_set_do,
}
use resolver_lib.Resolver.Domain.{
  Domain, WindError, not_a_subdomain, target_not_found, new_domain, wind_to, current, next, more,
  last,
}
use resolver_lib.Resolver.Zones.{StoredZone, Zones, get_zone_list, get, add}
use resolver_lib.Resolver.Missing.{
  State, Funcs, as_ns, add_delegation_signer_link, add_response, check_for_missing_zones,
}

-- How a call ends: with a panic, with the value that it returns, or not, after the rounds of the
-- model.
pub data Outcome (A : Type 0) : Type 0 where
  panicked looping : Outcome A
  returned : A → Outcome A

abbrev pub is_nil : List Rr → Bool
is_nil [] = true
is_nil (_ ∷ _) = false

abbrev pub is_delegation : Msg → Bool
is_delegation m =
    is_nil m.answer
    && (records_of_type_exist m.ns_section type_ns
        && not (records_of_type_exist m.ns_section type_soa))

-- The errors of `windTo`, which are texts.
abbrev pub wind_error : WindError → GoError
wind_error not_a_subdomain = external 1
wind_error target_not_found = external 2

-- What `resolveLabel` leaves: the state, the position, the next zone, or nil, and the response, or
-- nil.
abbrev pub Label : Type 0 → Type 0
Label S = State S × Domain × Option StoredZone × Option Response

module _ (dns : Dns) {S : Type 0} (funcs : Funcs S) where
  -- The next zone, or nil, and the response, or nil.
  unfoldable pub process_delegation :
      State S → StoredZone → Msg → State S × Option StoredZone × Option Response
  process_delegation st z m =
      let fail : State S → GoError → State S × Option StoredZone × Option Response =
        λ st' e. (st', none, some (new_response_error e)) in
      elim (extract_records as_ns m.ns_section)
        as (λ _. State S × Option StoredZone × Option Response) [
          | [] ↦ fail st next_nameservers_not_found
          | r ∷ nameservers ↦
              let name = dns.canonical_name r.header.name in
              let made = funcs.create_zone st name z.name (r ∷ nameservers) m.extra in
              let st' = made.0 in
              let go : State S × Option StoredZone × Option Response = elim made.1 [
                | inl e ↦ fail st' e
                | inr z' ↦ (record st' { zones = add dns st'.zones z' }, some z', none)
              ] in
              if name_eq name z.name || not (dns.is_sub_domain z.name name)
              then fail st next_nameservers_not_found
              else go
        ]

  -- From the answer of the zone on.
  unfoldable pub follow_answer : State S → Domain → StoredZone → Response → Msg → Option (Label S)
  unfolding process_delegation check_for_missing_zones
  follow_answer st d z r m = check_for_missing_zones dns funcs (external 3) st d z m >>= λ found.
      (let st' = add_response dns funcs found.0 found.2 m in
        let (st1, z1, r1) = process_delegation st' found.2 m in
        let (st2, r2) = funcs.finalise st' m r in
        some (if is_delegation m then (st1, found.1, z1, r1) else (st2, found.1, none, some r2)))

  -- `none` is a panic.
  unfoldable pub resolve_label : Query → State S → Domain → Option StoredZone → Option (Label S)
  unfolding follow_answer
  resolve_label query st d none = some (st, d, none, some (new_response_error internal_error))
  resolve_label query st d (some z) =
      let st' = record st { outside = (funcs.ask st.outside z query).0 } in
      elim (funcs.ask st.outside z query).1 as (λ _. Option (Label S)) [
        | none ↦ some (st', d, none, some (new_response_error empty_response))
        | some r ↦ elim r.err as (λ _. Option (Label S)) [
          | some e ↦ some (st', d, none, some r)
          | none ↦ elim r.msg as (λ _. Option (Label S)) [
            | none ↦ some (st', d, none, some (new_response_error empty_response))
            | some m ↦ follow_answer st' d z r m
          ]
        ]
      ]

-- A function that resolves a label: the state, the position and the zone, or nil, to ask.
abbrev pub Resolve : Type 0 → Type 0
Resolve S = State S → Domain → Option StoredZone → Option (Label S)

-- After a label, the loop ends with a response or goes on.
abbrev pub after_label :
    {S : Type 0}
    → (State S → Domain → Option StoredZone → Outcome (State S × Response))
    → Option (Label S)
    → Outcome (State S × Response)
after_label on none = panicked
after_label on (some (st, d, z, some r)) = returned (st, r)
after_label on (some (st, d, z, none)) = on st (next d) z

-- A zone that is known already, if there is one, is taken.
abbrev pub take_known :
    {S : Type 0}
    → (Option StoredZone → Outcome (State S × Response))
    → Outcome (State S × Response)
    → Option StoredZone
    → Outcome (State S × Response)
take_known on ask none = ask
take_known on ask (some z) = on (some z)

module _ (dns : Dns) (max_queries : ℕ) {S : Type 0} where
  -- The loop of `exchange`, of at most as many rounds as the third argument says;
  -- the first one reads the time.
  unfoldable pub rounds :
      (S → ℕ) → Resolve S → ℕ → State S → Domain → Option StoredZone → Outcome (State S × Response)
  unfolding current
  rounds clock resolve zero st d z =
      if more d then looping else returned (st, new_response_error unable_to_resolve_answer)
  rounds clock resolve (suc n) st d z =
      let counted = (st.counter + 1) % 2 ^ 32 in
      let st' = record st { counter = counted } in
      let round : Outcome (State S × Response) = elim (current d) [
        | none ↦ panicked
        | some c ↦
            take_known (rounds clock resolve n st' (next d))
              (after_label (rounds clock resolve n) (resolve st' d z))
              (if last d then none else get dns (clock st'.outside) st'.zones c)
      ] in
      if not (more d)
      then returned (st, new_response_error unable_to_resolve_answer)
      else if ltb max_queries counted
      then returned (st', new_response_error max_queries_per_request_reached)
      else round

  -- The links between the known zones, most specific zone first.
  unfoldable pub link_zones : Funcs S → State S → List StoredZone → State S
  link_zones funcs st [] = st
  link_zones funcs st (z ∷ []) = st
  link_zones funcs st (z ∷ parent ∷ zones) =
      link_zones funcs (add_delegation_signer_link dns funcs st parent z.name) (parent ∷ zones)

-- The start of a request: with the DO flag there is an authenticator, which is sent the links between
-- the known zones.
abbrev pub starting : {S : Type 0} → Msg → State S → State S
starting qmsg st = record st { sent = if is_set_do qmsg.extra then some [] else none }

module _ (dns : Dns) (max_queries : ℕ) {S : Type 0} (funcs : Funcs S) where
  unfoldable pub exchange_zones :
      Question → Msg → State S → List StoredZone → Outcome (State S × Response)
  unfolding rounds link_zones resolve_label
  exchange_zones q qmsg st [] = panicked
  exchange_zones q qmsg st (z ∷ known) =
      let linked = link_zones dns max_queries funcs (starting qmsg st) (z ∷ known) in
      let query : Query = record { question = q; dnssec_ok = is_set_do qmsg.extra } in
      elim (wind_to dns (new_domain dns q.qname) z.name) [
        | none ↦ panicked
        | some (d, e) ↦ elim e [
          | some x ↦ returned (linked, new_response_error (wind_error x))
          | none ↦
              rounds dns max_queries funcs.clock (resolve_label dns funcs query)
                (length d.label_indexes + 1 - d.current_idx) linked d (some z)
        ]
      ]

  -- `exchange`, on the first question of the query.
  unfoldable pub exchange : Msg → State S → Outcome (State S × Response)
  unfolding exchange_zones
  exchange qmsg st = elim qmsg.question [
    | [] ↦ panicked
    | q ∷ _ ↦ elim (get_zone_list dns (funcs.clock st.outside) st.zones q.qname) [
      | none ↦ panicked
      | some known ↦ exchange_zones q qmsg st known
    ]
  ]

  abbrev available : Response → Response
  available r = elim r.msg [
    | none ↦ r
    | some m ↦ record r { msg = some (record m { recursion_available = true }) }
  ]

  -- The public `Exchange`.
  unfoldable pub public_exchange : Msg → State S → Outcome (State S × Response)
  unfolding exchange
  public_exchange qmsg st =
      let asked = elim (exchange qmsg st) as (λ _. Outcome (State S × Response)) [
        | panicked ↦ panicked
        | looping ↦ looping
        | returned t ↦ returned (t.0, available t.1)
      ] in
      if not qmsg.recursion_desired
      then returned (st, new_response_error not_recursion_desired)
      else asked
