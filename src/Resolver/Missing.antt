-- ===== src/Resolver/Missing.antt =====
-- checkForMissingZones of resolver_exchange.go, with soa and clone of zone.go and addResponse and
-- addDelegationSignerLink of auth.go.
-- What a zone is asked is a `Query`; names are fully qualified. While a request is resolved no other
-- adds a zone; time passes as the outside world has it.
use resolver_lib.Prelude.{
  ℕ, ltb, true, false, not, ◌&&◌, ◌||◌, List, [], ◌∷◌, ◌++◌, Option, none, some, if◌then◌else◌,
  ◌>>=◌, ◌⊎◌, Name, name_eq,
}
use resolver_lib.Dns.{
  Header, Rr, soa, ns, header, Pointer, Msg, Dns, GoError, type_soa, type_ds, empty_response,
}
use resolver_lib.Dnssec.Records.{extract_records, records_of_type_exist}
use resolver_lib.Resolver.Response.{Response, Query, response_err, response_msg}
use resolver_lib.Resolver.Domain.{Domain, next, gap}
use resolver_lib.Resolver.Zones.{StoredZone, Zones, add}

abbrev pub as_ns : Rr → Option Pointer
as_ns (ns r) = some r
as_ns _ = none

abbrev pub as_soa : Rr → Option Header
as_soa (soa h) = some h
as_soa _ = none

-- What a request reads and writes: the outside world, the known zones, the number of rounds so far
-- in all calls for the request, and, with the DO flag, what was sent to the authenticator.
pub record State (S : Type 0) : Type 0 where
  pub outside : S
  pub zones : Zones
  pub counter : ℕ
  pub sent : Option (List (StoredZone × Msg))

-- `panic("invalid clone")` is `none`. The pool, and with it the expiry, is shared.
unfoldable pub clone : Dns → StoredZone → Name → Name → Option StoredZone
clone dns z name parent =
    if name_eq (dns.canonical_name name) (dns.canonical_name parent)
      || not (dns.is_sub_domain parent name)
    then none
    else some (record {
      name = dns.canonical_name name;
      parent = dns.canonical_name parent;
      expired = z.expired;
    })

-- The owner that is chosen among records: below the zone and with the most labels, the first of
-- those.
unfoldable pub next_owner : Dns → Name → Name → List Rr → Name
next_owner dns zone best [] = best
next_owner dns zone best (rr ∷ records) =
    let option = (header rr).name in
    next_owner dns zone
      (if not (name_eq best option)
          && (dns.is_sub_domain zone option && ltb (dns.count_label best) (dns.count_label option))
        then option
        else best)
      records

-- The table of functions of the struct `Resolver` that a request calls, and what a zone answers.
-- `clock` reads the time. `create_zone` is given the name, the parent, the NS records and the additional section.
pub record Funcs (S : Type 0) : Type 0 where
  pub clock : S → ℕ
  pub ask : S → StoredZone → Query → S × Option Response
  pub create_zone :
      State S → Name → Name → List Pointer → List Rr → State S × (GoError ⊎ StoredZone)
  pub finalise : State S → Msg → Response → State S × Response

abbrev pub root_name : Name
root_name = b'.' ∷ []

module _ (dns : Dns) {S : Type 0} (funcs : Funcs S) where
  -- `zoneImpl.soa`: the record, or nil, and the error, or nil. The last error is a text of its own.
  unfoldable pub find_soa : GoError → S → StoredZone → Name → S × Option Header × Option GoError
  find_soa not_single s z name =
      let query : Query = record {
        question = record { qname = name; qtype = type_soa };
        dnssec_ok = false;
      } in
      let s' = (funcs.ask s z query).0 in
      let r = (funcs.ask s z query).1 in
      elim (response_msg r) as (λ _. S × Option Header × Option GoError) [
        | none ↦ (s', none, some empty_response)
        | some m ↦ elim (response_err r) as (λ _. S × Option Header × Option GoError) [
          | some e ↦ (s', none, some e)
          | none ↦
              if not (records_of_type_exist m.answer type_soa)
              then (s', none, none)
              else elim (extract_records as_soa m.answer)
                  as (λ _. S × Option Header × Option GoError) [
                    | [] ↦ (s', none, some not_single)
                    | h ∷ hs ↦ elim hs as (λ _. S × Option Header × Option GoError) [
                      | [] ↦ (s', some h, none)
                      | _ ∷ _ ↦ (s', none, some not_single)
                    ]
                  ]
        ]
      ]

  -- `addDelegationSignerLink`, where there is an authenticator. The request for the DS records, which
  -- runs on its own, is made at once here; that for the keys only fills a cache and is left out.
  unfoldable pub add_delegation_signer_link : State S → StoredZone → Name → State S
  add_delegation_signer_link st z qname =
      let query : Query = record {
        question = record { qname = qname; qtype = type_ds };
        dnssec_ok = true;
      } in
      let r = (funcs.ask st.outside z query).1 in
      let asked = record st { outside = (funcs.ask st.outside z query).0 } in
      elim st.sent as (λ _. State S) [
        | none ↦ st
        | some queue ↦ elim (response_msg r) as (λ _. State S) [
          | none ↦ asked
          | some m ↦ elim (response_err r) as (λ _. State S) [
            | some e ↦ asked
            | none ↦ record asked { sent = some (queue ++ (z, m) ∷ []) }
          ]
        ]
      ]

  -- `addResponse`, where there is an authenticator.
  abbrev pub add_response : State S → StoredZone → Msg → State S
  add_response st z m = elim st.sent as (λ _. State S) [
    | none ↦ st
    | some queue ↦ record st { sent = some (queue ++ (z, m) ∷ []) }
  ]

  -- The loop of `checkForMissingZones`; `none` is a panic.
  unfoldable pub add_missing :
      GoError → State S → Domain → StoredZone → List Name → Option (State S × Domain × StoredZone)
  unfolding clone find_soa add_delegation_signer_link
  add_missing not_single st d z [] = some (st, d, z)
  add_missing not_single st d z (name ∷ names) =
      let found = find_soa not_single st.outside z name in
      let st' = record st { outside = found.0 } in
      let skip = add_missing not_single st' (next d) z names in
      let take : Option (State S × Domain × StoredZone) = clone dns z name z.name >>= λ z'.
      (let linked = add_delegation_signer_link st' z z'.name in
        add_missing not_single (record linked { zones = add dns linked.zones z' }) (next d) z'
          names) in
      elim found.2 as (λ _. Option (State S × Domain × StoredZone)) [
        | some e ↦ skip
        | none ↦ elim found.1 as (λ _. Option (State S × Domain × StoredZone)) [
          | none ↦ skip
          | some h ↦ take
        ]
      ]

  unfoldable pub check_for_missing_zones :
      GoError → State S → Domain → StoredZone → Msg → Option (State S × Domain × StoredZone)
  unfolding next_owner add_missing
  check_for_missing_zones not_single st d z m =
      let owner = next_owner dns z.name root_name (m.ns_section ++ m.answer) in
      if name_eq owner root_name
      then some (st, d, z)
      else gap dns d owner >>= λ names. add_missing not_single st d z names
