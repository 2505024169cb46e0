-- ===== src/Resolver/Factory.antt =====
-- zone_factory.go: making a zone from a referral, and finding addresses for its servers. The resolver
-- is a function that threads a state of its own. Requests that run on beside the caller are made at
-- once; the caller goes by the pool as the first good answer leaves it, and a wait in which none
-- comes is an error, as the time-out is.
pub mod Usable
use resolver_lib.Prelude.{
  ℕ, zero, suc, Bool, true, false, not, ◌||◌, List, [], ◌∷◌, ◌++◌, map, Option, none, some, ◌⊎◌,
  inl, inr, if◌then◌else◌, Name, name_eq,
}
use resolver_lib.Dns.{
  Rr, Pointer, Dns, GoError, type_a, type_aaaa, failed_creating_zone_and_pool,
  failed_enriching_pool,
}
use resolver_lib.Resolver.Response.{Response, Query, response_err, response_msg}
use resolver_lib.Resolver.Pool.{
  NameserverPool, NameserverPoolStatus, primed_but_needs_enhancing, pool_primed,
  pool_has_hostnames_but_no_ip_addresses, pool_empty, pool_expired, status, expired,
  new_nameserver_pool, enrich,
}
use resolver_lib.Resolver.Zones.{StoredZone}

-- What the factory reads of its surroundings: package variables, whether there is IPv6, the clock.
pub record Conditions : Type 0 where
  pub desired : ℕ
  pub lazy_enrichment : Bool
  pub ipv6_available : Bool
  pub max_allowed_ttl : ℕ
  pub now : ℕ

abbrev first_hosts : ℕ → List Name → List Name
first_hosts zero hosts = []
first_hosts (suc n) [] = []
first_hosts (suc n) (h ∷ hosts) = h ∷ first_hosts n hosts

abbrev query_for : ℕ → Name → Query
query_for t host = record { question = record { qname = host; qtype = t }; dnssec_ok = false }

-- The requests, in their order.
unfoldable pub queries : Conditions → List Name → List Query
queries c hosts =
    let ask : ℕ → List Query = λ t. map (query_for t) (first_hosts c.desired hosts) in
    ask type_a ++ (if c.ipv6_available then ask type_aaaa else [])

-- The answer section of a response without an error, which is empty for any other.
unfoldable pub good_answer : Option Response → List Rr
good_answer r = elim (response_err r) [
  | some e ↦ []
  | none ↦ elim (response_msg r) [ none ↦ [] | some m ↦ m.answer ]
]

abbrev pub is_good : NameserverPoolStatus → Bool
is_good pool_primed = true
is_good primed_but_needs_enhancing = true
is_good _ = false

-- The state, the pool at the first good answer, if there was one, and the pool at the end.
pub record Enriched (S : Type 0) : Type 0 where
  pub outside : S
  pub first : Option NameserverPool
  pub pool : NameserverPool

module _ {S : Type 0} (dns : Dns) (c : Conditions)
    (exchange : S → Query → S × Option Response) where
  -- The two loops of `enrichPool`.
  unfoldable pub enrich_from : S → Option NameserverPool → NameserverPool → List Query → Enriched S
  enrich_from s first pool [] = record { outside = s; first = first; pool = pool }
  enrich_from s first pool (q ∷ qs) =
      let s' = (exchange s q).0 in
      let records = good_answer (exchange s q).1 in
      let pool' = enrich dns c.max_allowed_ttl c.now records pool in
      enrich_from s'
        (elim records as (λ _. Option NameserverPool) [
          | [] ↦ first
          | _ ∷ _ ↦ elim first as (λ _. Option NameserverPool) [
            | some p ↦ some p
            | none ↦ some pool'
          ]
        ])
        pool' qs

  unfoldable pub enrich_pool : S → NameserverPool → S × NameserverPool × Option GoError
  unfolding enrich_from
  enrich_pool s pool =
      let e = enrich_from s none pool (queries c pool.hosts_without_addresses) in
      elim pool.hosts_without_addresses as (λ _. S × NameserverPool × Option GoError) [
        | [] ↦ (s, pool, some failed_enriching_pool)
        | _ ∷ _ ↦ elim e.first as (λ _. S × NameserverPool × Option GoError) [
          | none ↦ (e.outside, e.pool, some failed_enriching_pool)
          | some p ↦
              if is_good (status c.desired c.ipv6_available p)
              then (e.outside, e.pool, none)
              else (e.outside, e.pool, some failed_enriching_pool)
        ]
      ]

  -- The zone with its pool.
  abbrev make : Name → Name → NameserverPool → StoredZone × NameserverPool
  make name parent pool =
      (record { name = name; parent = parent; expired = λ now. expired now pool }, pool)

  -- By the status of a new pool.
  unfoldable pub prime :
      S
      → Name
      → Name
      → NameserverPool
      → NameserverPoolStatus
      → S × (GoError ⊎ (StoredZone × NameserverPool))
  unfolding enrich_pool
  prime s name parent pool st =
      let (s', pool', e) = enrich_pool s pool in
      elim st as (λ _. S × (GoError ⊎ (StoredZone × NameserverPool))) [
        | primed_but_needs_enhancing ↦
            if c.lazy_enrichment
            then (s, inr (make name parent pool))
            else (s', inr (make name parent pool'))
        | pool_primed ↦ (s, inr (make name parent pool))
        | pool_has_hostnames_but_no_ip_addresses ↦
            elim e as (λ _. S × (GoError ⊎ (StoredZone × NameserverPool))) [
              | some x ↦ (s', inl x)
              | none ↦ (s', inr (make name parent pool'))
            ]
        | pool_empty ↦ (s, inl failed_creating_zone_and_pool)
        | pool_expired ↦ (s, inl failed_creating_zone_and_pool)
      ]

  unfoldable pub create_zone :
      S → Name → Name → List Pointer → List Rr → S × (GoError ⊎ (StoredZone × NameserverPool))
  unfolding prime
  create_zone s name parent nameservers extra =
      let name' = dns.canonical_name name in
      let parent' = dns.canonical_name parent in
      let pool = new_nameserver_pool dns c.max_allowed_ttl c.now nameservers extra in
      if name_eq name' parent' || not (dns.is_sub_domain parent' name')
      then (s, inl failed_creating_zone_and_pool)
      else prime s name' parent' pool (status c.desired c.ipv6_available pool)
