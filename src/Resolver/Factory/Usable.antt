-- ===== src/Resolver/Factory/Usable.antt =====
-- What is true of a zone that zone_factory.go makes.
use resolver_lib.Prelude.{
  ℕ, ◌+◌, ◌≤◌, ◌<◌, ◌≡◌, refl, sym, ap, subst, inl, inr, Bool, true, false, not, ◌&&◌, ◌||◌, List,
  [], ◌∷◌, ◌++◌, map, Option, none, some, ◌⊎◌, if◌then◌else◌, Bool-cases, Option-cases, arith, Name,
  name_eq, length, length-append,
}
use resolver_lib.Dns.{Rr, Pointer, Dns, GoError, failed_enriching_pool}
use resolver_lib.Resolver.Response.{Response, Query}
use resolver_lib.Resolver.Nameserver.{Nameserver}
use resolver_lib.Resolver.Pool.{
  find_addresses_for_hostname, is_nil, new_nameserver, NameserverPool, NameserverPoolStatus,
  primed_but_needs_enhancing, pool_primed, pool_has_hostnames_but_no_ip_addresses, pool_empty,
  pool_expired, status, expired, Gathered, place, place_hosts, enrich, new_nameserver_pool,
}
use resolver_lib.Resolver.Zones.{StoredZone}
use resolver_lib.Resolver.Factory.{
  Conditions, good_answer, is_good, queries, enrich_from, enrich_pool, prime, create_zone,
}

-- There is an address that can be asked.
abbrev pub IsUsable : Bool → NameserverPool → Type 0
IsUsable v p = 0 < length p.ipv4 + (if v then length p.ipv6 else 0)

status-IsUsable :
    (desired : ℕ) (v : Bool) (p : NameserverPool)
    → is_good (status desired v p) ≡ true
    → IsUsable v p
unfolding status
status-IsUsable desired v p h = ground arith

abbrev Grows : NameserverPool → NameserverPool → Type 0
Grows p q = (length p.ipv4 ≤ length q.ipv4) × (length p.ipv6 ≤ length q.ipv6)

Grows-IsUsable : (v : Bool) (p q : NameserverPool) → Grows p q → IsUsable v p → IsUsable v q
Grows-IsUsable true p q g h = omega (arith, g.0, g.1)
Grows-IsUsable false p q g h = omega (arith, g.0, g.1)

longer : (xs ys : List Nameserver) → length xs ≤ length (xs ++ ys)
longer xs ys = omega (arith, length-append xs ys)

module _ (dns : Dns) (max_allowed_ttl : ℕ) where
  abbrev More : Gathered → Gathered → Type 0
  More g h = (length g.ipv4 ≤ length h.ipv4) × (length g.ipv6 ≤ length h.ipv6)

  place-More :
      (records : List Rr) (host : Name) (g : Gathered)
      → More g (place dns max_allowed_ttl records host g)
  unfolding place
  place-More records host g =
      let f = find_addresses_for_hostname dns max_allowed_ttl host records in
      elim (Bool-cases (is_nil f.a_records && is_nil f.aaaa_records)) [
        | inl t ↦ rw t (omega arith, omega arith)
        | inr e ↦ rw e (
          longer g.ipv4 (map new_nameserver f.a_records),
          longer g.ipv6 (map new_nameserver f.aaaa_records),
        )
      ]

  place_hosts-More :
      (records : List Rr) (g : Gathered) (hosts : List Name)
      → More g (place_hosts dns max_allowed_ttl records g hosts)
  unfolding place_hosts
  place_hosts-More records g [] = (omega arith, omega arith)
  place_hosts-More records g (host ∷ hosts) =
      let a = place-More records host g in
      let b = place_hosts-More records (place dns max_allowed_ttl records host g) hosts in
      (omega (arith, a.0, b.0), omega (arith, a.1, b.1))

  enrich-Grows :
      (now : ℕ) (records : List Rr) (pool : NameserverPool)
      → Grows pool (enrich dns max_allowed_ttl now records pool)
  unfolding enrich
  enrich-Grows now [] pool = (omega arith, omega arith)
  enrich-Grows now (r ∷ records) pool =
      place_hosts-More (r ∷ records)
        (record { without = []; ipv4 = pool.ipv4; ipv6 = pool.ipv6; ttl = max_allowed_ttl })
        pool.hosts_without_addresses

module _ {S : Type 0} (dns : Dns) (c : Conditions)
    (exchange : S → Query → S × Option Response) where
  -- The pool at the first good answer only gains addresses.
  enrich_from-Grows :
      (qs : List Query) (s : S) (first : Option NameserverPool) (pool : NameserverPool)
      → ((p : NameserverPool) → first ≡ some p → Grows p pool)
      → let e = enrich_from dns c exchange s first pool qs in
        Grows pool e.pool × ((p : NameserverPool) → e.first ≡ some p → Grows p e.pool)
  unfolding enrich_from
  enrich_from-Grows [] s first pool h = ((omega arith, omega arith), h)
  enrich_from-Grows (q ∷ qs) s first pool h =
      let s' = (exchange s q).0 in
      let records = good_answer (exchange s q).1 in
      let pool' = enrich dns c.max_allowed_ttl c.now records pool in
      let g = enrich-Grows dns c.max_allowed_ttl c.now records pool in
      let first' = elim records as (λ _. Option NameserverPool) [
        | [] ↦ first
        | _ ∷ _ ↦ elim first as (λ _. Option NameserverPool) [ some p ↦ some p | none ↦ some pool' ]
      ] in
      let (a, b) = enrich_from-Grows qs s' first' pool' (noted records first pool pool' g h) in
      ((omega (arith, g.0, a.0), omega (arith, g.1, a.1)), b)
    where
      noted :
          (records : List Rr) (first : Option NameserverPool) (pool pool' : NameserverPool)
          → Grows pool pool'
          → ((p : NameserverPool) → first ≡ some p → Grows p pool)
          → (p : NameserverPool)
          → elim records as (λ _. Option NameserverPool) [
            | [] ↦ first
            | _ ∷ _ ↦ elim first as (λ _. Option NameserverPool) [
              | some p ↦ some p
              | none ↦ some pool'
            ]
          ]
            ≡ some p
          → Grows p pool'
      noted [] first pool pool' g h p e =
          let k = h p e in (omega (arith, g.0, k.0), omega (arith, g.1, k.1))
      noted (_ ∷ _) (some x) pool pool' g h p e =
          let k = h p e in (omega (arith, g.0, k.0), omega (arith, g.1, k.1))
      noted (_ ∷ _) none pool pool' g h p e =
          let same : pool' ≡ p = cc in subst (λ z. Grows z pool') same (omega arith, omega arith)

  concluded :
      (hosts : List Name) (first : Option NameserverPool) (s s' : S) (pool last : NameserverPool)
      → Grows pool last
      → ((p : NameserverPool) → first ≡ some p → Grows p last)
      → let out = elim hosts as (λ _. S × NameserverPool × Option GoError) [
        | [] ↦ (s, pool, some failed_enriching_pool)
        | _ ∷ _ ↦ elim first as (λ _. S × NameserverPool × Option GoError) [
          | none ↦ (s', last, some failed_enriching_pool)
          | some p ↦
              if is_good (status c.desired c.ipv6_available p)
              then (s', last, none)
              else (s', last, some failed_enriching_pool)
        ]
      ] in
        Grows pool out.1 × (out.2 ≡ none → IsUsable c.ipv6_available out.1)
  concluded [] first s s' pool last g h = ((omega arith, omega arith), λ e. cc)
  concluded (_ ∷ _) none s s' pool last g h = (g, λ e. cc)
  concluded (_ ∷ _) (some p) s s' pool last g h =
      elim (Bool-cases (is_good (status c.desired c.ipv6_available p))) [
        | inl t ↦ rw t (
          g,
          λ e.
              Grows-IsUsable c.ipv6_available p last (h p refl)
                (status-IsUsable c.desired c.ipv6_available p t),
        )
        | inr f ↦ rw f (g, λ e. cc)
      ]

  enrich_pool-IsUsable :
      (s : S) (pool : NameserverPool)
      → let out = enrich_pool dns c exchange s pool in
        Grows pool out.1 × (out.2 ≡ none → IsUsable c.ipv6_available out.1)
  unfolding enrich_pool
  enrich_pool-IsUsable s pool =
      let e = enrich_from dns c exchange s none pool (queries c pool.hosts_without_addresses) in
      let (a, b) =
        enrich_from-Grows (queries c pool.hosts_without_addresses) s none pool (λ p h. cc) in
      concluded pool.hosts_without_addresses e.first s e.outside pool e.pool a b

  -- What is made of a pool, where something is made.
  Makes : Name → Name → S × (GoError ⊎ (StoredZone × NameserverPool)) → Type 0
  Makes name parent out =
      (z : StoredZone) (q : NameserverPool)
      → out.1 ≡ inr (z, q)
      → (z.name ≡ name) × (z.parent ≡ parent) × IsUsable c.ipv6_available q

  made_zone :
      (s : S) (z : StoredZone) (q : NameserverPool)
      → IsUsable c.ipv6_available q
      → Makes z.name z.parent (s, inr (z, q))
  unfolding Makes
  made_zone s z q h z' q' e =
      let same : ◌≡◌ {A = StoredZone × NameserverPool} (z, q) (z', q') = cc in
      let one : z ≡ z' = ap (λ (x : StoredZone × NameserverPool). x.0) same in
      (
        sym (ap (λ x. x.name) one),
        sym (ap (λ x. x.parent) one),
        subst (IsUsable c.ipv6_available) (ap (λ (x : StoredZone × NameserverPool). x.1) same) h,
      )

  prime-Makes :
      (s : S) (name parent : Name) (pool : NameserverPool) (st : NameserverPoolStatus)
      → status c.desired c.ipv6_available pool ≡ st
      → Makes name parent (prime dns c exchange s name parent pool st)
  unfolding prime Makes queries
  prime-Makes s name parent pool pool_primed e =
      made_zone s (record { name = name; parent = parent; expired = λ now. expired now pool }) pool
        (status-IsUsable c.desired c.ipv6_available pool (ap is_good e))
  prime-Makes s name parent pool primed_but_needs_enhancing e =
      let h = status-IsUsable c.desired c.ipv6_available pool (ap is_good e) in
      let z : StoredZone = record {
        name = name;
        parent = parent;
        expired = λ now. expired now pool;
      } in
      elim (Bool-cases c.lazy_enrichment) [
        | inl t ↦ rw t (made_zone s z pool h)
        | inr f ↦
            let out = enrich_pool dns c exchange s pool in
            rw f (
              made_zone out.0 (record z { expired = λ now. expired now out.1 }) out.1
                (Grows-IsUsable c.ipv6_available pool out.1 (enrich_pool-IsUsable s pool).0 h))
      ]
  prime-Makes s name parent pool pool_has_hostnames_but_no_ip_addresses e =
      let out = enrich_pool dns c exchange s pool in
      elim (Option-cases out.2) [
        | inl n ↦
            rw (n, prime)
              (made_zone out.0
                (record { name = name; parent = parent; expired = λ now. expired now out.1 }) out.1
                ((enrich_pool-IsUsable s pool).1 n))
        | inr (x, n) ↦ rw (n, prime) (λ z q k. cc)
      ]
  prime-Makes s name parent pool pool_empty e = λ z q k. cc
  prime-Makes s name parent pool pool_expired e = λ z q k. cc

  -- A zone that is made is named as it was to be, strictly below its parent, and has the address of a
  -- server that can be asked, whatever the requests for addresses came to.
  pub create_zone-IsUsable :
      (s : S) (name parent : Name) (nameservers : List Pointer) (extra : List Rr) (z : StoredZone)
      (q : NameserverPool)
      → (create_zone dns c exchange s name parent nameservers extra).1 ≡ inr (z, q)
      → (z.name ≡ dns.canonical_name name)
        × (z.parent ≡ dns.canonical_name parent)
        × (name_eq z.name z.parent ≡ false)
        × (dns.is_sub_domain z.parent z.name ≡ true)
        × IsUsable c.ipv6_available q
  unfolding create_zone Makes
  create_zone-IsUsable s name parent nameservers extra z q h =
      let name' = dns.canonical_name name in
      let parent' = dns.canonical_name parent in
      let pool = new_nameserver_pool dns c.max_allowed_ttl c.now nameservers extra in
      elim (Bool-cases (name_eq name' parent' || not (dns.is_sub_domain parent' name'))) [
        | inl t ↦ cc (rw t at h)
        | inr f ↦
            let (a, b, u) =
              prime-Makes s name' parent' pool (status c.desired c.ipv6_available pool) refl z q
                (rw f at h) in
            let distinct : name_eq name' parent' ≡ false = ground arith in
            let below : dns.is_sub_domain parent' name' ≡ true = ground arith in
            (a, b, rw (a, b) distinct, rw (a, b) below, u)
      ]
