-- ===== src/Resolver/Pool/Expiry.antt =====
-- How long a pool of pool.go is kept.
use Prim.Native.Nat.{min}
use mathlib.Core.List.{append-nil, append_assoc}
use resolver_lib.Prelude.{
  All-mono, ℕ, ◌+◌, ◌≤◌, ◌<◌, ◌≡◌, refl, ap, sym, ◌∙◌, true, ltb, List, [], ◌∷◌, ◌++◌, All, arith,
  Name,
}
use resolver_lib.Dns.{Rr, Pointer, Dns}
use resolver_lib.Resolver.Pool.{
  NameserverPool, Gathered, find_addresses_for_hostname, place, place_nameservers,
  new_nameserver_pool, place_hosts, enrich,
}

module _ (dns : Dns) (max_allowed_ttl : ℕ) where
  place_ttl :
      (records : List Rr) (hostname : Name) (g : Gathered)
      → (place dns max_allowed_ttl records hostname g).ttl ≤ g.ttl
  unfolding place
  place_ttl records hostname g = ground arith

  place_nameservers_ttl :
      (extra : List Rr) (g : Gathered) (nameservers : List Pointer)
      → ((place_nameservers dns max_allowed_ttl extra g nameservers).ttl ≤ g.ttl)
        × All
            (λ r. (place_nameservers dns max_allowed_ttl extra g nameservers).ttl ≤ r.header.ttl)
            nameservers
  unfolding place_nameservers
  place_nameservers_ttl extra g [] = (omega arith, tt)
  place_nameservers_ttl extra g (rr ∷ nameservers) =
      let g' = record g { ttl = min rr.header.ttl g.ttl } in
      let p = place dns max_allowed_ttl extra (dns.canonical_name rr.value) g' in
      let b = place_ttl extra (dns.canonical_name rr.value) g' in
      let (l, each) = place_nameservers_ttl extra p nameservers in
      (omega arith, (omega arith, each))

  -- A new pool is kept no longer than the maximum that is allowed, and no longer than any of the NS
  -- records that it was made from.
  pub new_nameserver_pool-expires :
      (now : ℕ) (nameservers : List Pointer) (extra : List Rr)
      → ((new_nameserver_pool dns max_allowed_ttl now nameservers extra).expires
          ≤ now + max_allowed_ttl)
        × All
            (λ r.
              (new_nameserver_pool dns max_allowed_ttl now nameservers extra).expires
              ≤ now + r.header.ttl)
            nameservers
  unfolding new_nameserver_pool
  new_nameserver_pool-expires now nameservers extra =
      let g : Gathered = record { without = []; ipv4 = []; ipv6 = []; ttl = max_allowed_ttl } in
      let t = (place_nameservers dns max_allowed_ttl extra g nameservers).ttl in
      let (l, each) = place_nameservers_ttl extra g nameservers in
      (
        omega arith,
        All-mono (λ r. t ≤ r.header.ttl) (λ r. now + t ≤ now + r.header.ttl) nameservers
            (λ r b. omega arith) each,
      )

  -- None of the records is an address of the host.
  abbrev pub Unknown : List Rr → Name → Type 0
  Unknown records hostname =
      let f = find_addresses_for_hostname dns max_allowed_ttl hostname records in
      (f.a_records ≡ []) × (f.aaaa_records ≡ [])

  place_hosts-Unknown :
      (records : List Rr) (g : Gathered) (hosts : List Name)
      → All (Unknown records) hosts
      → place_hosts dns max_allowed_ttl records g hosts ≡ record g { without = g.without ++ hosts }
  unfolding place_hosts place
  place_hosts-Unknown records g [] h =
      ap (λ z. record g { without = z }) (sym (append-nil g.without))
  place_hosts-Unknown records g (hostname ∷ hosts) h =
      let g' = record g { without = g.without ++ hostname ∷ [] } in
      let e : place dns max_allowed_ttl records hostname g ≡ g' = simp (h.0.0, h.0.1) refl in
      ap (λ z. place_hosts dns max_allowed_ttl records z hosts) e
      ∙ place_hosts-Unknown records g' hosts h.1
      ∙ ap (λ z. record g { without = z }) (append_assoc g.without (hostname ∷ []) hosts)

  -- Enriching a pool that expires with records that have no address for any of its hosts leaves the
  -- servers and the hosts as they are, and has the pool expire the maximal TTL from now, whatever
  -- its expiry was: it is prolonged beyond the TTLs of the records that it was made from.
  pub enrich_prolongs :
      (now : ℕ) (r : Rr) (records : List Rr) (pool : NameserverPool)
      → 0 < pool.expires
      → All (Unknown (r ∷ records)) pool.hosts_without_addresses
      → let pool' = enrich dns max_allowed_ttl now (r ∷ records) pool in
        (pool'.hosts_without_addresses ≡ pool.hosts_without_addresses)
        × (pool'.ipv4 ≡ pool.ipv4)
        × (pool'.ipv6 ≡ pool.ipv6)
        × (pool'.expires ≡ now + max_allowed_ttl)
  unfolding enrich
  enrich_prolongs now r records pool pos h =
      let g : Gathered = record {
        without = [];
        ipv4 = pool.ipv4;
        ipv6 = pool.ipv6;
        ttl = max_allowed_ttl;
      } in
      let e = place_hosts-Unknown (r ∷ records) g pool.hosts_without_addresses h in
      let t : ltb 0 pool.expires ≡ true = ground arith in
      (
        ap (λ z. z.without) e,
        ap (λ z. z.ipv4) e,
        ap (λ z. z.ipv6) e,
        simp t (ap (λ z. now + z.ttl) e),
      )
