-- ===== src/Resolver/Pool.antt =====
-- pool.go: the nameservers of a zone. The lock is left out: each operation is one step.
pub mod Rotation
pub mod Counts
pub mod Expiry
pub mod Exchange
use Prim.Native.Nat.{min}
use resolver_lib.Prelude.{
  ℕ, ◌+◌, ◌%◌, ◌^◌, ◌==◌, ltb, Bool, true, false, not, ◌&&◌, ◌||◌, List, [], ◌∷◌, ◌++◌, map, Option,
  none, some, if◌then◌else◌, Name, name_eq, length, get_elem?,
}
use resolver_lib.Dns.{Rr, a, aaaa, header, Pointer, Dns}
use resolver_lib.Resolver.Nameserver.{Nameserver}

-- `PoolExpired` is never returned.
pub data NameserverPoolStatus : Type 0 where
  pool_empty pool_expired pool_has_hostnames_but_no_ip_addresses : NameserverPoolStatus
  primed_but_needs_enhancing pool_primed : NameserverPoolStatus

-- `expires` is in seconds, 0 for a pool that does not expire.
pub record NameserverPool : Type 0 where
  pub hosts_without_addresses : List Name
  pub ipv4 : List Nameserver
  pub ipv4_next : ℕ
  pub ipv4_count : ℕ
  pub ipv6 : List Nameserver
  pub ipv6_next : ℕ
  pub ipv6_count : ℕ
  pub expires : ℕ

abbrev pub has_ipv4 : NameserverPool → Bool
has_ipv4 pool = ltb 0 pool.ipv4_count

abbrev pub has_ipv6 : NameserverPool → Bool
has_ipv6 pool = ltb 0 pool.ipv6_count

-- The next server in turn.
unfoldable pub get_ipv4 : NameserverPool → NameserverPool × Option Nameserver
get_ipv4 pool =
    let at = pool.ipv4_next % pool.ipv4_count in
    if has_ipv4 pool
    then (record pool { ipv4_next = (at + 1) % 2 ^ 32 }, get_elem? pool.ipv4 at)
    else (pool, none)

unfoldable pub get_ipv6 : NameserverPool → NameserverPool × Option Nameserver
get_ipv6 pool =
    let at = pool.ipv6_next % pool.ipv6_count in
    if has_ipv6 pool
    then (record pool { ipv6_next = (at + 1) % 2 ^ 32 }, get_elem? pool.ipv6 at)
    else (pool, none)

unfoldable pub expired : ℕ → NameserverPool → Bool
expired now pool = ltb 0 pool.expires && ltb pool.expires now

-- The second argument is whether there is IPv6, the first how many servers are desired.
unfoldable pub status : ℕ → Bool → NameserverPool → NameserverPoolStatus
status desired ipv6_available pool =
    let hosts = length pool.hosts_without_addresses in
    let total = length pool.ipv4 + (if ipv6_available then length pool.ipv6 else 0) in
    if (length pool.ipv4 == 0) && (length pool.ipv6 == 0) && (hosts == 0)
    then pool_empty
    else if total == 0
    then pool_has_hostnames_but_no_ip_addresses
    else if ltb total desired && ltb 0 hosts
    then primed_but_needs_enhancing
    else pool_primed

unfoldable pub update_ip_count : NameserverPool → NameserverPool
update_ip_count pool = record pool {
  ipv4_count = length pool.ipv4 % 2 ^ 32;
  ipv6_count = length pool.ipv6 % 2 ^ 32;
}

-- The addresses of a host among the records, and the lowest TTL of them.
pub record Found : Type 0 where
  pub a_records : List Pointer
  pub aaaa_records : List Pointer
  pub ttl : ℕ

-- A record of the host.
abbrev note : Rr → Found → Found
note (a r) f = record f { a_records = f.a_records ++ r ∷ []; ttl = min r.header.ttl f.ttl }
note (aaaa r) f = record f { aaaa_records = f.aaaa_records ++ r ∷ []; ttl = min r.header.ttl f.ttl }
note _ f = f

-- The loop of `findAddressesForHostname`, with what was found so far.
unfoldable pub find_from : Dns → Name → Found → List Rr → Found
find_from dns hostname f [] = f
find_from dns hostname f (rr ∷ records) =
    find_from dns hostname
      (if name_eq (dns.canonical_name (header rr).name) hostname then note rr f else f) records

unfoldable pub find_addresses_for_hostname : Dns → ℕ → Name → List Rr → Found
unfolding find_from
find_addresses_for_hostname dns max_allowed_ttl hostname records =
    find_from dns hostname (record { a_records = []; aaaa_records = []; ttl = max_allowed_ttl })
      records

abbrev pub is_nil : List Pointer → Bool
is_nil [] = true
is_nil (_ ∷ _) = false

-- `newNameserver`, for an address record.
abbrev pub new_nameserver : Pointer → Nameserver
new_nameserver r = record { hostname = r.header.name; addr = r.value }

-- What the loops over the host names build up.
pub record Gathered : Type 0 where
  pub without : List Name
  pub ipv4 : List Nameserver
  pub ipv6 : List Nameserver
  pub ttl : ℕ

-- The round for a host, the same in `newNameserverPool` and `enrich`.
unfoldable pub place : Dns → ℕ → List Rr → Name → Gathered → Gathered
unfolding find_addresses_for_hostname
place dns max_allowed_ttl records hostname g =
    let f = find_addresses_for_hostname dns max_allowed_ttl hostname records in
    if is_nil f.a_records && is_nil f.aaaa_records
    then record g { without = g.without ++ hostname ∷ [] }
    else record g {
      ttl = min f.ttl g.ttl;
      ipv4 = g.ipv4 ++ map new_nameserver f.a_records;
      ipv6 = g.ipv6 ++ map new_nameserver f.aaaa_records;
    }

-- The loop of `newNameserverPool` over the NS records.
unfoldable pub place_nameservers : Dns → ℕ → List Rr → Gathered → List Pointer → Gathered
unfolding place
place_nameservers dns max_allowed_ttl extra g [] = g
place_nameservers dns max_allowed_ttl extra g (rr ∷ nameservers) =
    place_nameservers dns max_allowed_ttl extra
      (place dns max_allowed_ttl extra (dns.canonical_name rr.value)
        (record g { ttl = min rr.header.ttl g.ttl }))
      nameservers

unfoldable pub new_nameserver_pool : Dns → ℕ → ℕ → List Pointer → List Rr → NameserverPool
unfolding place_nameservers update_ip_count
new_nameserver_pool dns max_allowed_ttl now nameservers extra =
    let g =
      place_nameservers dns max_allowed_ttl extra
        (record { without = []; ipv4 = []; ipv6 = []; ttl = max_allowed_ttl }) nameservers in
    update_ip_count (record {
      hosts_without_addresses = g.without;
      ipv4 = g.ipv4;
      ipv4_next = 0;
      ipv4_count = 0;
      ipv6 = g.ipv6;
      ipv6_next = 0;
      ipv6_count = 0;
      expires = now + g.ttl;
    })

-- The loop of `enrich` over the host names without addresses.
unfoldable pub place_hosts : Dns → ℕ → List Rr → Gathered → List Name → Gathered
unfolding place
place_hosts dns max_allowed_ttl records g [] = g
place_hosts dns max_allowed_ttl records g (hostname ∷ hosts) =
    place_hosts dns max_allowed_ttl records (place dns max_allowed_ttl records hostname g) hosts

unfoldable pub enrich : Dns → ℕ → ℕ → List Rr → NameserverPool → NameserverPool
unfolding place_hosts update_ip_count
enrich dns max_allowed_ttl now [] pool = pool
enrich dns max_allowed_ttl now (r ∷ records) pool =
    let g =
      place_hosts dns max_allowed_ttl (r ∷ records)
        (record { without = []; ipv4 = pool.ipv4; ipv6 = pool.ipv6; ttl = max_allowed_ttl })
        pool.hosts_without_addresses in
    update_ip_count (record pool {
      hosts_without_addresses = g.without;
      ipv4 = g.ipv4;
      ipv6 = g.ipv6;
      expires = if ltb 0 pool.expires then now + g.ttl else pool.expires;
    })
