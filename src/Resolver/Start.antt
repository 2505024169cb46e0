-- ===== src/Resolver/Start.antt =====
-- resolver.go: what `NewResolver` starts from. What the zone parser of the DNS package makes of the
-- file with the root servers is an argument: the records, in order, and the error that it stopped at;
-- `none` for it is a file that cannot be read. The functions that `NewResolver` sets up are `wired`
-- of Resolver/Wiring.antt, and `none` is a panic.
pub mod Rooted
use resolver_lib.Prelude.{ℕ, List, [], ◌∷◌, ◌++◌, Option, none, some, ◌⊎◌, inl, inr, ◌>>=◌}
use resolver_lib.Dns.{Rr, a, aaaa, Dns, GoError}
use resolver_lib.Dnssec.Env.{Env}
use resolver_lib.Dnssec.Anchors.{KeyDigest, load_anchors}
use resolver_lib.Resolver.Pool.{NameserverPool, new_nameserver, update_ip_count, expired}
use resolver_lib.Resolver.Zones.{StoredZone, Zones, add, count}
use resolver_lib.Resolver.Missing.{root_name}

-- The round of the loop for a record.
abbrev pub take_server : NameserverPool → Rr → NameserverPool
take_server pool (a r) = record pool { ipv4 = pool.ipv4 ++ new_nameserver r ∷ [] }
take_server pool (aaaa r) = record pool { ipv6 = pool.ipv6 ++ new_nameserver r ∷ [] }
take_server pool _ = pool

unfoldable pub take_servers : NameserverPool → List Rr → NameserverPool
take_servers pool [] = pool
take_servers pool (rr ∷ records) = take_servers (take_server pool rr) records

abbrev pub no_servers : NameserverPool
no_servers = record {
  hosts_without_addresses = [];
  ipv4 = [];
  ipv4_next = 0;
  ipv4_count = 0;
  ipv6 = [];
  ipv6_next = 0;
  ipv6_count = 0;
  expires = 0;
}

unfoldable pub build_root_server_pool : List Rr → Option GoError → GoError ⊎ NameserverPool
unfolding take_servers update_ip_count
build_root_server_pool records (some e) = inl e
build_root_server_pool records none = inr (update_ip_count (take_servers no_servers records))

-- The resolver: its zones, the pool of the root zone, and the environment of the validator.
pub record Resolver : Type 0 where
  pub zones : Zones
  pub root_pool : NameserverPool
  pub env : Env

-- With the pool, or the panic for its error.
abbrev pub start_with : Dns → ℕ → Env → GoError ⊎ NameserverPool → Option Resolver
start_with dns now env (inl e) = none
start_with dns now env (inr pool) = some (record {
  zones =
      add dns none
        (record { name = root_name; parent = []; expired = λ then_. expired then_ pool });
  root_pool = pool;
  env = env;
})

unfoldable pub new_resolver :
    Dns → ℕ → Option (List KeyDigest) → Option (List Rr × Option GoError) → Env → Option Resolver
unfolding load_anchors build_root_server_pool expired
new_resolver dns now anchors root_zone env = do
  env' ← load_anchors now anchors env
  parsed ← root_zone
  start_with dns now env' (build_root_server_pool parsed.0 parsed.1)

unfoldable pub count_zones : Resolver → ℕ
unfolding count
count_zones resolver = count resolver.zones
