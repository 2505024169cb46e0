-- ===== src/Tests/Servers.antt =====
-- Pools of two servers, and clients of which one is cut short.
use resolver_lib.Prelude.{
  ℕ, ◌+◌, ◌<◌, ◌≡◌, refl, ◌≢◌, true, List, [], ◌∷◌, Option, none, some, In, Name, name_eq,
  if◌then◌else◌, length, arith,
}
use resolver_lib.Dns.{Msg, Pointer, a, external}
use resolver_lib.Resolver.Response.{Response}
use resolver_lib.Resolver.Nameserver.{Nameserver, Answer, reply_of, exchange}
use resolver_lib.Resolver.Nameserver.Protocols.{attempts, exchange-best}
use resolver_lib.Resolver.Pool.{
  NameserverPool, new_nameserver_pool, find_addresses_for_hostname, enrich, get_ipv4, get_ipv6,
}
use resolver_lib.Resolver.Pool.Counts.{Reachable, made, changed, took_ipv4, Reachable-serves}
use resolver_lib.Resolver.Pool.Rotation.{after_ipv4, after_ipv6, get-fair}
use resolver_lib.Resolver.Pool.Expiry.{Unknown, enrich_prolongs}
use resolver_lib.Tests.World.{world, codes, header_of, question, reply}

abbrev host : Name
host = codes "ns.a."

abbrev other_host : Name
other_host = codes "ns.b."

abbrev server : ℕ → Nameserver
server n = record { hostname = host; addr = n ∷ [] }

abbrev glue : ℕ → Pointer
glue n = record { header = header_of host 1; value = n ∷ [] }

abbrev delegations : List Pointer
delegations =
    record { header = header_of (codes "a.") 2; value = host }
    ∷ record { header = header_of (codes "a.") 2; value = other_host }
    ∷ []

abbrev pub pool : NameserverPool
pool = record {
  hosts_without_addresses = other_host ∷ [];
  ipv4 = server 1 ∷ server 2 ∷ [];
  ipv4_next = 0;
  ipv4_count = 2;
  ipv6 = [];
  ipv6_next = 0;
  ipv6_count = 0;
  expires = 1300;
}

-- The pool is made from two NS records and two addresses of the first host.
pool_made : new_nameserver_pool world 172_800 1000 delegations (a (glue 1) ∷ a (glue 2) ∷ []) ≡ pool
unfolding new_nameserver_pool
pool_made = refl

abbrev turned : NameserverPool
turned = record pool { ipv4_next = 1 }

turned_Reachable :
    Reachable world 172_800
      (get_ipv4
        (new_nameserver_pool world 172_800 1000 delegations (a (glue 1) ∷ a (glue 2) ∷ []))).0
turned_Reachable = changed (made 1000 delegations (a (glue 1) ∷ a (glue 2) ∷ [])) (took_ipv4 _)

turned_made :
    (get_ipv4 (new_nameserver_pool world 172_800 1000 delegations (a (glue 1) ∷ a (glue 2) ∷ []))).0
    ≡ turned
unfolding new_nameserver_pool get_ipv4
turned_made = refl

turned_again : Reachable world 172_800 turned
turned_again = rw turned_made at turned_Reachable

Reachable-serves_example :
    (turned.ipv4_count ≡ length turned.ipv4)
    × (turned.ipv6_count ≡ length turned.ipv6)
    × (turned.ipv4 ≢ [] → (s : Nameserver) × ((get_ipv4 turned).1 ≡ some s) × In s turned.ipv4)
    × (turned.ipv6 ≢ [] → (s : Nameserver) × ((get_ipv6 turned).1 ≡ some s) × In s turned.ipv6)
Reachable-serves_example = Reachable-serves world 172_800 turned_again (omega arith) (omega arith)

get-fair_example :
    (In (server 1) turned.ipv4
      → (k : ℕ) × (k < length turned.ipv4) × ((get_ipv4 (after_ipv4 k turned)).1 ≡ some (server 1)))
    × (In (server 1) turned.ipv6
        → (k : ℕ) × (k < length turned.ipv6)
          × ((get_ipv6 (after_ipv6 k turned)).1 ≡ some (server 1)))
get-fair_example = get-fair turned (server 1) refl refl (omega arith) (omega arith)

no_address : Unknown world 172_800 (a (glue 3) ∷ []) other_host
unfolding find_addresses_for_hostname
no_address = (refl, refl)

enrich_prolongs_example :
    let p = enrich world 172_800 1200 (a (glue 3) ∷ []) pool in
    (p.hosts_without_addresses ≡ pool.hosts_without_addresses)
    × (p.ipv4 ≡ pool.ipv4)
    × (p.ipv6 ≡ pool.ipv6)
    × (p.expires ≡ 1200 + 172_800)
enrich_prolongs_example =
    enrich_prolongs world 172_800 1200 (a (glue 3)) [] pool (omega arith) (no_address, tt)

-- The client counts its calls; over "udp" the answer is cut short.
abbrev udp : Name
udp = codes "udp"

abbrev tcp : Name
tcp = codes "tcp"

abbrev cut : Msg
cut = record reply { truncated = true }

abbrev client : ℕ → Name → Msg → List ℕ → ℕ × Answer
client n protocol m addr = (n + 1, (some (if name_eq protocol udp then cut else reply), none))

exchange-best_example :
    exchange client (udp ∷ tcp ∷ []) 0 (server 1) (some reply)
    ≡ some (2, reply_of (some reply, none))
unfolding attempts
exchange-best_example =
    exchange-best client (udp ∷ tcp ∷ []) 0 (server 1) reply question [] (λ s protocol m addr. refl)
      refl

-- The first server fails, the other one answers.
abbrev ask : ℕ → Nameserver → Option (ℕ × Response)
ask n s = some (
  n + 1,
  reply_of (if name_eq s.addr (1 ∷ []) then (none, some (external 1)) else (some reply, none)),
)
