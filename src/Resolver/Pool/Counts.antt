-- ===== src/Resolver/Pool/Counts.antt =====
-- The counts of a pool of pool.go are those of its servers.
use resolver_lib.Prelude.{
  ℕ, ltb, true, get_elem?, ◌+◌, ap, ◌∙◌, ◌%◌, ◌^◌, ◌<◌, ◌≡◌, refl, ◌≢◌, some, In, In-get_elem?,
  get_elem?-some, arith, List, [], ◌∷◌, length, none, inr, ◌⊎◌, subst,
}
use native.Mathlib.Nat.{mod-lt, mod-eq_of_lt}
use resolver_lib.Dns.{Rr, Pointer, Dns, GoError}
use resolver_lib.Resolver.Nameserver.{Nameserver}
use resolver_lib.Resolver.Pool.{
  NameserverPool, update_ip_count, new_nameserver_pool, enrich, get_ipv4, get_ipv6,
}
use resolver_lib.Resolver.Start.{no_servers, take_servers, build_root_server_pool}

-- The counters that are read without the lock agree with the lists.
pub record IsCounted (pool : NameserverPool) : Type 0 where
  pub ipv4 : pool.ipv4_count ≡ length pool.ipv4 % 2 ^ 32
  pub ipv6 : pool.ipv6_count ≡ length pool.ipv6 % 2 ^ 32

pub length-pos : (xs : List Nameserver) → xs ≢ [] → 0 < length xs
length-pos [] h = absurd (h refl)
length-pos (x ∷ xs) h = omega arith

-- An index that is taken modulo the length is there.
pub at_turn :
    (xs : List Nameserver) (turn n : ℕ)
    → n ≡ length xs
    → xs ≢ []
    → (s : Nameserver) × (get_elem? xs (turn % n) ≡ some s) × In s xs
at_turn xs turn n e h =
    let pos : 0 < n = omega (arith, length-pos xs h) in
    let (s, k) = get_elem?-some xs (turn % n) (rw (← e) (mod-lt turn pos)) in
    (s, k, In-get_elem? xs (turn % n) s k)

pub get_ipv4-eq :
    (p : NameserverPool)
    → 0 < p.ipv4_count
    → get_ipv4 p ≡ (
      record p { ipv4_next = (p.ipv4_next % p.ipv4_count + 1) % 2 ^ 32 },
      get_elem? p.ipv4 (p.ipv4_next % p.ipv4_count),
    )
unfolding get_ipv4
get_ipv4-eq p h = let t : ltb 0 p.ipv4_count ≡ true = ground arith in simp t refl

pub get_ipv6-eq :
    (p : NameserverPool)
    → 0 < p.ipv6_count
    → get_ipv6 p ≡ (
      record p { ipv6_next = (p.ipv6_next % p.ipv6_count + 1) % 2 ^ 32 },
      get_elem? p.ipv6 (p.ipv6_next % p.ipv6_count),
    )
unfolding get_ipv6
get_ipv6-eq p h = let t : ltb 0 p.ipv6_count ≡ true = ground arith in simp t refl

inr_eq : (p q : NameserverPool) → ◌≡◌ {A = GoError ⊎ NameserverPool} (inr p) (inr q) → p ≡ q
inr_eq p q h = cc

module _ (dns : Dns) (max_allowed_ttl : ℕ) where
  -- What happens to a pool: it is enriched at some time, or a server is taken.
  pub data Change : NameserverPool → NameserverPool → Type 0 where
    enriched :
        (now : ℕ) (records : List Rr) (pool : NameserverPool)
        → Change pool (enrich dns max_allowed_ttl now records pool)
    took_ipv4 : (pool : NameserverPool) → Change pool (get_ipv4 pool).0
    took_ipv6 : (pool : NameserverPool) → Change pool (get_ipv6 pool).0

  -- The pools that there can be: each was made from NS records, or from the file of the root servers,
  -- and changed from there on.
  pub data Reachable : NameserverPool → Type 0 where
    made :
        (now : ℕ) (nameservers : List Pointer) (extra : List Rr)
        → Reachable (new_nameserver_pool dns max_allowed_ttl now nameservers extra)
    built :
        (records : List Rr) (pool : NameserverPool)
        → build_root_server_pool records none ≡ inr pool
        → Reachable pool
    changed : {pool pool' : NameserverPool} → Reachable pool → Change pool pool' → Reachable pool'

  made-IsCounted :
      (now : ℕ) (nameservers : List Pointer) (extra : List Rr)
      → IsCounted (new_nameserver_pool dns max_allowed_ttl now nameservers extra)
  unfolding new_nameserver_pool
  made-IsCounted now nameservers extra = record { ipv4 = refl; ipv6 = refl }

  built-IsCounted :
      (records : List Rr) (pool : NameserverPool)
      → build_root_server_pool records none ≡ inr pool
      → IsCounted pool
  unfolding build_root_server_pool update_ip_count
  built-IsCounted records pool e =
      subst IsCounted (inr_eq (update_ip_count (take_servers no_servers records)) pool e)
        (record { ipv4 = refl; ipv6 = refl })

  enrich-IsCounted :
      (now : ℕ) (records : List Rr) (pool : NameserverPool)
      → IsCounted pool
      → IsCounted (enrich dns max_allowed_ttl now records pool)
  unfolding enrich
  enrich-IsCounted now [] pool c = c
  enrich-IsCounted now (r ∷ records) pool c = record { ipv4 = refl; ipv6 = refl }

  get_ipv4-IsCounted : (pool : NameserverPool) → IsCounted pool → IsCounted (get_ipv4 pool).0
  unfolding get_ipv4
  get_ipv4-IsCounted pool c = ground arith

  get_ipv6-IsCounted : (pool : NameserverPool) → IsCounted pool → IsCounted (get_ipv6 pool).0
  unfolding get_ipv6
  get_ipv6-IsCounted pool c = ground arith

  Change-IsCounted : {p p' : NameserverPool} → Change p p' → IsCounted p → IsCounted p'
  Change-IsCounted (enriched now records p) c = enrich-IsCounted now records p c
  Change-IsCounted (took_ipv4 p) c = get_ipv4-IsCounted p c
  Change-IsCounted (took_ipv6 p) c = get_ipv6-IsCounted p c

  Reachable-IsCounted : {p : NameserverPool} → Reachable p → IsCounted p
  Reachable-IsCounted (made now nameservers extra) = made-IsCounted now nameservers extra
  Reachable-IsCounted (built records pool e) = built-IsCounted records pool e
  Reachable-IsCounted (changed r c) = Change-IsCounted c (Reachable-IsCounted r)

  -- In every pool that there can be, with fewer than 2 ^ 32 servers of each kind, the counters agree
  -- with the lists, and a kind of which there are servers always has one to hand out.
  pub Reachable-serves :
      {p : NameserverPool}
      → Reachable p
      → length p.ipv4 < 2 ^ 32
      → length p.ipv6 < 2 ^ 32
      → (p.ipv4_count ≡ length p.ipv4)
        × (p.ipv6_count ≡ length p.ipv6)
        × (p.ipv4 ≢ [] → (s : Nameserver) × ((get_ipv4 p).1 ≡ some s) × In s p.ipv4)
        × (p.ipv6 ≢ [] → (s : Nameserver) × ((get_ipv6 p).1 ≡ some s) × In s p.ipv6)
  Reachable-serves {p} r small small' =
      let c = Reachable-IsCounted r in
      let n4 : p.ipv4_count ≡ length p.ipv4 = c.ipv4 ∙ mod-eq_of_lt small in
      let n6 : p.ipv6_count ≡ length p.ipv6 = c.ipv6 ∙ mod-eq_of_lt small' in
      (
        n4,
        n6,
        λ h.
            let (s, e, i) = at_turn p.ipv4 p.ipv4_next p.ipv4_count n4 h in
            (s, ap (λ t. t.1) (get_ipv4-eq p (omega (arith, length-pos p.ipv4 h))) ∙ e, i),
        λ h.
            let (s, e, i) = at_turn p.ipv6 p.ipv6_next p.ipv6_count n6 h in
            (s, ap (λ t. t.1) (get_ipv6-eq p (omega (arith, length-pos p.ipv6 h))) ∙ e, i),
      )
