-- ===== src/Tests/Zones.antt =====
-- A zone with a cache, and its keys.
use resolver_lib.Prelude.{
  ℕ, ◌+◌, ◌*◌, ◌≤◌, ◌<◌, ◌≡◌, refl, ap, [], ◌∷◌, Option, none, some, arith, All, false, In, ◌⊎◌,
}
use resolver_lib.Dns.{Rr, dnskey, header, Msg, GoError}
use resolver_lib.Dnssec.Status.{unknown, not_found}
use resolver_lib.Resolver.Response.{Response}
use resolver_lib.Cache.{Entry, second, get_with_time}
use resolver_lib.Cache.Holds.{Serves}
use resolver_lib.Resolver.Zone.{KeyStore, is_fresh, dnskeys, exchange}
use resolver_lib.Resolver.Zone.Keys.{dnskeys-keeps, dnskeys_stale}
use resolver_lib.Resolver.Zone.Caching.{Kept, exchange-Kept}
use resolver_lib.Tests.World.{world, key, reply}
use resolver_lib.Tests.Cached.{library, library_IsTable, cached, looked_up, start, cached_Holds}

abbrev keys_reply : Msg
keys_reply = record reply { answer = dnskey key ∷ [] }

abbrev response : Msg → Response
response m = record { msg = some m; err = none; doe = not_found; auth = unknown }

abbrev ask : ℕ → ℕ × Option Response
ask n = (n + 1, some (response keys_reply))

abbrev no_keys : KeyStore
no_keys = record { dnskey_records = []; dnskey_expiry = none }

dnskeys-keeps_example :
    (ttl : ℕ) × (ttl ≤ 172_800)
    × All (λ x. ttl ≤ (header x).ttl) (dnskey key ∷ [])
    × ((ttl ≡ 172_800) ⊎ ((x : Rr) × In x (dnskey key ∷ []) × (ttl ≡ (header x).ttl)))
    × ((dnskeys 172_800 ask 10 20 0 no_keys).keys ≡ dnskey key ∷ [])
    × ((then_ after s' : ℕ)
        → let k' = (dnskeys 172_800 ask 10 20 0 no_keys).store in
          (then_ ≤ 20 + ttl * second
            → dnskeys 172_800 ask then_ after s' k'
              ≡ record { outside = s'; store = k'; keys = dnskey key ∷ []; err = none })
          × (20 + ttl * second < then_ → is_fresh then_ k' ≡ false))
dnskeys-keeps_example =
    dnskeys-keeps 172_800 ask 10 20 0 no_keys (response keys_reply) keys_reply (dnskey key) [] refl
      refl refl refl refl

-- The keys of before have expired, and the zone answers without any now.
abbrev ask_in_vain : ℕ → ℕ × Option Response
ask_in_vain n = (n + 1, some (response (record reply { answer = [] })))

abbrev old_keys : KeyStore
old_keys = record { dnskey_records = dnskey key ∷ []; dnskey_expiry = some 5 }

dnskeys_stale_example :
    let asked = dnskeys 172_800 ask_in_vain 10 20 0 old_keys in
    (asked.keys ≡ []) × ((dnskeys 172_800 ask_in_vain 30 40 1 asked.store).keys ≡ dnskey key ∷ [])
dnskeys_stale_example =
    dnskeys_stale 172_800 ask_in_vain 10 20 30 40 0 1 old_keys
      (response (record reply { answer = [] })) (record reply { answer = [] }) refl refl refl refl
      refl (omega arith)

-- The pool is a counter of its calls, and has no answer.
abbrev pool : ℕ → Msg → ℕ × Response
pool n m = (n + 1, record { msg = none; err = none; doe = not_found; auth = unknown })

exchanged :
    exchange world library (some pool) (start + 5) (start + 6) reply 0 (some cached.0)
    ≡ some (0, some looked_up.0, response looked_up.1)
unfolding exchange
exchanged =
    simp
      (
        ap (λ (x : (ℕ → Option Entry) × Option Msg × Option GoError). x.0) looked_up.2,
        ap (λ (x : (ℕ → Option Entry) × Option Msg × Option GoError). x.1) looked_up.2,
        ap (λ (x : (ℕ → Option Entry) × Option Msg × Option GoError). x.2) looked_up.2,
        exchange,
      )
      refl

exchange-Kept_example :
    Kept world library (some looked_up.0)
    × ((n : Msg) (t' : ℕ → Option Entry)
        → get_with_time world library (start + 5) (some reply) cached.0 ≡ (t', some n, none)
        → ◌≡◌ {A = ℕ} 0 0
          × (some looked_up.1 ≡ some n)
          × ((response looked_up.1).err ≡ none)
          × Serves world library (start + 5) cached.0 reply n)
exchange-Kept_example =
    exchange-Kept world library (some pool) (start + 5) (start + 6) reply 0 cached.0
      (0, some looked_up.0, response looked_up.1) library_IsTable cached_Holds exchanged
