-- ===== src/Resolver/Zone.antt =====
-- zone.go: asking a zone, from the cache or from its pool, and the keys that it keeps. Times are in
-- nanoseconds. The lock of the keys is left out: each call is one step; the cache is updated at
-- once.
pub mod Keys
pub mod Caching
use Prim.Native.Nat.{min}
use resolver_lib.Prelude.{
  ℕ, ◌+◌, ◌*◌, ◌==◌, leb, Bool, false, not, List, [], ◌∷◌, Option, none, some, if◌then◌else◌, ◌>>=◌,
  select,
}
use resolver_lib.Dns.{
  Rr, header, Question, Msg, Dns, GoError, wrapped, type_opt, failed_to_get_dnskeys,
  no_pool_configured_for_zone,
}
use resolver_lib.Dnssec.Records.{records_of_type_exist}
use resolver_lib.Dnssec.Status.{unknown, not_found}
use resolver_lib.Resolver.Response.{Response, response_err, response_msg, new_response_error}
use resolver_lib.Cache.{Library, second, get_with_time, update_with_time}

-- The keys that a zone keeps. A time that is zero is `none`.
pub record KeyStore : Type 0 where
  pub dnskey_records : List Rr
  pub dnskey_expiry : Option ℕ

abbrev pub lowest_ttl : ℕ → List Rr → ℕ
lowest_ttl ttl [] = ttl
lowest_ttl ttl (rr ∷ records) = lowest_ttl (min ttl (header rr).ttl) records

abbrev pub is_fresh : ℕ → KeyStore → Bool
is_fresh now k = elim k.dnskey_expiry [ none ↦ false | some e ↦ leb now e ]

-- What a call of `dnskeys` leaves and returns: the keys, or nil, and the error, or nil.
pub record Fetch (S : Type 0) : Type 0 where
  pub outside : S
  pub store : KeyStore
  pub keys : List Rr
  pub err : Option GoError

-- With the message of a response, at the time of its arrival.
unfoldable pub keep_keys : {S : Type 0} → ℕ → ℕ → S → KeyStore → List Rr → Fetch S
keep_keys max_allowed_ttl later s k [] = record {
  outside = s;
  store = record k { dnskey_expiry = some (later + second * 60) };
  keys = [];
  err = none;
}
keep_keys max_allowed_ttl later s k (rr ∷ records) = record {
  outside = s;
  store = record {
    dnskey_records = rr ∷ records;
    dnskey_expiry = some (later + lowest_ttl max_allowed_ttl (rr ∷ records) * second);
  };
  keys = rr ∷ records;
  err = none;
}

-- `dnskeys`; the request for the keys is a parameter. `now` and `later` are the two readings of the
-- clock, before and after it.
unfoldable pub dnskeys :
    {S : Type 0} → ℕ → (S → S × Option Response) → ℕ → ℕ → S → KeyStore → Fetch S
unfolding keep_keys
dnskeys {S} max_allowed_ttl ask now later s k =
    let s' = (ask s).0 in
    let r = (ask s).1 in
    let fail : GoError → Fetch S =
      λ e. record { outside = s'; store = k; keys = []; err = some e } in
    let asked : Fetch S = elim (response_err r) as (λ _. Fetch S) [
      | some e ↦ fail (wrapped failed_to_get_dnskeys e)
      | none ↦ elim (response_msg r) as (λ _. Fetch S) [
        | none ↦ fail failed_to_get_dnskeys
        | some m ↦ keep_keys max_allowed_ttl later s' k m.answer
      ]
    ] in
    if is_fresh now k
    then record { outside = s; store = k; keys = k.dnskey_records; err = none }
    else asked

-- The first test is that of a nil list, which there is nothing to remove from.
unfoldable pub remove_records_of_type : List Rr → ℕ → List Rr
remove_records_of_type rr t =
    if not (records_of_type_exist rr t) then rr else select (λ r. not ((header r).rrtype == t)) rr

module _ (dns : Dns) (lib : Library) {S : Type 0} where
  open lib use {Table}

  -- The response of the pool is cached if it is a message without an error; `none` is a panic.
  unfoldable pub keep_response :
      ℕ → Msg → S → Option Table → Response → Option (S × Option Table × Response)
  unfolding remove_records_of_type
  keep_response later m s none r = some (s, none, r)
  keep_response later m s (some t) r = elim r.msg as (λ _. Option (S × Option Table × Response)) [
    | none ↦ some (s, some t, r)
    | some n ↦ elim r.err as (λ _. Option (S × Option Table × Response)) [
      | some e ↦ some (s, some t, r)
      | none ↦ elim m.question as (λ _. Option (S × Option Table × Response)) [
        | [] ↦ none
        | _ ∷ _ ↦
            update_with_time dns lib later
              (record n { extra = remove_records_of_type n.extra type_opt }) t
            >>= λ u. some (s, some u.0, r)
      ]
    ]
  ]

  -- The pool, or nil, is asked.
  unfoldable pub ask_pool :
      Option (S → Msg → S × Response)
      → ℕ
      → Msg
      → S
      → Option Table
      → Option (S × Option Table × Response)
  unfolding keep_response
  ask_pool none later m s cache = some (s, cache, new_response_error no_pool_configured_for_zone)
  ask_pool (some pool) later m s cache = keep_response later m (pool s m).0 cache (pool s m).1

  -- `exchange`; the cache is nil where it is switched off.
  unfoldable pub exchange :
      Option (S → Msg → S × Response)
      → ℕ
      → ℕ
      → Msg
      → S
      → Option Table
      → Option (S × Option Table × Response)
  unfolding ask_pool get_with_time
  exchange pool now later m s none = ask_pool pool later m s none
  exchange pool now later m s (some t) =
      let found = get_with_time dns lib now (some m) t in
      let miss = ask_pool pool later m s (some found.0) in
      elim found.2 as (λ _. Option (S × Option Table × Response)) [
        | some e ↦ miss
        | none ↦ elim found.1 as (λ _. Option (S × Option Table × Response)) [
          | none ↦ miss
          | some n ↦ some (
            s,
            some found.0,
            record { msg = some n; err = none; doe = not_found; auth = unknown },
          )
        ]
      ]
