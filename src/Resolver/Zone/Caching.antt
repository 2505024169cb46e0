-- ===== src/Resolver/Zone/Caching.antt =====
-- Asking a zone of zone.go keeps the entries of its cache good.
use resolver_lib.Prelude.{
  ℕ, ◌≡◌, refl, sym, ap, subst, inl, inr, List, [], ◌∷◌, Option, none, some, >>=-eq-some,
  Option-cases, Bool-cases, ltb,
}
use resolver_lib.Dns.{Question, Msg, Dns, GoError, type_opt, no_pool_configured_for_zone}
use resolver_lib.Dnssec.Status.{unknown, not_found}
use resolver_lib.Resolver.Response.{Response, new_response_error}
use resolver_lib.Cache.{Library, key, get_with_time, update_with_time}
use resolver_lib.Cache.Holds.{Holds, IsTable, Serves, get_with_time-Holds, update_with_time-Holds}
use resolver_lib.Resolver.Zone.{remove_records_of_type, keep_response, ask_pool, exchange}

abbrev answer_of : Msg → Response
answer_of n = record { msg = some n; err = none; doe = not_found; auth = unknown }

module _ (dns : Dns) (lib : Library) where
  open lib use {Table}

  -- The table that there is, if there is one, is good.
  abbrev pub Kept : Option Table → Type 0
  Kept none = Unit
  Kept (some t) = Holds dns lib t

  -- Looking up at most removes an entry.
  get_with_time_keeps :
      (now : ℕ) (m : Msg) (t : Table)
      → IsTable dns lib
      → Holds dns lib t
      → Holds dns lib (get_with_time dns lib now (some m) t).0
  unfolding get_with_time
  get_with_time_keeps now m t law h = go m.question refl
    where
      go :
          (qs : List Question)
          → m.question ≡ qs
          → Holds dns lib (get_with_time dns lib now (some m) t).0
      go [] e = rw (e, get_with_time) h
      go (q ∷ more) e = elim (Option-cases (lib.get (key dns lib q.qname q.qtype) t)) [
        | inl f ↦ rw (e, f, get_with_time) h
        | inr (x, f) ↦ elim (Bool-cases (ltb x.expires now)) [
          | inr g ↦ rw (e, f, g, get_with_time) h
          | inl g ↦
              rw (e, f, g, get_with_time)
                (λ j y found. h j y (law.get-remove (key dns lib q.qname q.qtype) j y t found))
        ]
      ]

  Kept-subst :
      {S : Type 0} (out out' : S × Option Table × Response) → out ≡ out' → Kept out.1 → Kept out'.1
  Kept-subst out out' e = subst (λ x. Kept x.1) e

  module _ {S : Type 0} where
    some_out : (out out' : S × Option Table × Response) → some out ≡ some out' → out ≡ out'
    some_out out out' h = cc

    keep_response-Kept :
        (later : ℕ) (m : Msg) (s : S) (cache : Option Table) (r : Response)
        (out : S × Option Table × Response)
        → IsTable dns lib
        → Kept cache
        → keep_response dns lib later m s cache r ≡ some out
        → Kept out.1
    unfolding keep_response
    keep_response-Kept later m s none r out law kept h =
        Kept-subst (s, none, r) out (some_out (s, none, r) out h) tt
    keep_response-Kept later m s (some t) r out law kept h = parts r.msg r.err refl refl
      where
        parts : (n : Option Msg) (e : Option GoError) → r.msg ≡ n → r.err ≡ e → Kept out.1
        parts none e f g =
            Kept-subst (s, some t, r) out
              (some_out (s, some t, r) out (simp (f, keep_response) at h)) kept
        parts (some n) (some e) f g =
            Kept-subst (s, some t, r) out
              (some_out (s, some t, r) out (simp (f, g, keep_response) at h)) kept
        parts (some n) none f g = stored m.question refl
          where
            stored : (qs : List Question) → m.question ≡ qs → Kept out.1
            stored [] q = cc (simp (f, g, q, keep_response) at h)
            stored (_ ∷ _) q =
                let cleaned = record n { extra = remove_records_of_type n.extra type_opt } in
                let ((t', e), u, rest) =
                  >>=-eq-some (update_with_time dns lib later cleaned t) _
                    (simp (f, g, q, keep_response) at h) in
                Kept-subst (s, some t', r) out (some_out (s, some t', r) out rest)
                  (update_with_time-Holds dns lib later cleaned t t' e law kept u)

    pub ask_pool-Kept :
        (pool : Option (S → Msg → S × Response)) (later : ℕ) (m : Msg) (s : S)
        (cache : Option Table) (out : S × Option Table × Response)
        → IsTable dns lib
        → Kept cache
        → ask_pool dns lib pool later m s cache ≡ some out
        → Kept out.1
    unfolding ask_pool
    ask_pool-Kept none later m s cache out law kept h =
        Kept-subst (s, cache, new_response_error no_pool_configured_for_zone) out
          (some_out (s, cache, new_response_error no_pool_configured_for_zone) out h) kept
    ask_pool-Kept (some pool) later m s cache out law kept h =
        keep_response-Kept later m (pool s m).0 cache (pool s m).1 out law kept h

    found_out :
        (pool : Option (S → Msg → S × Response)) (now later : ℕ) (m : Msg) (s : S) (t : Table)
        (out : S × Option Table × Response) (n : Msg)
        → exchange dns lib pool now later m s (some t) ≡ some out
        → (get_with_time dns lib now (some m) t).1 ≡ some n
        → (get_with_time dns lib now (some m) t).2 ≡ none
        → ◌≡◌ {A = S × Option Table × Response}
            (s, some (get_with_time dns lib now (some m) t).0, answer_of n)
            out
    unfolding exchange
    found_out pool now later m s t out n run f g =
        some_out (s, some (get_with_time dns lib now (some m) t).0, answer_of n) out
          (simp (f, g, exchange) at run)

    -- Asking a zone whose cache has good entries only leaves them good, whether or not the pool is
    -- asked, as long as the table behind it makes up no entries. A
    -- response that the cache has is returned without an error and without asking the pool: it was
    -- stored under the key of the question, holds records of that key and has not expired.
    pub exchange-Kept :
        (pool : Option (S → Msg → S × Response)) (now later : ℕ) (m : Msg) (s : S) (t : Table)
        (out : S × Option Table × Response)
        → IsTable dns lib
        → Holds dns lib t
        → exchange dns lib pool now later m s (some t) ≡ some out
        → Kept out.1
          × ((n : Msg) (t' : Table)
              → get_with_time dns lib now (some m) t ≡ (t', some n, none)
              → (out.0 ≡ s) × (out.2.msg ≡ some n) × (out.2.err ≡ none) × Serves dns lib now t m n)
    unfolding exchange
    exchange-Kept pool now later m s t out law h run = (
      parts (get_with_time dns lib now (some m) t).1 (get_with_time dns lib now (some m) t).2 refl
          refl,
      λ n t' g.
          let same =
            found_out pool now later m s t out n run
              (ap (λ (x : Table × Option Msg × Option GoError). x.1) g)
              (ap (λ (x : Table × Option Msg × Option GoError). x.2) g) in
          (
            sym (ap (λ (x : S × Option Table × Response). x.0) same),
            sym (ap (λ (x : S × Option Table × Response). x.2.msg) same),
            sym (ap (λ (x : S × Option Table × Response). x.2.err) same),
            (get_with_time-Holds dns lib now m n t t' law h g).1,
          ),
    )
      where
        kept : Holds dns lib (get_with_time dns lib now (some m) t).0
        kept = get_with_time_keeps now m t law h

        parts :
            (n : Option Msg) (e : Option GoError)
            → (get_with_time dns lib now (some m) t).1 ≡ n
            → (get_with_time dns lib now (some m) t).2 ≡ e
            → Kept out.1
        parts n (some e) f g =
            ask_pool-Kept pool later m s (some (get_with_time dns lib now (some m) t).0) out law
              kept (simp (g, exchange) at run)
        parts none none f g =
            ask_pool-Kept pool later m s (some (get_with_time dns lib now (some m) t).0) out law
              kept (simp (f, g, exchange) at run)
        parts (some n) none f g =
            Kept-subst (s, some (get_with_time dns lib now (some m) t).0, answer_of n) out
              (found_out pool now later m s t out n run f g) kept
