-- ===== src/Resolver/Zone/Keys.antt =====
-- How long a zone of zone.go gives out the keys that it keeps.
use Prim.Native.Nat.{min}
use resolver_lib.Prelude.{
  ℕ, ◌+◌, ◌*◌, ◌≤◌, ◌<◌, ◌≡◌, refl, sym, ap, subst, true, false, List, [], ◌∷◌, Option, none, some,
  arith, All, In, ◌⊎◌, inl, inr, ◌∙◌,
}
use resolver_lib.Dns.{Rr, header, Msg}
use resolver_lib.Resolver.Response.{Response}
use resolver_lib.Cache.{second}
use resolver_lib.Resolver.Zone.{KeyStore, lowest_ttl, is_fresh, keep_keys, dnskeys}

lowest_ttl_bound :
    (ttl : ℕ) (records : List Rr)
    → (lowest_ttl ttl records ≤ ttl) × All (λ r. lowest_ttl ttl records ≤ (header r).ttl) records
lowest_ttl_bound ttl [] = (omega arith, tt)
lowest_ttl_bound ttl (rr ∷ records) =
    let (b, each) = lowest_ttl_bound (min ttl (header rr).ttl) records in
    (omega arith, (omega arith, each))

-- The lowest of TTLs is one of them, or the TTL that the search starts from.
lowest_ttl_found :
    (ttl : ℕ) (records : List Rr)
    → (lowest_ttl ttl records ≡ ttl)
      ⊎ ((x : Rr) × In x records × (lowest_ttl ttl records ≡ (header x).ttl))
lowest_ttl_found ttl [] = inl refl
lowest_ttl_found ttl (rr ∷ records) = elim (lowest_ttl_found (min ttl (header rr).ttl) records) [
  | inr (x, m, e) ↦ inr (x, inr m, e)
  | inl e ↦ elim (min_cases ttl (header rr).ttl) [
    | inl k ↦ inl (e ∙ k)
    | inr k ↦ inr (rr, inl refl, e ∙ k)
  ]
]
  where
    min_cases : (x y : ℕ) → (min x y ≡ x) ⊎ (min x y ≡ y)
    min_cases x y = ground arith

module _ {S : Type 0} (max_allowed_ttl : ℕ) (ask : S → S × Option Response) where
  dnskeys_asked :
      (now later : ℕ) (s : S) (k : KeyStore) (r : Response) (m : Msg) (records : List Rr)
      → is_fresh now k ≡ false
      → (ask s).1 ≡ some r
      → r.err ≡ none
      → r.msg ≡ some m
      → m.answer ≡ records
      → dnskeys max_allowed_ttl ask now later s k
        ≡ keep_keys max_allowed_ttl later (ask s).0 k records
  unfolding dnskeys
  dnskeys_asked now later s k r m records old e f g h = simp (old, e, f, g, h) refl

  dnskeys_fresh :
      (now later : ℕ) (s : S) (k : KeyStore)
      → is_fresh now k ≡ true
      → dnskeys max_allowed_ttl ask now later s k
        ≡ record { outside = s; store = k; keys = k.dnskey_records; err = none }
  unfolding dnskeys
  dnskeys_fresh now later s k fresh = simp fresh refl

  -- A call that has to ask and gets keys keeps them: for the lowest of their TTLs and of the maximum
  -- that is allowed, each further call returns them without asking, and after that time the kept
  -- keys are no longer fresh.
  pub dnskeys-keeps :
      (now later : ℕ) (s : S) (k : KeyStore) (r : Response) (m : Msg) (rr : Rr) (records : List Rr)
      → is_fresh now k ≡ false
      → (ask s).1 ≡ some r
      → r.err ≡ none
      → r.msg ≡ some m
      → m.answer ≡ rr ∷ records
      → (ttl : ℕ) × (ttl ≤ max_allowed_ttl)
        × All (λ x. ttl ≤ (header x).ttl) (rr ∷ records)
        × ((ttl ≡ max_allowed_ttl) ⊎ ((x : Rr) × In x (rr ∷ records) × (ttl ≡ (header x).ttl)))
        × ((dnskeys max_allowed_ttl ask now later s k).keys ≡ rr ∷ records)
        × ((then_ after : ℕ) (s' : S)
            → let k' = (dnskeys max_allowed_ttl ask now later s k).store in
              (then_ ≤ later + ttl * second
                → dnskeys max_allowed_ttl ask then_ after s' k'
                  ≡ record { outside = s'; store = k'; keys = rr ∷ records; err = none })
              × (later + ttl * second < then_ → is_fresh then_ k' ≡ false))
  unfolding keep_keys
  dnskeys-keeps now later s k r m rr records old e f g h =
      let ttl = lowest_ttl max_allowed_ttl (rr ∷ records) in
      let (b, each) = lowest_ttl_bound max_allowed_ttl (rr ∷ records) in
      let k' : KeyStore = record {
        dnskey_records = rr ∷ records;
        dnskey_expiry = some (later + ttl * second);
      } in
      let q = dnskeys_asked now later s k r m (rr ∷ records) old e f g h in
      let kept : k' ≡ (dnskeys max_allowed_ttl ask now later s k).store =
        sym (ap (λ x. x.store) q) in
      (
        ttl,
        b,
        each,
        lowest_ttl_found max_allowed_ttl (rr ∷ records),
        ap (λ x. x.keys) q,
        λ then_ after s'.
            subst
              (λ w.
                (then_ ≤ later + ttl * second
                  → dnskeys max_allowed_ttl ask then_ after s' w
                    ≡ record { outside = s'; store = w; keys = rr ∷ records; err = none })
                × (later + ttl * second < then_ → is_fresh then_ w ≡ false))
              kept (λ l. dnskeys_fresh then_ after s' k' (ground arith), λ l. ground arith),
      )

  -- An empty answer does not remove the keys that are kept from before: the call that gets it
  -- returns none, but the calls of the minute after it return the old ones, which have expired.
  pub dnskeys_stale :
      (now later then_ after : ℕ) (s s' : S) (k : KeyStore) (r : Response) (m : Msg)
      → is_fresh now k ≡ false
      → (ask s).1 ≡ some r
      → r.err ≡ none
      → r.msg ≡ some m
      → m.answer ≡ []
      → then_ ≤ later + second * 60
      → let asked = dnskeys max_allowed_ttl ask now later s k in
        (asked.keys ≡ [])
        × ((dnskeys max_allowed_ttl ask then_ after s' asked.store).keys ≡ k.dnskey_records)
  unfolding keep_keys
  dnskeys_stale now later then_ after s s' k r m old e f g h l =
      let k' : KeyStore = record k { dnskey_expiry = some (later + second * 60) } in
      let q = dnskeys_asked now later s k r m [] old e f g h in
      let kept : k' ≡ (dnskeys max_allowed_ttl ask now later s k).store =
        sym (ap (λ x. x.store) q) in
      (
        ap (λ x. x.keys) q,
        subst (λ w. (dnskeys max_allowed_ttl ask then_ after s' w).keys ≡ k.dnskey_records) kept
            (ap (λ x. x.keys) (dnskeys_fresh then_ after s' k' (ground arith))),
      )
