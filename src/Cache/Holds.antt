-- ===== src/Cache/Holds.antt =====
-- What an entry of the cache of cache/cache.go is, whatever was stored before.
use resolver_lib.Prelude.{
  ℕ, ◌≤◌, ◌<◌, ◌==◌, ◌≡◌, refl, sym, ap, subst, ◌≢◌, ◌⊎◌, inl, inr, Bool, true, false, ltb, List,
  [], ◌∷◌, ◌++◌, Option, none, some, if◌then◌else◌, >>=-eq-some, Bool-cases, Option-cases, arith,
  All, All-append, In-All, lookup, lookup-In, insert, All-insert, nat_key, ◌/◌,
}
use resolver_lib.Dns.{Rr, Rrsig, header, Question, Msg, Dns, GoError, type_rrsig}
use resolver_lib.Dnssec.Records.{as_rrsig}
use resolver_lib.Cache.{
  Entry, Library, indeterminate, Groups, slice_at, is_ignored, key, sort_record, group, may_store,
  new_entry, store, update_with_time, reply_from, get_with_time, second,
}

some_eq : {g g' : Groups} → some g ≡ some g' → g ≡ g'
some_eq h = cc

slice_at-All :
    (P : ℕ × List Rr → Type 0) (k : ℕ) (m : List (ℕ × List Rr))
    → All P m
    → P (k, [])
    → P (k, slice_at k m)
slice_at-All P k m h p = elim (Option-cases (lookup k m)) [
  | inl e ↦ rw (e, slice_at) p
  | inr (rr, e) ↦ rw (e, slice_at) (In-All P (k, rr) m h (lookup-In k rr m e))
]

module _ (dns : Dns) (lib : Library) where
  open lib use {Table}

  abbrev pub Owns : ℕ → Rr → Type 0
  Owns k r = key dns lib (header r).name (header r).rrtype ≡ k

  -- A signature over the record set of a key.
  abbrev pub Signs : ℕ → Rr → Type 0
  Signs k r = (s : Rrsig) × (as_rrsig r ≡ some s) × (key dns lib (header r).name s.type_covered ≡ k)

  -- An entry holds records, all of the key, signatures over them only, and lasts.
  pub record IsGood (k : ℕ) (e : Entry) : Type 0 where
    pub stocked : e.records ≢ []
    pub own : All (Owns k) e.records
    pub signed : All (Signs k) e.signatures
    pub plain : (e.status ≡ indeterminate) × (e.rcode ≡ 0)
    pub lasting : 0 < e.ttl

  -- All entries of a table are good.
  abbrev pub Holds : Table → Type 0
  Holds t = (k : ℕ) (e : Entry) → lib.get k t ≡ some e → IsGood k e

  -- What the table of CoreDNS may do: it may forget, but it makes up no entries.
  pub record IsTable : Type 0 where
    pub get-add :
        (k j : ℕ) (e x : Entry) (t : Table)
        → lib.get j (lib.add k e t) ≡ some x
        → ((j ≡ k) × (x ≡ e)) ⊎ (lib.get j t ≡ some x)
    pub get-remove :
        (k j : ℕ) (x : Entry) (t : Table)
        → lib.get j (lib.remove k t) ≡ some x
        → lib.get j t ≡ some x

  abbrev IsRrset : ℕ × List Rr → Type 0
  IsRrset p = All (Owns p.0) p.1

  abbrev IsSigs : ℕ × List Rr → Type 0
  IsSigs p = All (Signs p.0) p.1

  abbrev IsGrouped : Groups → Type 0
  IsGrouped g = All IsRrset g.rrsets × All IsSigs g.sigs

  -- A signature is put with its key, or empties that key's signatures.
  signature-IsGrouped :
      (g : Groups) (rr : Rr) (s : Rrsig) (ok : Bool)
      → as_rrsig rr ≡ some s
      → IsGrouped g
      → let k = key dns lib (header rr).name s.type_covered in
        IsGrouped
          (record g { sigs = insert k (if ok then slice_at k g.sigs ++ rr ∷ [] else []) g.sigs })
  signature-IsGrouped g rr s true e (h, i) =
      let k = key dns lib (header rr).name s.type_covered in
      (
        h,
        All-insert IsSigs k (slice_at k g.sigs ++ rr ∷ []) g.sigs i (
            All-append (Signs k) (slice_at k g.sigs) (rr ∷ []) (slice_at-All IsSigs k g.sigs i tt)
              ((s, e, refl), tt)),
      )
  signature-IsGrouped g rr s false e (h, i) =
      (h, All-insert IsSigs (key dns lib (header rr).name s.type_covered) [] g.sigs i tt)

  record-IsGrouped :
      (g : Groups) (rr : Rr)
      → IsGrouped g
      → let k = key dns lib (header rr).name (header rr).rrtype in
        IsGrouped (record g { rrsets = insert k (slice_at k g.rrsets ++ rr ∷ []) g.rrsets })
  record-IsGrouped g rr (h, i) =
      let k = key dns lib (header rr).name (header rr).rrtype in
      (
        All-insert IsRrset k (slice_at k g.rrsets ++ rr ∷ []) g.rrsets h (
            All-append (Owns k) (slice_at k g.rrsets) (rr ∷ [])
              (slice_at-All IsRrset k g.rrsets h tt) (refl, tt)),
        i,
      )

  sort_record-IsGrouped :
      (now : ℕ) (g g' : Groups) (rr : Rr)
      → IsGrouped g
      → sort_record dns lib now g rr ≡ some g'
      → IsGrouped g'
  unfolding sort_record
  sort_record-IsGrouped now g g' rr h f = elim (Bool-cases ((header rr).rrtype == type_rrsig)) [
    | inl t ↦
        let (sig, a, b) = >>=-eq-some (as_rrsig rr) _ (rw t at f) in
        let k = signature-IsGrouped g rr sig (dns.validity_period sig (now / second)) a h in
        subst IsGrouped (some_eq b) k
    | inr t ↦ elim (Bool-cases (is_ignored (header rr).rrtype)) [
      | inl x ↦ subst IsGrouped (some_eq (rw (t, x) at f)) h
      | inr x ↦ subst IsGrouped (some_eq (rw (t, x) at f)) (record-IsGrouped g rr h)
    ]
  ]

  group-IsGrouped :
      (now : ℕ) (records : List Rr) (g g' : Groups)
      → IsGrouped g
      → group dns lib now g records ≡ some g'
      → IsGrouped g'
  unfolding group
  group-IsGrouped now [] g g' h e = subst IsGrouped (some_eq e) h
  group-IsGrouped now (rr ∷ records) g g' h e =
      let (g1, f, r) = >>=-eq-some (sort_record dns lib now g rr) _ e in
      group-IsGrouped now records g1 g' (sort_record-IsGrouped now g g1 rr h f) r

  add-Holds :
      (k : ℕ) (e : Entry) (t : Table) → IsTable → Holds t → IsGood k e → Holds (lib.add k e t)
  add-Holds k e t law h good j x found = elim (law.get-add k j e x t found) [
    | inl (same, is) ↦ subst (λ z. IsGood z x) (sym same) (subst (IsGood k) (sym is) good)
    | inr old ↦ h j x old
  ]

  store-Holds :
      (now : ℕ) (sigs : List (ℕ × List Rr)) (rrsets : List (ℕ × List Rr)) (t t' : Table)
      → IsTable
      → All IsSigs sigs
      → All IsRrset rrsets
      → Holds t
      → store dns lib now sigs t rrsets ≡ some t'
      → Holds t'
  unfolding store
  store-Holds now sigs [] t t' law g r h e = let k : t ≡ t' = cc in subst Holds k h
  store-Holds now sigs ((k, []) ∷ rrsets) t t' law g r h e =
      elim (Bool-cases (may_store dns lib (lookup k sigs))) [
        | inl m ↦ cc (rw m at e)
        | inr m ↦ store-Holds now sigs rrsets t t' law g r.1 h (rw m at e)
      ]
  store-Holds now sigs ((k, rr ∷ records) ∷ rrsets) t t' law g r h e =
      let entry = new_entry dns lib now rr (rr ∷ records) (slice_at k sigs) in
      let good : 0 < (header rr).ttl → IsGood k entry = λ l. record {
        stocked = λ (z : rr ∷ records ≡ []). cc;
        own = r.0;
        signed = slice_at-All IsSigs k sigs g tt;
        plain = (refl, refl);
        lasting = l;
      } in
      store-Holds now sigs rrsets
        (if may_store dns lib (lookup k sigs)
          then (if ltb 0 (header rr).ttl then lib.add k entry t else t)
          else t)
        t' law g r.1
        (elim (Bool-cases (may_store dns lib (lookup k sigs))) [
          | inr m ↦ rw m h
          | inl m ↦ elim (Bool-cases (ltb 0 (header rr).ttl)) [
            | inr l ↦ rw (m, l) h
            | inl l ↦ rw (m, l) (add-Holds k entry t law h (good (ground arith)))
          ]
        ])
        e

  -- Over a table that makes up no entries, updating the cache keeps its entries good: each holds records of one key, at least one, and
  -- signatures over that key's records, and lasts some time.
  pub update_with_time-Holds :
      (now : ℕ) (msg : Msg) (t t' : Table) (e : Option GoError)
      → IsTable
      → Holds t
      → update_with_time dns lib now msg t ≡ some (t', e)
      → Holds t'
  unfolding update_with_time
  update_with_time-Holds now msg t t' e law h u = elim (Bool-cases msg.truncated) [
    | inl b ↦ let k : t ≡ t' = cc (rw b at u) in subst Holds k h
    | inr b ↦
        let none_yet : Groups = record { rrsets = []; sigs = [] } in
        let all = (msg.answer ++ msg.ns_section) ++ msg.extra in
        let (g, f, r) = >>=-eq-some (group dns lib now none_yet all) _ (rw b at u) in
        let (t1, f1, r1) = >>=-eq-some (store dns lib now g.sigs t g.rrsets) _ r in
        let i = group-IsGrouped now all none_yet g (tt, tt) f in
        let k : t1 ≡ t' = cc in
        subst Holds k (store-Holds now g.sigs g.rrsets t t1 law i.1 i.0 h f1)
  ]

  answered :
      (t t' : Table) (m m' : Msg)
      → ◌≡◌ {A = Table × Option Msg × Option GoError} (t, some m, none) (t', some m', none)
      → (t ≡ t') × (m ≡ m')
  answered t t' m m' e =
      let made : ◌≡◌ {A = Option Msg} (some m) (some m') =
        ap (λ (z : Table × Option Msg × Option GoError). z.1) e in
      (ap (λ (z : Table × Option Msg × Option GoError). z.0) e, cc)

  -- A reply that is made from an entry for the first question which has not expired.
  abbrev pub Serves : ℕ → Table → Msg → Msg → Type 0
  Serves now t qmsg m =
      (q : Question) × (more : List Question) × (e : Entry) × (qmsg.question ≡ q ∷ more)
      × (lib.get (key dns lib q.qname q.qtype) t ≡ some e)
      × IsGood (key dns lib q.qname q.qtype) e
      × (now ≤ e.expires)
      × (m ≡ reply_from dns lib e qmsg)

  -- What is returned from a good table without an error was stored under the key of the question and
  -- has not expired: the reply is made from at least one record, all records are of that key, and
  -- all signatures are over that key's records. Looking up keeps the table good.
  pub get_with_time-Holds :
      (now : ℕ) (qmsg m : Msg) (t t' : Table)
      → IsTable
      → Holds t
      → get_with_time dns lib now (some qmsg) t ≡ (t', some m, none)
      → Holds t' × Serves now t qmsg m
  unfolding get_with_time
  get_with_time-Holds now qmsg m t t' law h g = go qmsg.question refl
    where
      found :
          (q : Question) (more : List Question)
          → qmsg.question ≡ q ∷ more
          → (o : Option Entry) → lib.get (key dns lib q.qname q.qtype) t ≡ o
          → Holds t' × Serves now t qmsg m
      found q more k none l = cc (rw (k, l, get_with_time) at g)
      found q more k (some e) l = elim (Bool-cases (ltb e.expires now)) [
        | inl x ↦ cc (rw (k, l, x, get_with_time) at g)
        | inr x ↦
            let y =
              answered t t' (reply_from dns lib e qmsg) m (rw (k, l, x, get_with_time) at g) in
            (
              subst Holds y.0 h,
              (q, more, e, k, l, h (key dns lib q.qname q.qtype) e l, ground arith, sym y.1),
            )
      ]

      go : (qs : List Question) → qmsg.question ≡ qs → Holds t' × Serves now t qmsg m
      go [] k = cc (rw (k, get_with_time) at g)
      go (q ∷ more) k = found q more k (lib.get (key dns lib q.qname q.qtype) t) refl
