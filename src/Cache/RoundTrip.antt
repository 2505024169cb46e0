-- ===== src/Cache/RoundTrip.antt =====
-- What the cache of cache/cache.go gives back of a message that it was given.
use resolver_lib.Prelude.{
  ℕ, ◌+◌, ◌*◌, ◌≤◌, ◌<◌, ◌==◌, ==_iff, ◌≡◌, refl, sym, ap, subst, ◌∙◌, inl, inr, true, false, ltb,
  List, [], ◌∷◌, ◌++◌, none, some, if◌then◌else◌, Bool-cases, Option-cases, arith, All, select,
  lookup, IsMap, nat_key,
}
use resolver_lib.Dns.{Rr, header, Question, Msg, Dns}
use resolver_lib.Cache.{
  Entry, Library, Groups, slice_at, key, may_store, new_entry, store, update_with_time, reply_from,
  get_with_time, second,
}
use resolver_lib.Cache.Sorting.{Slots, IsFilled, is_of, is_over, Admits, group-IsSorted}

slice_at-cons :
    (k : ℕ) (m : Slots) (r : Rr) (rs : List Rr) → slice_at k m ≡ r ∷ rs → lookup k m ≡ some (r ∷ rs)
slice_at-cons k m r rs h = elim (Option-cases (lookup k m)) [
  | inl e ↦ cc (rw (slice_at, e) at h)
  | inr (v, e) ↦ e ∙ ap some (rw (slice_at, e) at h)
]

abbrev pub sections : Msg → List Rr
sections msg = (msg.answer ++ msg.ns_section) ++ msg.extra

module _ (dns : Dns) (lib : Library) where
  open lib use {Table}

  -- A table that still has room: an entry that is added is found, and displaces no other.
  pub record IsRoomy : Type 0 where
    pub get-add : (k : ℕ) (e : Entry) (t : Table) → lib.get k (lib.add k e t) ≡ some e
    pub get-add_other :
        (k j : ℕ) (e : Entry) (t : Table)
        → ((k == j) ≡ false)
        → lib.get j (lib.add k e t) ≡ lib.get j t

  abbrev AllStorable : Slots → Type 0
  AllStorable sigs = (k : ℕ) → may_store dns lib (lookup k sigs) ≡ true

  -- The second loop leaves an entry for each set whose time is not 0, and what is under another key.
  record IsStored (now : ℕ) (sigs : Slots) (rrsets : Slots) (t t' : Table) : Type 0 where
    hit :
        (k : ℕ) (r : Rr) (rs : List Rr)
        → lookup k rrsets ≡ some (r ∷ rs)
        → 0 < (header r).ttl
        → lib.get k t' ≡ some (new_entry dns lib now r (r ∷ rs) (slice_at k sigs))
    miss : (k : ℕ) → lookup k rrsets ≡ none → lib.get k t' ≡ lib.get k t

  -- The table after the round for a set.
  abbrev after : ℕ → ℕ → Rr → List Rr → Slots → Table → Table
  after now k r rs sigs t =
      if ltb 0 (header r).ttl
      then lib.add k (new_entry dns lib now r (r ∷ rs) (slice_at k sigs)) t
      else t

  after-own :
      (now k : ℕ) (r : Rr) (rs : List Rr) (sigs : Slots) (t : Table)
      → IsRoomy
      → 0 < (header r).ttl
      → lib.get k (after now k r rs sigs t)
        ≡ some (new_entry dns lib now r (r ∷ rs) (slice_at k sigs))
  after-own now k r rs sigs t law l =
      let b : ltb 0 (header r).ttl ≡ true = ground arith in
      rw b (law.get-add k (new_entry dns lib now r (r ∷ rs) (slice_at k sigs)) t)

  after-other :
      (now k j : ℕ) (r : Rr) (rs : List Rr) (sigs : Slots) (t : Table)
      → IsRoomy
      → (k == j) ≡ false
      → lib.get j (after now k r rs sigs t) ≡ lib.get j t
  after-other now k j r rs sigs t law d = elim (Bool-cases (ltb 0 (header r).ttl)) [
    | inl b ↦ rw b (law.get-add_other k j (new_entry dns lib now r (r ∷ rs) (slice_at k sigs)) t d)
    | inr b ↦ rw b refl
  ]

  moved :
      (now k j : ℕ) (r x : Rr) (rs xs : List Rr) (sigs : Slots) (t : Table)
      → k ≡ j
      → r ≡ x
      → rs ≡ xs
      → lib.get k t ≡ some (new_entry dns lib now r (r ∷ rs) (slice_at k sigs))
      → lib.get j t ≡ some (new_entry dns lib now x (x ∷ xs) (slice_at j sigs))
  moved now k j r x rs xs sigs t same head tail h = rw (head, tail, same) at h

  store-IsStored :
      (now : ℕ) (sigs rrsets : Slots) (t : Table)
      → IsRoomy
      → AllStorable sigs
      → IsMap rrsets
      → All IsFilled rrsets
      → (t' : Table) × (store dns lib now sigs t rrsets ≡ some t') × IsStored now sigs rrsets t t'
  unfolding store lookup
  store-IsStored now sigs [] t law s m f =
      (t, refl, record { hit = λ k r rs e l. cc; miss = λ k e. refl })
  store-IsStored now sigs ((k, []) ∷ rrsets) t law s m f = absurd (f.0 refl)
  store-IsStored now sigs ((k, r ∷ rs) ∷ rrsets) t law s m f =
      let (t', e, i) = store-IsStored now sigs rrsets (after now k r rs sigs t) law s m.1 f.1 in
      (
        t',
        rw (s k) e,
        record {
          hit = λ j x xs found l. elim (Bool-cases (k == j)) [
            | inl b ↦
                let same : k ≡ j = (==_iff k j).0 b in
                let head : r ≡ x = cc (rw b at found) in
                let tail : rs ≡ xs = cc (rw b at found) in
                let last : 0 < (header r).ttl = subst (λ z. 0 < (header z).ttl) (sym head) l in
                let own = i.miss k m.0 ∙ after-own now k r rs sigs t law last in
                moved now k j r x rs xs sigs t' same head tail own
            | inr b ↦ i.hit j x xs (rw b at found) l
          ];
          miss = λ j absent. elim (Bool-cases (k == j)) [
            | inl b ↦ cc (rw b at absent)
            | inr b ↦ i.miss j (rw b at absent) ∙ after-other now k j r rs sigs t law b
          ];
        },
      )

  -- What a message, that is cached while the table has room, leaves under a key: its first record
  -- for the key makes the entry, if its time is not 0.
  update_with_time_lem :
      (now : ℕ) (msg : Msg) (t : Table)
      → IsRoomy
      → msg.truncated ≡ false
      → All (Admits dns lib now) (sections msg)
      → (t' : Table) × (update_with_time dns lib now msg t ≡ some (t', none))
        × ((k : ℕ) (r : Rr) (rs : List Rr)
            → select (is_of dns lib k) (sections msg) ≡ r ∷ rs
            → 0 < (header r).ttl
            → lib.get k t'
              ≡ some (new_entry dns lib now r (r ∷ rs) (select (is_over dns lib k) (sections msg))))
  unfolding update_with_time lookup
  update_with_time_lem now msg t law h admits =
      let none_yet : Groups = record { rrsets = []; sigs = [] } in
      let (g, e, i) = group-IsSorted dns lib now (sections msg) none_yet admits in
      let (t', f, j) =
        store-IsStored now g.sigs g.rrsets t law (i.storable (λ k. refl)) (i.split tt)
          (i.filled tt) in
      (
        t',
        rw (h, e, f) refl,
        λ k r rs own l.
            let stored = j.hit k r rs (slice_at-cons k g.rrsets r rs (i.kept k ∙ own)) l in
            rw (i.signed k) at stored,
      )

  get_with_time-hit :
      (now : ℕ) (qmsg : Msg) (q : Question) (more : List Question) (e : Entry) (t : Table)
      → qmsg.question ≡ q ∷ more
      → lib.get (key dns lib q.qname q.qtype) t ≡ some e
      → ltb e.expires now ≡ false
      → get_with_time dns lib now (some qmsg) t ≡ (t, some (reply_from dns lib e qmsg), none)
  unfolding get_with_time
  get_with_time-hit now qmsg q more e t one found fresh = simp (one, found, fresh) refl

  -- What is cached is given back. A message that is not truncated, in which all signatures are
  -- signatures and valid now, is put into a table with room, without an error. Then a query for a name
  -- and a type for which it has a record, the first of them with a time above 0, is answered until
  -- that time is over by the reply that holds exactly its records for that key, in their order, and
  -- its signatures over them, the table unchanged.
  pub get_with_time-update_with_time :
      (now later : ℕ) (msg qmsg : Msg) (q : Question) (more : List Question) (r : Rr) (rs : List Rr)
      (t : Table)
      → IsRoomy
      → msg.truncated ≡ false
      → All (Admits dns lib now) (sections msg)
      → qmsg.question ≡ q ∷ more
      → select (is_of dns lib (key dns lib q.qname q.qtype)) (sections msg) ≡ r ∷ rs
      → 0 < (header r).ttl
      → later ≤ now + (header r).ttl * second
      → let signatures = select (is_over dns lib (key dns lib q.qname q.qtype)) (sections msg) in
        (t' : Table) × (update_with_time dns lib now msg t ≡ some (t', none))
        × (get_with_time dns lib later (some qmsg) t' ≡ (
          t',
          some (reply_from dns lib (new_entry dns lib now r (r ∷ rs) signatures) qmsg),
          none,
        ))
  get_with_time-update_with_time now later msg qmsg q more r rs t law h admits one own l fresh =
      let (t', e, found) = update_with_time_lem now msg t law h admits in
      let b : ltb (now + (header r).ttl * second) later ≡ false = ground arith in
      (t', e, get_with_time-hit later qmsg q more _ t' one (found _ r rs own l) b)
