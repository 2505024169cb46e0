-- ===== src/Resolver/Ipv6/Once.antt =====
-- What the check of ipv6.go finds.
use mathlib.Core.List.{append_assoc, append-nil}
use resolver_lib.Prelude.{
  ℕ, ◌+◌, ◌≡◌, refl, sym, ap, ◌∙◌, ◌⊎◌, inl, inr, Bool, true, false, ◌||◌, List, [], ◌∷◌, ◌++◌, map,
  Option, none, some, any, arith, Name,
}
use resolver_lib.Dns.{GoError}
use resolver_lib.Resolver.Ipv6.{
  Connectivity, ipv6_available, succeeded, try_address, Checks, asked, begins, passes, tries, ends,
  Reached, begun, moved,
}

abbrev pub did_answer : Name × Bool → Bool
did_answer (address, ok) = ok

abbrev pub address_of : Name × Bool → Name
address_of (address, ok) = address

any-append :
    (xs ys : List (Name × Bool))
    → any did_answer (xs ++ ys) ≡ (any did_answer xs || any did_answer ys)
any-append [] ys = refl
any-append (x ∷ xs) ys = ground (arith, any-append xs ys)

map_append :
    (xs ys : List (Name × Bool))
    → map address_of (xs ++ ys) ≡ map address_of xs ++ map address_of ys
map_append [] ys = refl
map_append (x ∷ xs) ys = ap (λ z. address_of x ∷ z) (map_append xs ys)

head : (xs ys : List Name) → some xs ≡ some ys → xs ≡ ys
head xs ys h = cc

loaded : (b v w : Bool) → v ≡ w → (ipv6_available b v).0 ≡ w
unfolding ipv6_available
loaded b v w e = ground arith

module _ (addresses : List Name) where
  -- How far the check has come: not begun, at work on what is left, or over.
  data Stage (s : Connectivity) (so_far : List (Name × Bool)) : Type 0 where
    fresh :
        s.started ≡ false
        → s.trying ≡ none
        → s.answered ≡ false
        → s.available ≡ false
        → so_far ≡ []
        → Stage s so_far
    at_work :
        (left : List Name)
        → s.started ≡ true
        → s.trying ≡ some left
        → s.answered ≡ false
        → s.available ≡ false
        → any did_answer so_far ≡ false
        → map address_of so_far ++ left ≡ addresses
        → Stage s so_far
    found :
        s.started ≡ true
        → (s.trying ≡ some []) ⊎ ((s.trying ≡ none) × (s.answered ≡ true))
        → s.available ≡ true
        → (failed : List (Name × Bool)) (address : Name) (left : List Name)
        → so_far ≡ failed ++ (address, true) ∷ []
        → any did_answer failed ≡ false
        → map address_of so_far ++ left ≡ addresses
        → Stage s so_far
    lost :
        s.started ≡ true
        → s.trying ≡ none
        → s.answered ≡ true
        → s.available ≡ false
        → any did_answer so_far ≡ false
        → map address_of so_far ≡ addresses
        → Stage s so_far

  same :
      (s s' : Connectivity) (so_far : List (Name × Bool))
      → s'.answered ≡ s.answered
      → s'.available ≡ s.available
      → s'.started ≡ s.started
      → s'.trying ≡ s.trying
      → Stage s so_far
      → Stage s' so_far
  same s s' so_far a v b t (fresh h i j k l) = fresh (b ∙ h) (t ∙ i) (a ∙ j) (v ∙ k) l
  same s s' so_far a v b t (at_work left h i j k l m) =
      at_work left (b ∙ h) (t ∙ i) (a ∙ j) (v ∙ k) l m
  same s s' so_far a v b t (found h (inl i) k failed address left l m n) =
      found (b ∙ h) (inl (t ∙ i)) (v ∙ k) failed address left l m n
  same s s' so_far a v b t (found h (inr i) k failed address left l m n) =
      found (b ∙ h) (inr (t ∙ i.0, a ∙ i.1)) (v ∙ k) failed address left l m n
  same s s' so_far a v b t (lost h i j k l m) = lost (b ∙ h) (t ∙ i) (a ∙ j) (v ∙ k) l m

  passed :
      (address : Name) (rest left : List Name) (so_far : List (Name × Bool)) (ok : Bool)
      → left ≡ address ∷ rest
      → map address_of so_far ++ left ≡ addresses
      → map address_of (so_far ++ (address, ok) ∷ []) ++ rest ≡ addresses
  passed address rest left so_far ok e m =
      ap (λ z. z ++ rest) (map_append so_far ((address, ok) ∷ []))
      ∙ append_assoc (map address_of so_far) (address ∷ []) rest
      ∙ ap (λ z. map address_of so_far ++ z) (sym e)
      ∙ m

  begin_stage :
      (s : Connectivity) (n : ℕ) (so_far : List (Name × Bool))
      → s.started ≡ false
      → Stage s so_far
      → Stage (record s { waiting = n; started = true; trying = some addresses }) so_far
  begin_stage s n so_far b (fresh h i j k l) =
      at_work addresses refl refl j k (ap (any did_answer) l)
        (ap (λ z. map address_of z ++ addresses) l)
  begin_stage s n so_far b (at_work left h i j k l m) = cc
  begin_stage s n so_far b (found h i k failed address left l m o) = cc
  begin_stage s n so_far b (lost h i j k l m) = cc

  try_stage :
      (s : Connectivity) (address : Name) (rest : List Name) (e : Option GoError)
      (so_far : List (Name × Bool))
      → s.trying ≡ some (address ∷ rest)
      → Stage s so_far
      → Stage (try_address s rest e) (so_far ++ (address, succeeded e) ∷ [])
  unfolding try_address
  try_stage s address rest e so_far t (fresh h i j k l) = cc
  try_stage s address rest e so_far t (found h (inl i) k failed a left l m o) = cc
  try_stage s address rest e so_far t (found h (inr i) k failed a left l m o) = cc
  try_stage s address rest e so_far t (lost h i j k l m) = cc
  try_stage s address rest (some x) so_far t (at_work left h i j k l m) =
      at_work rest h refl j refl (any-append so_far _ ∙ rw l refl)
        (passed address rest left so_far false (head _ _ (sym i ∙ t)) m)
  try_stage s address rest none so_far t (at_work left h i j k l m) =
      found h (inl refl) refl so_far address rest refl l
        (passed address rest left so_far true (head _ _ (sym i ∙ t)) m)

  end_stage :
      (s : Connectivity) (so_far : List (Name × Bool))
      → s.trying ≡ some []
      → Stage s so_far
      → Stage (record s { answered = true; trying = none }) so_far
  end_stage s so_far t (fresh h i j k l) = cc
  end_stage s so_far t (found h i k failed a left l m o) =
      found h (inr (refl, refl)) k failed a left l m o
  end_stage s so_far t (lost h i j k l m) = cc
  end_stage s so_far t (at_work left h i j k l m) = lost h refl refl k l (
      sym (append-nil (map address_of so_far))
      ∙ ap (λ z. map address_of so_far ++ z) (sym (head _ _ (sym i ∙ t)))
      ∙ m)

  Checks-Stage :
      {s s' : Connectivity} {now : List (Name × Bool)} (so_far : List (Name × Bool))
      → Checks addresses s now s'
      → Stage s so_far
      → Stage s' (so_far ++ now)
  Checks-Stage so_far (asked s b h) st =
      rw (append-nil so_far)
        (same s (record s { waiting = s.waiting + 1 }) so_far refl refl refl refl st)
  Checks-Stage so_far (begins s n w b) st = rw (append-nil so_far) (begin_stage s n so_far b st)
  Checks-Stage so_far (passes s n w b t) st =
      rw (append-nil so_far) (same s (record s { waiting = n }) so_far refl refl refl refl st)
  Checks-Stage so_far (tries s address rest e t) st = try_stage s address rest e so_far t st
  Checks-Stage so_far (ends s t) st = rw (append-nil so_far) (end_stage s so_far t st)

  Reached-Stage :
      {s : Connectivity} {so_far : List (Name × Bool)} → Reached addresses s so_far → Stage s so_far
  Reached-Stage begun = fresh refl refl refl refl refl
  Reached-Stage (moved s s' so_far now r c) = Checks-Stage so_far c (Reached-Stage r)

  -- None of what was tried answered, or only the last did.
  abbrev pub Ended : List (Name × Bool) → Type 0
  Ended so_far =
      (any did_answer so_far ≡ false)
      ⊎ ((failed : List (Name × Bool)) × (address : Name) × (so_far
            ≡ failed ++ (address, true) ∷ [])
          × (any did_answer failed ≡ false))

  -- At every moment, however the calls and the check are interleaved: a call of `IPv6Available` returns
  -- whether a server has answered by the time of its second load, whatever its first one read. The
  -- addresses were tried in their order, each once at most and none after an answer. Once the check is
  -- over, one has answered or all were tried.
  pub Reached-ipv6_available :
      (s : Connectivity) (so_far : List (Name × Bool)) (first : Bool)
      → Reached addresses s so_far
      → ((ipv6_available first s.available).0 ≡ any did_answer so_far)
        × ((left : List Name) × (map address_of so_far ++ left ≡ addresses))
        × Ended so_far
        × (s.answered ≡ true → (any did_answer so_far ≡ true) ⊎ (map address_of so_far ≡ addresses))
  Reached-ipv6_available s so_far first r = read (Reached-Stage r)
    where
      read :
          Stage s so_far
          → ((ipv6_available first s.available).0 ≡ any did_answer so_far)
            × ((left : List Name) × (map address_of so_far ++ left ≡ addresses))
            × Ended so_far
            × (s.answered ≡ true
                → (any did_answer so_far ≡ true) ⊎ (map address_of so_far ≡ addresses))
      read (fresh h i j k l) =
          let none_yet : any did_answer so_far ≡ false = ap (any did_answer) l in
          (
            loaded first s.available (any did_answer so_far) (k ∙ sym none_yet),
            (addresses, ap (λ z. map address_of z ++ addresses) l),
            inl none_yet,
            λ e. cc,
          )
      read (at_work left h i j k l m) =
          (loaded first s.available (any did_answer so_far) (k ∙ sym l), (left, m), inl l, λ e. cc)
      read (found h i k failed address left l m o) =
          let one : any did_answer so_far ≡ true =
            ap (any did_answer) l ∙ any-append failed ((address, true) ∷ []) ∙ rw m refl in
          (
            loaded first s.available (any did_answer so_far) (k ∙ sym one),
            (left, o),
            inr (failed, address, l, m),
            λ e. inl one,
          )
      read (lost h i j k l m) = (
        loaded first s.available (any did_answer so_far) (k ∙ sym l),
        ([], append-nil (map address_of so_far) ∙ m),
        inl l,
        λ e. inr m,
      )
