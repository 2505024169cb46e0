-- ===== src/Resolver/Queue/Running/Waits.antt =====
-- The wait group of auth.go counts what is still to be done, and waiting for it ends.
use resolver_lib.Prelude.{
  ℕ, zero, suc, ◌+◌, ◌*◌, ◌<◌, ◌≡◌, refl, ap, ◌∙◌, ◌≢◌, ◌⊎◌, inl, inr, true, false, List, [], ◌∷◌,
  ◌++◌, Option, none, some, length, length-append, Bool-cases, Option-cases, arith,
}
use resolver_lib.Dns.{Question}
use resolver_lib.Dnssec.Env.{Env}
use resolver_lib.Dnssec.Authenticator.{Input, add_response}
use resolver_lib.Resolver.Queue.Running.{
  Sending, Running, done, Works, answered, unanswered, entered, took, processed, Moves, works, sent,
  linked, finishes, closes, Reached, begun, moved,
}

-- What the messages on their way hold of the wait group.
weight : List Sending → ℕ
weight [] = 0
weight (x ∷ xs) = 1 + done x.ends + weight xs

weight-append : (xs ys : List Sending) → weight (xs ++ ys) ≡ weight xs + weight ys
unfolding weight
weight-append [] ys = omega arith
weight-append (x ∷ xs) ys = omega (arith, weight-append xs ys)

abbrev held : Option Input → ℕ
held none = 0
held (some i) = 1

-- The wait group counts each goroutine that asks, each message on its way, in the channel or in hand.
record IsCounted (s : Running) : Type 0 where
  all : s.processing ≡ s.links + weight s.sending + length s.queue + held s.taken
  quiet : s.closed ≡ true → (s.finished ≡ true) × (s.processing ≡ 0)

module _ (env : Env) where
  Works-counted :
      {s s' : Running} {entering : List Input}
      → Works env s entering s'
      → IsCounted s
      → s'.processing ≡ s'.links + weight s'.sending + length s'.queue + held s'.taken
  unfolding weight
  Works-counted (answered s n i e) c =
      omega (arith, weight-append s.sending (record { input = i; ends = true } ∷ []), c.all)
  Works-counted (unanswered s n e) c = omega (arith, c.all)
  Works-counted (entered s before after x e l open_) c =
      let w = ap weight e ∙ weight-append before (x ∷ after) in
      omega (arith, w, weight-append before after, length-append s.queue (x.input ∷ []), c.all)
  Works-counted (took s i queue e f) c = omega (arith, ap (length {0}) e, ap held f, c.all)
  Works-counted (processed s i t e f) c = omega (arith, ap held e, c.all)

  Works-quiet :
      {s s' : Running} {entering : List Input}
      → Works env s entering s'
      → IsCounted s
      → s'.closed ≡ true
      → (s'.finished ≡ true) × (s'.processing ≡ 0)
  Works-quiet (answered s n i e) c h = let (f, z) = c.quiet h in absurd (omega (arith, c.all))
  Works-quiet (unanswered s n e) c h = let (f, z) = c.quiet h in absurd (omega (arith, c.all))
  Works-quiet (entered s before after x e l open_) c h = cc
  Works-quiet (took s i queue e f) c h = c.quiet h
  Works-quiet (processed s i t e f) c h = let (g, z) = c.quiet h in (g, omega arith)

  Moves-IsCounted :
      {s s' : Running} {entering : List Input}
      → Moves env s entering s'
      → IsCounted s
      → IsCounted s'
  unfolding weight
  Moves-IsCounted (works s s' entering w) c = record {
    all = Works-counted w c;
    quiet = Works-quiet w c;
  }
  Moves-IsCounted (sent s i e) c = record {
    all = omega (arith, weight-append s.sending (record { input = i; ends = false } ∷ []), c.all);
    quiet = λ h. let (f, z) = c.quiet h in cc;
  }
  Moves-IsCounted (linked s e) c = record {
    all = omega (arith, c.all);
    quiet = λ h. let (f, z) = c.quiet h in cc;
  }
  Moves-IsCounted (finishes s) c = record { all = c.all; quiet = λ h. (refl, (c.quiet h).1) }
  Moves-IsCounted (closes s f z) c = record { all = c.all; quiet = λ h. (f, z) }

  Reached-IsCounted :
      {q : Question} {s : Running} {so_far : List Input} → Reached env q s so_far → IsCounted s
  unfolding weight
  Reached-IsCounted begun = record { all = refl; quiet = λ h. cc }
  Reached-IsCounted (moved s s' so_far entering r m) = Moves-IsCounted m (Reached-IsCounted r)

  -- How much is left to do: an upper bound on the inner steps.
  pub left : Running → ℕ
  left s = 5 * s.links + 3 * length s.sending + 2 * length s.queue + held s.taken

  Works-left : {s s' : Running} {entering : List Input} → Works env s entering s' → left s' < left s
  unfolding left
  Works-left (answered s n i e) =
      omega (arith, length-append s.sending (record { input = i; ends = true } ∷ []))
  Works-left (unanswered s n e) = omega arith
  Works-left (entered s before after x e l open_) = omega (
    arith,
    ap (length {0}) e,
    length-append before (x ∷ after),
    length-append before after,
    length-append s.queue (x.input ∷ []),
  )
  Works-left (took s i queue e f) = omega (arith, ap (length {0}) e, ap held f)
  Works-left (processed s i t e f) = omega (arith, ap held e)

  -- Some inner step can be made.
  abbrev pub Proceeds : Running → Type 0
  Proceeds s = (entering : List Input) × (s' : Running) × Works env s entering s'

  -- The response in hand makes the validator panic.
  abbrev pub Panics : Running → Type 0
  Panics s = (i : Input) × (s.taken ≡ some i) × (add_response env s.work.auth i.zone i.msg ≡ none)

  proceeds : (s : Running) → IsCounted s → s.processing ≢ 0 → Proceeds s ⊎ Panics s
  unfolding weight
  proceeds s c busy = elim (Option-cases s.taken) [
    | inr (i, e) ↦ elim (Option-cases (add_response env s.work.auth i.zone i.msg)) [
      | inl f ↦ inr (i, e, f)
      | inr (t, f) ↦ inl (_, _, processed s i t e f)
    ]
    | inl e ↦ inl (from_queue s.queue refl e)
  ]
    where
      from_links :
          (n : ℕ) → s.links ≡ n → s.taken ≡ none → s.queue ≡ [] → s.sending ≡ [] → Proceeds s
      from_links zero l e q d =
          absurd (busy (omega (arith, ap held e, ap (length {0}) q, ap weight d, c.all)))
      from_links (suc n) l e q d = (_, _, unanswered s n l)

      from_sending :
          (xs : List Sending) → s.sending ≡ xs → s.taken ≡ none → s.queue ≡ [] → Proceeds s
      from_sending [] d e q = from_links s.links refl e q d
      from_sending (x ∷ xs) d e q = elim (Bool-cases s.closed) [
        | inl t ↦ absurd (busy (c.quiet t).1)
        | inr f ↦ (_, _, entered s [] xs x d (omega (arith, ap (length {0}) q)) f)
      ]

      from_queue : (xs : List Input) → s.queue ≡ xs → s.taken ≡ none → Proceeds s
      from_queue [] q e = from_sending s.sending refl e q
      from_queue (i ∷ xs) q e = (_, _, took s i xs q e)

  nothing_left :
      (s : Running)
      → IsCounted s
      → s.processing ≡ 0
      → (s.links ≡ 0) × (s.sending ≡ []) × (s.queue ≡ []) × (s.taken ≡ none)
  unfolding weight
  nothing_left s c z = (
    omega (arith, c.all),
    no_sending s.sending (omega (arith, c.all)),
    no_queue s.queue (omega (arith, c.all)),
    no_taken s.taken (omega (arith, c.all)),
  )
    where
      no_sending : (xs : List Sending) → weight xs ≡ 0 → xs ≡ []
      no_sending [] h = refl
      no_sending (x ∷ xs) h = absurd (omega arith)

      no_queue : (xs : List Input) → length xs ≡ 0 → xs ≡ []
      no_queue [] h = refl
      no_queue (x ∷ xs) h = absurd (omega arith)

      no_taken : (o : Option Input) → held o ≡ 0 → o ≡ none
      no_taken none h = refl
      no_taken (some i) h = absurd (omega arith)

  -- Waiting ends, and loses nothing. In every state that there can be: while the wait group is not at
  -- 0, some inner step can be made, or else the response in hand makes the validator panic; each inner
  -- step leaves less to do; at 0 nothing is on its way, in the channel or in hand; and once the
  -- channel is closed, nothing is sent into it any more.
  pub waiting_ends :
      {q : Question} {s : Running} {so_far : List Input}
      → Reached env q s so_far
      → (s.processing ≢ 0 → Proceeds s ⊎ Panics s)
        × ((entering : List Input) (s' : Running) → Works env s entering s' → left s' < left s)
        × (s.processing ≡ 0 → (s.links ≡ 0) × (s.sending ≡ []) × (s.queue ≡ []) × (s.taken ≡ none))
        × (s.closed ≡ true → (s.links ≡ 0) × (s.sending ≡ []))
  waiting_ends {s = s} r =
      let c = Reached-IsCounted r in
      (
        proceeds s c,
        λ entering s' w. Works-left w,
        nothing_left s c,
        λ h. let (l, d, q, t) = nothing_left s c (c.quiet h).1 in (l, d),
      )
