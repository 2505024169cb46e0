-- ===== src/Resolver/Queue/Running/Refines.antt =====
-- The goroutines of auth.go, whatever their order, do what working the messages off in the order of
-- their arrival does.
use mathlib.Core.List.{append-nil, append_assoc}
use resolver_lib.Prelude.{
  ◌≡◌, refl, sym, ap, subst, ◌∙◌, List, [], ◌∷◌, ◌++◌, Option, none, some, >>=-eq-some,
}
use resolver_lib.Dns.{Question}
use resolver_lib.Dnssec.Env.{Env}
use resolver_lib.Dnssec.Authenticator.{Input, Authenticator, add_response, Step}
use resolver_lib.Resolver.Queue.{Queue, new_authenticator, append_error, work_off}
use resolver_lib.Resolver.Queue.Running.{
  Running, Works, answered, unanswered, entered, took, processed, Moves, works, sent, linked,
  finishes, closes, Reached, begun, moved,
}
use resolver_lib.Resolver.Queue.Running.Waits.{waiting_ends}

abbrev in_hand : Option Input → List Input
in_hand none = []
in_hand (some i) = i ∷ []

module _ (env : Env) where
  -- One more message, after those that were worked off.
  work_off-append :
      (xs : List Input) (a b : Queue) (i : Input) (t : Step)
      → work_off env a xs ≡ some b
      → add_response env b.auth i.zone i.msg ≡ some t
      → work_off env a (xs ++ i ∷ [])
        ≡ some (record { auth = t.auth; errors = append_error b.errors t.err })
  unfolding work_off
  work_off-append [] a b i t h e =
      let same : a ≡ b = cc in
      let e' = subst (λ x. add_response env x.auth i.zone i.msg ≡ some t) (sym same) e in
      simp e' (ap (λ x. some (record { auth = t.auth; errors = append_error x.errors t.err })) same)
  work_off-append (x ∷ xs) a b i t h e =
      let (s, f, rest) = >>=-eq-some (add_response env a.auth x.zone x.msg) _ h in
      simp f (
        work_off-append xs (record { auth = s.auth; errors = append_error a.errors s.err }) b i t
          rest e)

  -- What has entered the channel was worked off, is in hand or is still there.
  record IsTraced (q : Question) (s : Running) (so_far : List Input) : Type 0 where
    past : List Input
    whole : so_far ≡ past ++ (in_hand s.taken ++ s.queue)
    worked : work_off env (new_authenticator env q) past ≡ some s.work

  Works-IsTraced :
      {q : Question} {s s' : Running} {so_far entering : List Input}
      → Works env s entering s'
      → IsTraced q s so_far
      → IsTraced q s' (so_far ++ entering)
  Works-IsTraced {so_far = h} (answered s n i e) t = record {
    past = t.past;
    whole = append-nil h ∙ t.whole;
    worked = t.worked;
  }
  Works-IsTraced {so_far = h} (unanswered s n e) t = record {
    past = t.past;
    whole = append-nil h ∙ t.whole;
    worked = t.worked;
  }
  Works-IsTraced {so_far = h} (entered s before after x e l o) t = record {
    past = t.past;
    whole =
        ap (λ z. z ++ x.input ∷ []) t.whole
        ∙ append_assoc t.past (in_hand s.taken ++ s.queue) (x.input ∷ [])
        ∙ ap (λ z. t.past ++ z) (append_assoc (in_hand s.taken) s.queue (x.input ∷ []));
    worked = t.worked;
  }
  Works-IsTraced {so_far = h} (took s i queue e f) t = record {
    past = t.past;
    whole = append-nil h ∙ t.whole ∙ ap (λ z. t.past ++ z) (ap (λ z. in_hand z ++ s.queue) f ∙ e);
    worked = t.worked;
  }
  Works-IsTraced {so_far = h} (processed s i r e f) t = record {
    past = t.past ++ i ∷ [];
    whole =
        append-nil h
        ∙ t.whole
        ∙ ap (λ z. t.past ++ (in_hand z ++ s.queue)) e
        ∙ sym (append_assoc t.past (i ∷ []) s.queue);
    worked = work_off-append t.past _ s.work i r t.worked f;
  }

  Moves-IsTraced :
      {q : Question} {s s' : Running} {so_far entering : List Input}
      → Moves env s entering s'
      → IsTraced q s so_far
      → IsTraced q s' (so_far ++ entering)
  Moves-IsTraced (works s s' entering w) t = Works-IsTraced w t
  Moves-IsTraced {so_far = h} (sent s i e) t = record {
    past = t.past;
    whole = append-nil h ∙ t.whole;
    worked = t.worked;
  }
  Moves-IsTraced {so_far = h} (linked s e) t = record {
    past = t.past;
    whole = append-nil h ∙ t.whole;
    worked = t.worked;
  }
  Moves-IsTraced {so_far = h} (finishes s) t = record {
    past = t.past;
    whole = append-nil h ∙ t.whole;
    worked = t.worked;
  }
  Moves-IsTraced {so_far = h} (closes s f z) t = record {
    past = t.past;
    whole = append-nil h ∙ t.whole;
    worked = t.worked;
  }

  Reached-IsTraced :
      {q : Question} {s : Running} {so_far : List Input}
      → Reached env q s so_far
      → IsTraced q s so_far
  unfolding work_off
  Reached-IsTraced begun = record { past = []; whole = refl; worked = refl }
  Reached-IsTraced (moved s s' so_far entering r m) = Moves-IsTraced m (Reached-IsTraced r)

  -- Whatever the goroutines do and in whatever order: once the wait group is at 0, which is when
  -- `result` reads on, the validator has been given all messages that entered the channel, and what
  -- was made of them is what working them off one by one in the order of their arrival makes of them.
  pub Reached-work_off :
      {q : Question} {s : Running} {so_far : List Input}
      → Reached env q s so_far
      → s.processing ≡ 0
      → work_off env (new_authenticator env q) so_far ≡ some s.work
  Reached-work_off {q} {s} {so_far} r z =
      let t = Reached-IsTraced r in
      let (l, d, e, f) = (waiting_ends env r).2 z in
      let whole : so_far ≡ t.past =
        t.whole
        ∙ ap (λ x. t.past ++ (in_hand x ++ s.queue)) f
        ∙ ap (λ x. t.past ++ x) e
        ∙ append-nil t.past in
      ap (work_off env (new_authenticator env q)) whole ∙ t.worked
