-- ===== src/Dnssec/Authenticator/Verdicts.antt =====
-- What the verdict of `Result` of dnssec/result.go says of the results.
use resolver_lib.Prelude.{
  ◌≡◌, refl, subst, sym, ap, ◌∙◌, ◌≢◌, inl, inr, true, false, List, [], ◌∷◌, Option, none, some,
  >>=-eq-some, Bool-cases, Option-cases, arith, get_last?, All, In, drop,
}
use resolver_lib.Dns.{Question}
use resolver_lib.Dnssec.Status.{
  AuthenticationResult, unknown, secure, bogus, is_secure, is_bogus, not_found,
}
use resolver_lib.Dnssec.Env.{Env}
use resolver_lib.Dnssec.Outcome.{Result, Outcome}
use resolver_lib.Dnssec.Verify.Secure.{IsSecured, verify-secure}
use resolver_lib.Dnssec.Authenticator.Chain.{HasChain, IsChain, drain_all-HasChain}
use resolver_lib.Dnssec.Authenticator.{Authenticator, settle, ds_records_of, drain_all}
use resolver_lib.Dnssec.Authenticator.Answers.{Concludes, last_state-Concludes}
use resolver_lib.Dnssec.Authenticator.Judge.{
  Verdict, verdict, find_bogus, break_verdict, walk, last_state, judge, result,
}

abbrev pub AllSecure : List Result → Type 0
AllSecure rs = All (λ r. r.state ≡ secure) rs

get_last?-none : (rs : List Result) → get_last? rs ≡ none → rs ≡ []
get_last?-none [] h = refl
get_last?-none (x ∷ []) h = cc
get_last?-none (x ∷ y ∷ rs) h = cc (get_last?-none (y ∷ rs) h)

is_secure-eq : (s : AuthenticationResult) → is_secure s ≡ true → s ≡ secure
is_secure-eq s h = ground arith

find_bogus-In :
    (r : Result) (rs : List Result)
    → In r rs
    → r.state ≡ bogus
    → (b : Result) × (find_bogus rs ≡ some b)
unfolding find_bogus
find_bogus-In r [] m s = absurd m
find_bogus-In r (x ∷ rs) (inl e) s = (x, ground arith)
find_bogus-In r (x ∷ rs) (inr m) s = elim (Bool-cases (is_bogus x.state)) [
  | inl t ↦ (x, rw t)
  | inr t ↦ let k = find_bogus-In r rs m s in (k.0, rw t k.1)
]

module _ (env : Env) where
  -- One bogus result makes the verdict bogus.
  pub judge_bogus :
      (q : Question) (rs : List Result) (r : Result)
      → In r rs
      → r.state ≡ bogus
      → (v : Verdict) × (judge env q rs ≡ some v) × (v.auth ≡ bogus)
  unfolding judge
  judge_bogus q rs r m s = let (b, e) = find_bogus-In r rs m s in go (get_last? rs) refl b e
    where
      go :
          (o : Option Result)
          → get_last? rs ≡ o
          → (b : Result) → find_bogus rs ≡ some b
          → (v : Verdict) × (judge env q rs ≡ some v) × (v.auth ≡ bogus)
      go none l b e = absurd (subst (In r) (get_last?-none rs l) m)
      go (some last) l b e = (verdict bogus not_found b.err, rw (l, e, judge), refl)

  break_verdict-ne_secure :
      (p r : Result) (v : Verdict) → break_verdict env p r ≡ some v → v.auth ≢ secure
  unfolding break_verdict
  break_verdict-ne_secure p r v h s = ground arith

  -- The walk ends without a verdict only on secure results, and no verdict of it is secure.
  walk_cases :
      (previous : Option Result) (rs : List Result)
      → (walk env previous rs ≡ some none → AllSecure rs)
        × ((v : Verdict) → walk env previous rs ≡ some (some v) → v.auth ≢ secure)
  unfolding walk
  walk_cases previous [] = (λ h. tt, λ v h. cc)
  walk_cases previous (r ∷ rs) = elim (Bool-cases (is_secure r.state)) [
    | inl t ↦ (
      λ h. (is_secure-eq r.state t, (walk_cases (some r) rs).0 (rw t at h)),
      λ v h. (walk_cases (some r) rs).1 v (rw t at h),
    )
    | inr f ↦ (λ h. absurd (stop_some f previous h), λ v h. stop_ne f previous v h)
  ]
    where
      stop_some : is_secure r.state ≡ false → (p : Option Result) → walk env p (r ∷ rs) ≢ some none
      stop_some f none h = cc (rw f at h)
      stop_some f (some p) h =
          let (v, e, g) = >>=-eq-some (break_verdict env p r) _ (rw f at h) in cc

      stop_ne :
          is_secure r.state ≡ false
          → (p : Option Result) (v : Verdict) → walk env p (r ∷ rs) ≡ some (some v)
          → v.auth ≢ secure
      stop_ne f none v h s =
          let k : verdict r.state r.denial_of_existence r.err ≡ v = cc (rw f at h) in
          cc (ap is_secure (ap (λ (x : Verdict). x.auth) k ∙ s), f)
      stop_ne f (some p) v h s =
          let (w, e, g) = >>=-eq-some (break_verdict env p r) _ (rw f at h) in
          let k : w ≡ v = cc in break_verdict-ne_secure p r w e (ap (λ (x : Verdict). x.auth) k ∙ s)

  -- A secure verdict means that there are results, that all of them are secure, and that the last
  -- one denies the data or the name, or is a positive answer: no SOA in its authority section, and a
  -- record in its answer section with the name that was asked for and its type, or a CNAME.
  pub judge_secure :
      (q : Question) (rs : List Result) (v : Verdict)
      → judge env q rs ≡ some v
      → v.auth ≡ secure
      → AllSecure rs
        × ((last : Result) × (get_last? rs ≡ some last)
            × (v.doe ≡ last.denial_of_existence)
            × Concludes q last)
  unfolding judge
  judge_secure q rs v h s = go (get_last? rs) refl
    where
      go :
          (o : Option Result)
          → get_last? rs ≡ o
          → AllSecure rs
            × ((last : Result) × (get_last? rs ≡ some last)
                × (v.doe ≡ last.denial_of_existence)
                × Concludes q last)
      go none l = cc (rw (l, judge) at h, s)
      go (some last) l = elim (Option-cases (find_bogus rs)) [
        | inr (b, e) ↦ cc (rw (l, e, judge) at h, s)
        | inl e ↦
            let (w, f, g) = >>=-eq-some (walk env none rs) _ (rw (l, e, judge) at h) in
            elim (Option-cases w) [
              | inr (x, k) ↦
                  let y : x ≡ v = cc (rw k at g) in
                  absurd
                    ((walk_cases none rs).1 x (f ∙ ap some k) (ap (λ (z : Verdict). z.auth) y ∙ s))
              | inl k ↦
                  let y : verdict (last_state q last) last.denial_of_existence last.err ≡ v =
                    cc (rw k at g) in
                  (
                    (walk_cases none rs).0 (f ∙ ap some k),
                    (
                      last,
                      l,
                      ap (λ (z : Verdict). z.doe) (sym y),
                      last_state-Concludes q last (ap (λ (z : Verdict). z.auth) y ∙ s),
                    ),
                  )
            ]
      ]

  -- Each result is secured by the DS records that are left of the one before it, the first one by
  -- the trust anchors.
  abbrev pub AllVouched : Option Result → List Result → Type 0
  AllVouched previous [] = Unit
  AllVouched previous (r ∷ rs) =
      IsSecured env r.zone r.msg (ds_records_of env previous) r.ds_records × AllVouched (some r) rs

  settle-ds_records : (o : Outcome) → (settle o).ds_records ≡ o.result.ds_records
  settle-ds_records o = elim (Option-cases o.err) [ inl e ↦ rw e refl | inr (x, e) ↦ rw e refl ]

  settle-secure : (o : Outcome) → (settle o).state ≡ secure → o.status ≡ secure
  settle-secure o h = ground arith

  chain_vouched :
      (previous : Option Result) (rs : List Result)
      → IsChain env previous rs
      → AllSecure rs
      → AllVouched previous rs
  chain_vouched previous [] c s = tt
  chain_vouched previous (r ∷ rs) c s =
      let (o, v, e) = c.0 in
      let st : o.status ≡ secure = settle-secure o (ap (λ (x : Result). x.state) (sym e) ∙ s.0) in
      (
        subst (λ x. IsSecured env r.zone r.msg (ds_records_of env previous) x)
            (sym (ap (λ (x : Result). x.ds_records) e ∙ settle-ds_records o))
            (verify-secure env r.zone r.msg (ds_records_of env previous) o v st),
        chain_vouched (some r) rs c.2 s.1,
      )

  some_pair :
      (x y : Authenticator) (v w : Verdict)
      → ◌≡◌ {A = Option (Authenticator × Verdict)} (some (x, v)) (some (y, w))
      → (x ≡ y) × (v ≡ w)
  some_pair x y v w h = (cc, cc)

  not_secure_unknown : unknown ≢ secure
  not_secure_unknown h = cc

  pub result_secure :
      (a : Authenticator) (b : Authenticator) (v : Verdict)
      → HasChain env a
      → result env a ≡ some (b, v)
      → v.auth ≡ secure
      → AllSecure b.results × AllVouched none b.results
  unfolding result
  result_secure a b v c h s =
      let rest = drop a.input_buffer_idx a.input_buffer in
      let (t, e, f) = >>=-eq-some (drain_all env a rest) _ h in
      let c' = drain_all-HasChain env rest a t c e in
      elim (Option-cases t.err) [
        | inr (x, q) ↦
            let y = (some_pair (t.auth) b (verdict unknown not_found (some x)) v (rw q at f)).1 in
            absurd (not_secure_unknown (ap (λ (z : Verdict). z.auth) y ∙ s))
        | inl q ↦
            let (w, g, k) = >>=-eq-some (judge env t.auth.question t.auth.results) _ (rw q at f) in
            let y = some_pair t.auth b w v k in
            let secure_w : w.auth ≡ secure = ap (λ (x : Verdict). x.auth) y.1 ∙ s in
            let j = judge_secure t.auth.question t.auth.results w g secure_w in
            rw (← y.0) (j.0, chain_vouched none t.auth.results c' j.0)
      ]
