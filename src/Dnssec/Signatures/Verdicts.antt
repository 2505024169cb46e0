-- ===== src/Dnssec/Signatures/Verdicts.antt =====
-- When the two policies of dnssec/signatures.go accept a set of signatures.
use resolver_lib.Prelude.{
  ℕ, ◌==◌, ==_iff, ◌≡◌, refl, sym, ap, ◌∙◌, ◌≢◌, ◌↔◌, inl, inr, Bool, true, false, ◌&&◌, ◌||◌, List,
  [], ◌∷◌, Option, none, some, any, any-true, any-In, In, All, In-All, arith, Bool-cases, lookup,
  insert, lookup-insert, IsMap, insert-IsMap, lookup-In, In-lookup, nat_key, Option-cases,
}
use resolver_lib.Dns.{GoError}
use resolver_lib.Dnssec.Signatures.{
  Signature, RrsetState, update_state, collect_states, report_states,
  verify_one_or_more_rrsig_per_rrset, wrap_unverified, verify_all_rrsigs_per_rrset,
  verify_signatures,
}

abbrev seen_of : Option RrsetState → Bool
seen_of none = false
seen_of (some st) = st.verified_sig_seen

abbrev is_some : Option RrsetState → Bool
is_some none = false
is_some (some st) = true

abbrev vouched : ℕ → List Signature → Bool
vouched t = any (λ s. (s.rtype == t) && s.verified)

abbrev present : ℕ → List Signature → Bool
present t = any (λ s. s.rtype == t)

seen_of-update :
    (o : Option RrsetState) (s : Signature)
    → seen_of (some (update_state o s)) ≡ (seen_of o || s.verified)
seen_of-update none s = refl
seen_of-update (some st) s = refl

collect_states-seen :
    (t : ℕ) (m : List (ℕ × RrsetState)) (ss : List Signature)
    → seen_of (lookup t (collect_states m ss)) ≡ (seen_of (lookup t m) || vouched t ss)
unfolding collect_states
collect_states-seen t m [] = ground arith
collect_states-seen t m (s ∷ ss) = ground (
  arith,
  collect_states-seen t (insert s.rtype (update_state (lookup s.rtype m) s) m) ss,
  lookup-insert s.rtype t (update_state (lookup s.rtype m) s) m,
  seen_of-update (lookup s.rtype m) s,
  ==_iff s.rtype t,
)

collect_states-present :
    (t : ℕ) (m : List (ℕ × RrsetState)) (ss : List Signature)
    → is_some (lookup t (collect_states m ss)) ≡ (is_some (lookup t m) || present t ss)
unfolding collect_states
collect_states-present t m [] = ground arith
collect_states-present t m (s ∷ ss) = ground (
  arith,
  collect_states-present t (insert s.rtype (update_state (lookup s.rtype m) s) m) ss,
  lookup-insert s.rtype t (update_state (lookup s.rtype m) s) m,
)

collect_states-IsMap :
    (m : List (ℕ × RrsetState)) (ss : List Signature) → IsMap m → IsMap (collect_states m ss)
unfolding collect_states
collect_states-IsMap m [] h = h
collect_states-IsMap m (s ∷ ss) h =
    collect_states-IsMap (insert s.rtype (update_state (lookup s.rtype m) s) m) ss
      (insert-IsMap s.rtype (update_state (lookup s.rtype m) s) m h)

report_states-some : (e : GoError) (m : List (ℕ × RrsetState)) → report_states (some e) m ≢ none
unfolding report_states
report_states-some e [] h = cc
report_states-some e ((t, st) ∷ m) h = elim (Bool-cases st.verified_sig_seen) [
  | inl q ↦ report_states-some e m (rw (q, report_states) at h)
  | inr q ↦ report_states-some _ m (rw (q, report_states) at h)
]

abbrev AllSeen : List (ℕ × RrsetState) → Type 0
AllSeen m = (t : ℕ) (st : RrsetState) → In (t, st) m → st.verified_sig_seen ≡ true

report_states-none : (m : List (ℕ × RrsetState)) → (report_states none m ≡ none) ↔ AllSeen m
unfolding report_states
report_states-none [] = (λ h t st i. absurd i, λ h. refl)
report_states-none ((t, st) ∷ m) = elim (Bool-cases st.verified_sig_seen) [
  | inl q ↦ (
    λ h u su i. elim i [
      | inl e ↦ ap (λ (x : ℕ × RrsetState). x.1.verified_sig_seen) e ∙ q
      | inr k ↦ (report_states-none m).0 (rw q at h) u su k
    ],
    λ h. rw q ((report_states-none m).1 (λ u su k. h u su (inr k))),
  )
  | inr q ↦ (λ h. absurd (report_states-some _ m (rw q at h)), λ h. cc (q, h t st (inl refl)))
]

-- Every signature's type has a verified signature.
abbrev pub EachTypeVouched : List Signature → Type 0
EachTypeVouched ss =
    (s : Signature)
    → In s ss
    → (s' : Signature) × In s' ss × (s'.rtype ≡ s.rtype) × (s'.verified ≡ true)

vouched-witness :
    (t : ℕ) (ss : List Signature)
    → vouched t ss ≡ true
    → (s' : Signature) × In s' ss × (s'.rtype ≡ t) × (s'.verified ≡ true)
vouched-witness t ss h =
    let k = any-true (λ s. (s.rtype == t) && s.verified) ss h in
    (k.0, k.1, ground arith, ground arith)

lookup_state :
    (t : ℕ) (ss : List Signature)
    → present t ss ≡ true
    → (st : RrsetState) × (lookup t (collect_states [] ss) ≡ some st)
unfolding lookup
lookup_state t ss h = elim (Option-cases (lookup t (collect_states [] ss))) [
  | inl e ↦ absurd (ground (arith, collect_states-present t [] ss))
  | inr k ↦ k
]

states_vouched :
    (t : ℕ) (st : RrsetState) (ss : List Signature)
    → lookup t (collect_states [] ss) ≡ some st
    → (st.verified_sig_seen ≡ vouched t ss) × (present t ss ≡ true)
unfolding lookup
states_vouched t st ss e =
    (ground (arith, collect_states-seen t [] ss), ground (arith, collect_states-present t [] ss))

states-vouched : (ss : List Signature) → AllSeen (collect_states [] ss) → EachTypeVouched ss
states-vouched ss all s m =
    let p : present s.rtype ss ≡ true = any-In _ s ss m (ground arith) in
    let k = lookup_state s.rtype ss p in
    let seen = all s.rtype k.0 (lookup-In s.rtype k.0 (collect_states [] ss) k.1) in
    vouched-witness s.rtype ss (sym (states_vouched s.rtype k.0 ss k.1).0 ∙ seen)

vouched-states : (ss : List Signature) → EachTypeVouched ss → AllSeen (collect_states [] ss)
vouched-states ss each t st i =
    let l = In-lookup t st (collect_states [] ss) (collect_states-IsMap [] ss tt) i in
    let v = states_vouched t st ss l in
    let (s, m, is_t) = any-true (λ (x : Signature). x.rtype == t) ss v.1 in
    let (s', m', same, ver) = each s m in
    v.0 ∙ any-In _ s' ss m' (ground (arith, ==_iff s.rtype t, ==_iff s'.rtype t))

-- Under the default policy a set is accepted exactly when it is not empty and each type that it has
-- a signature for has a verified signature.
pub verify_one_or_more_iff :
    (ss : List Signature)
    → (verify_one_or_more_rrsig_per_rrset ss ≡ none) ↔ ((ss ≢ []) × EachTypeVouched ss)
unfolding verify_one_or_more_rrsig_per_rrset
verify_one_or_more_iff [] = (λ h. cc, λ h. absurd (h.0 refl))
verify_one_or_more_iff (s ∷ []) = elim (Bool-cases s.verified) [
  | inl q ↦ (λ h. (λ e. cc, λ x m. (s, inl refl, one x m, q)), λ h. rw q)
  | inr q ↦ (
    λ h. cc (rw q at h),
    λ h. let k = h.1 s (inl refl) in elim k.1 [ inl e ↦ cc (q, k.3, e) | inr n ↦ absurd n ],
  )
]
  where
    one : (x : Signature) → In x (s ∷ []) → s.rtype ≡ x.rtype
    one x (inl e) = ap (λ (y : Signature). y.rtype) (sym e)
    one x (inr n) = absurd n
verify_one_or_more_iff (s ∷ s' ∷ ss) = (
  λ h. (λ e. cc, states-vouched (s ∷ s' ∷ ss) ((report_states-none _).0 h)),
  λ h. (report_states-none _).1 (vouched-states (s ∷ s' ∷ ss) h.1),
)

wrap_unverified-some : (e : GoError) (ss : List Signature) → wrap_unverified (some e) ss ≢ none
unfolding wrap_unverified
wrap_unverified-some e [] h = cc
wrap_unverified-some e (s ∷ ss) h = elim (Bool-cases s.verified) [
  | inl q ↦ wrap_unverified-some e ss (rw (q, wrap_unverified) at h)
  | inr q ↦ wrap_unverified-some _ ss (rw (q, wrap_unverified) at h)
]

wrap_unverified-none :
    (ss : List Signature) → (wrap_unverified none ss ≡ none) ↔ All (λ s. s.verified ≡ true) ss
unfolding wrap_unverified
wrap_unverified-none [] = (λ h. tt, λ h. refl)
wrap_unverified-none (s ∷ ss) = elim (Bool-cases s.verified) [
  | inl q ↦ (
    λ h. (q, (wrap_unverified-none ss).0 (rw q at h)),
    λ h. rw q ((wrap_unverified-none ss).1 h.1),
  )
  | inr q ↦ (λ h. absurd (wrap_unverified-some _ ss (rw q at h)), λ h. cc (q, h.0))
]

-- Under the strict policy a set is accepted exactly when it is not empty and all of its signatures
-- are verified.
pub verify-All_iff :
    (ss : List Signature)
    → (verify_all_rrsigs_per_rrset ss ≡ none) ↔ ((ss ≢ []) × All (λ s. s.verified ≡ true) ss)
unfolding verify_all_rrsigs_per_rrset
verify-All_iff [] = (λ h. cc, λ h. absurd (h.0 refl))
verify-All_iff (s ∷ ss) = (
  λ h. (λ e. cc, (wrap_unverified-none (s ∷ ss)).0 h),
  λ h. (wrap_unverified-none (s ∷ ss)).1 h.1,
)

-- What either policy accepts has a verified signature for each type, and is not empty.
pub verify_signatures-vouched :
    (require_all : Bool) (ss : List Signature)
    → verify_signatures require_all ss ≡ none
    → (ss ≢ []) × EachTypeVouched ss
unfolding verify_signatures
verify_signatures-vouched true ss h =
    let k = (verify-All_iff ss).0 h in (k.0, λ s m. (s, m, refl, In-All _ s ss k.1 m))
verify_signatures-vouched false ss h = (verify_one_or_more_iff ss).0 h

-- A signature set that the default policy accepts stays accepted with any further signature whose
-- type has a verified signature in the set, whatever its owner name is and whether or not it is
-- verified.
pub verify_one_or_more_ignores_names :
    (s s' : Signature) (ss : List Signature)
    → verify_one_or_more_rrsig_per_rrset ss ≡ none
    → In s ss
    → s.verified ≡ true
    → s'.rtype ≡ s.rtype
    → verify_one_or_more_rrsig_per_rrset (s' ∷ ss) ≡ none
verify_one_or_more_ignores_names s s' ss h m v e =
    (verify_one_or_more_iff (s' ∷ ss)).1 (λ q. cc, each)
  where
    each : EachTypeVouched (s' ∷ ss)
    each x (inl q) = (s, inr m, sym e ∙ ap (λ (y : Signature). y.rtype) (sym q), v)
    each x (inr n) = let k = ((verify_one_or_more_iff ss).0 h).1 x n in (k.0, inr k.1, k.2, k.3)
