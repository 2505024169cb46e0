-- ===== src/Resolver/Finalise/Flags.antt =====
-- What the flags and the code of a response of finaliseResponse say.
use resolver_lib.Prelude.{
  ℕ, ◌==◌, ◌≤◌, ◌≡◌, refl, sym, ap, subst, ◌∙◌, inl, inr, Bool, true, false, not, ◌&&◌, List, [],
  Option, some, Bool-cases, Option-cases, >>=-eq-some, arith,
}
use resolver_lib.Dns.{Rr, Question, Msg, GoError, type_cname}
use resolver_lib.Dnssec.Status.{
  AuthenticationResult, DenialOfExistenceState, unknown, insecure, secure, bogus, is_secure,
  strength,
}
use resolver_lib.Dnssec.Env.{Env}
use resolver_lib.Dnssec.Records.{records_of_type_exist}
use resolver_lib.Dnssec.Authenticator.{Authenticator}
use resolver_lib.Dnssec.Authenticator.Judge.{Verdict}
use resolver_lib.Resolver.Queue.{Queue, queue_result}
use resolver_lib.Resolver.Response.{Response, Query}
use resolver_lib.Resolver.Cname.{Followed}
use resolver_lib.Resolver.Cname.Weaker.{follow_cnames-IsWeaker}
use resolver_lib.Resolver.Finalise.{Settings, trim, mark, with_aliases, complete, cap, finalise}

-- The AD flag is set exactly for a secure response, and a bogus one is a server failure, without
-- sections if they are to be suppressed.
abbrev pub Marked : Settings → AuthenticationResult → Msg → Type 0
Marked cfg auth m =
    (m.authenticated_data ≡ is_secure auth)
    × (auth ≡ bogus
        → (m.rcode ≡ 2)
          × (cfg.suppress_bogus ≡ true → (m.answer ≡ []) × (m.ns_section ≡ []) × (m.extra ≡ [])))

mark-Marked :
    (cfg : Settings) (auth : AuthenticationResult) (m : Msg)
    → Marked cfg auth (mark cfg false auth m)
unfolding mark
mark-Marked cfg unknown m = (refl, λ h. cc)
mark-Marked cfg insecure m = (refl, λ h. cc)
mark-Marked cfg secure m = (refl, λ h. cc)
mark-Marked cfg bogus m = elim (Bool-cases cfg.suppress_bogus) [
  | inl t ↦ rw t (refl, λ h. (refl, λ k. (refl, refl, refl)))
  | inr f ↦ (rw f refl, λ h. (rw f refl, λ k. cc))
]

some_eq : {A : Type 0} (x y : A) → some x ≡ some y → x ≡ y
some_eq x y h = cc

module _ {S : Type 0} (env : Env) (exchange : S → Query → S × Option Response) (cfg : Settings)
    (dedup : List Rr → List Rr) (unable : GoError) (unsuccessful : ℕ → GoError) where
  complete-Marked :
      (cd : Bool) (doe : DenialOfExistenceState) (err : Option GoError) (f : Followed S) (s : S)
      (r : Response) (m : Msg)
      → cd ≡ false
      → complete env exchange cfg dedup unable unsuccessful true cd doe err f ≡ (s, r)
      → r.msg ≡ some m
      → Marked cfg r.auth m × (r.auth ≡ f.auth)
  unfolding complete
  complete-Marked true doe err f s r m c h k = cc
  complete-Marked false doe err f s r m c h k = elim (Option-cases f.err) [
    | inr (e, q) ↦ cc (rw (q, complete) at h, k)
    | inl q ↦
        let y = ap (λ (z : S × Response). z.1) (rw (q, complete) at h) in
        let same : f.auth ≡ r.auth = ap (λ (z : Response). z.auth) y in
        let made = ap (λ (z : Response). z.msg) y ∙ k in
        let marked : mark cfg false f.auth (trim cfg dedup f.msg) ≡ m = cc in
        (
          subst (λ z. Marked cfg z m) same
              (subst (Marked cfg f.auth) marked (mark-Marked cfg f.auth (trim cfg dedup f.msg))),
          sym same,
        )
  ]

  with_aliases-strength :
      (q : Question) (qmsg : Msg) (s : S) (m : Msg) (auth : AuthenticationResult)
      → strength (with_aliases env exchange cfg dedup unable unsuccessful q qmsg s m auth).auth
        ≤ strength auth
  unfolding with_aliases
  with_aliases-strength q qmsg s m auth =
      elim (Bool-cases (not (q.qtype == type_cname) && records_of_type_exist m.answer type_cname)) [
        | inl t ↦ rw t (follow_cnames-IsWeaker env.dns exchange unable q qmsg.extra s m auth).0
        | inr f ↦ rw f (omega arith)
      ]

  finalised :
      (a : Queue) (q : Question) (qmsg : Msg) (s s' : S) (r r' : Response) (m m' : Msg)
      → qmsg.checking_disabled ≡ false
      → finalise env exchange cfg dedup unable unsuccessful (some a) q qmsg s r m ≡ some (s', r')
      → r'.msg ≡ some m'
      → Marked cfg r'.auth m'
        × ((b : Authenticator) × (v : Verdict) × (queue_result env a ≡ some (b, v))
            × (strength r'.auth ≤ strength v.auth))
  unfolding finalise
  finalised a q qmsg s s' r r' m m' c h k =
      let ((b, v), e, f) = >>=-eq-some (queue_result env a) _ h in
      let capped = cap env exchange cfg dedup unable unsuccessful b v m in
      let aliases =
        with_aliases env exchange cfg dedup unable unsuccessful q qmsg s capped v.auth in
      let (marked, same) =
        complete-Marked qmsg.checking_disabled v.doe v.err aliases s' r' m' c (some_eq _ _ f) k in
      (
        marked,
        (
          b,
          v,
          e,
          subst (λ z. strength z ≤ strength v.auth) (sym same)
              (with_aliases-strength q qmsg s capped v.auth),
        ),
      )

  -- With a validator, for a query without the CD flag: the AD flag of what is returned is set
  -- exactly if the response is secure, and a bogus response is a server failure, with all of its
  -- sections empty if they are to be suppressed.
  pub finalise-Marked :
      (a : Queue) (q : Question) (qmsg : Msg) (s s' : S) (r r' : Response) (m m' : Msg)
      → qmsg.checking_disabled ≡ false
      → finalise env exchange cfg dedup unable unsuccessful (some a) q qmsg s r m ≡ some (s', r')
      → r'.msg ≡ some m'
      → Marked cfg r'.auth m'
  finalise-Marked a q qmsg s s' r r' m m' c h k = (finalised a q qmsg s s' r r' m m' c h k).0
