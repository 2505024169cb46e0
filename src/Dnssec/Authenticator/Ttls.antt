-- ===== src/Dnssec/Authenticator/Ttls.antt =====
-- The TTLs of `resultTTL` of dnssec/result.go.
use resolver_lib.Prelude.{
  ℕ, ◌≤◌, ◌≡◌, refl, inl, inr, Bool, true, false, ◌&&◌, ◌||◌, List, [], ◌∷◌, any, In, arith, ◌==◌,
  ==_iff, min, ap,
}
use resolver_lib.Dnssec.Env.{Env}
use resolver_lib.Dnssec.Signatures.{Signature}
use resolver_lib.Dnssec.Authenticator.Judge.{ttl_loop, result_ttl}

abbrev pub counts : ℕ → Signature → Bool
counts t s = (s.rtype == t) && s.verified

ttl_loop_found :
    (t : ℕ) (found : Bool) (ttl : ℕ) (ss : List Signature)
    → (ttl_loop t found ttl ss).1 ≡ (found || any (counts t) ss)
unfolding ttl_loop
ttl_loop_found t true ttl [] = refl
ttl_loop_found t false ttl [] = refl
ttl_loop_found t found ttl (s ∷ ss) =
    ground (arith, ttl_loop_found t true (min ttl s.ttl) ss, ttl_loop_found t found ttl ss)

ttl_loop-le :
    (t : ℕ) (found : Bool) (ttl : ℕ) (ss : List Signature) → (ttl_loop t found ttl ss).0 ≤ ttl
unfolding ttl_loop
ttl_loop-le t true ttl [] = omega arith
ttl_loop-le t false ttl [] = omega arith
ttl_loop-le t found ttl (s ∷ ss) =
    ground (arith, ttl_loop-le t true (min ttl s.ttl) ss, ttl_loop-le t found ttl ss)

ttl_loop-all :
    (t : ℕ) (found : Bool) (ttl : ℕ) (s : Signature) (ss : List Signature)
    → In s ss
    → counts t s ≡ true
    → (ttl_loop t found ttl ss).0 ≤ s.ttl
unfolding ttl_loop
ttl_loop-all t found ttl s [] m c = absurd m
ttl_loop-all t found ttl s (x ∷ ss) (inl e) c =
    rw e (ground (arith, ttl_loop-le t true (min ttl x.ttl) ss, ap (counts t) e))
ttl_loop-all t found ttl s (x ∷ ss) (inr m) c =
    ground (arith, ttl_loop-all t true (min ttl x.ttl) s ss m, ttl_loop-all t found ttl s ss m)

-- A TTL is found exactly when a verified signature covers the type; it is at most the maximum that
-- is allowed and at most the TTL of each verified signature of the type.
pub result_ttl_lem :
    (env : Env) (t : ℕ) (ss : List Signature)
    → ((result_ttl env t ss).1 ≡ any (counts t) ss)
      × ((result_ttl env t ss).0 ≤ env.max_allowed_ttl)
      × ((s : Signature)
          → In s ss
          → s.rtype ≡ t
          → s.verified ≡ true
          → (result_ttl env t ss).0 ≤ s.ttl)
unfolding result_ttl
result_ttl_lem env t ss = (
  ttl_loop_found t false env.max_allowed_ttl ss,
  ttl_loop-le t false env.max_allowed_ttl ss,
  λ s m e v. ttl_loop-all t false env.max_allowed_ttl s ss m (ground (arith, ==_iff s.rtype t)),
)
