-- ===== src/Resolver/Queue/Trust.antt =====
-- What a verdict that comes out of the queue of auth.go rests on.
use resolver_lib.Prelude.{◌≡◌, refl, List, [], ◌∷◌, none, some, >>=-eq-some}
use resolver_lib.Dns.{Question, GoError}
use resolver_lib.Dnssec.Status.{secure}
use resolver_lib.Dnssec.Env.{Env}
use resolver_lib.Dnssec.Authenticator.{Input, Authenticator, new_auth, add_response}
use resolver_lib.Dnssec.Authenticator.Chain.{HasChain, add_response-HasChain}
use resolver_lib.Dnssec.Authenticator.Judge.{Verdict}
use resolver_lib.Dnssec.Authenticator.Verdicts.{AllSecure, AllVouched, result_secure}
use resolver_lib.Resolver.Queue.{Queue, new_authenticator, append_error, work_off, queue_result}

module _ (env : Env) where
  work_off-HasChain :
      (queue : List Input) (a b : Queue)
      → HasChain env a.auth
      → work_off env a queue ≡ some b
      → HasChain env b.auth
  unfolding work_off
  work_off-HasChain [] a b c h = let k : a ≡ b = cc in rw (← k) c
  work_off-HasChain (i ∷ queue) a b c h =
      let (s, e, f) = >>=-eq-some (add_response env a.auth i.zone i.msg) _ h in
      work_off-HasChain queue (record { auth = s.auth; errors = append_error a.errors s.err }) b
        (add_response-HasChain env a.auth i.zone i.msg s c e) f

  queue_result-secure :
      (a : Queue) (b : Authenticator) (v : Verdict)
      → HasChain env a.auth
      → queue_result env a ≡ some (b, v)
      → v.auth ≡ secure
      → AllSecure b.results × AllVouched env none b.results
  unfolding queue_result
  queue_result-secure a b v c h s = go a.errors refl
    where
      go : (es : List GoError) → a.errors ≡ es → AllSecure b.results × AllVouched env none b.results
      go [] e = result_secure env a.auth b v c (rw (e, queue_result) at h) s
      go (x ∷ []) e = cc (rw (e, queue_result) at h, s)
      go (x ∷ y ∷ es) e = result_secure env a.auth b v c (rw (e, queue_result) at h) s

  -- From a new authenticator on, whatever responses arrive for whatever zones, in whatever order
  -- and with whatever errors: a secure verdict rests on an unbroken chain of trust from the trust
  -- anchors to the last zone.
  pub queue_secure :
      (q : Question) (queue : List Input) (a : Queue) (b : Authenticator) (v : Verdict)
      → work_off env (new_authenticator env q) queue ≡ some a
      → queue_result env a ≡ some (b, v)
      → v.auth ≡ secure
      → AllSecure b.results × AllVouched env none b.results
  unfolding new_auth
  queue_secure q queue a b v h =
      queue_result-secure a b v (work_off-HasChain queue (new_authenticator env q) a tt h)
