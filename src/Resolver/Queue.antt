-- ===== src/Resolver/Queue.antt =====
-- auth.go: the queue through which the resolver hands responses to the validator. One goroutine
-- takes them off the queue, so that what the requests send concurrently arrives as one sequence of
-- inputs; `result` waits until it is worked off.
pub mod Running
pub mod Trust
use resolver_lib.Prelude.{List, [], ◌∷◌, ◌++◌, Option, none, some, ◌>>=◌}
use resolver_lib.Dns.{Question, GoError}
use resolver_lib.Dnssec.Status.{unknown, not_found}
use resolver_lib.Dnssec.Env.{Env}
use resolver_lib.Dnssec.Authenticator.{Input, Authenticator, new_auth, add_response}
use resolver_lib.Dnssec.Authenticator.Judge.{Verdict, verdict, result}

pub record Queue : Type 0 where
  pub auth : Authenticator
  pub errors : List GoError

abbrev pub append_error : List GoError → Option GoError → List GoError
append_error errors none = errors
append_error errors (some e) = errors ++ e ∷ []

module _ (env : Env) where
  abbrev pub new_authenticator : Question → Queue
  new_authenticator q = record { auth = new_auth env q; errors = [] }

  -- The loop of `start`: an error does not keep the next response from being added.
  unfoldable pub work_off : Queue → List Input → Option Queue
  work_off a [] = some a
  work_off a (i ∷ queue) = add_response env a.auth i.zone i.msg >>= λ s.
      work_off (record { auth = s.auth; errors = append_error a.errors s.err }) queue

  -- `result`, once the queue is worked off. Several errors are joined in a variable that nothing
  -- reads, and the validator is asked as if there were none.
  unfoldable pub queue_result : Queue → Option (Authenticator × Verdict)
  queue_result a = elim a.errors [
    | [] ↦ result env a.auth
    | e ∷ es ↦ elim es [
      | [] ↦ some (a.auth, verdict unknown not_found (some e))
      | _ ∷ _ ↦ result env a.auth
    ]
  ]
