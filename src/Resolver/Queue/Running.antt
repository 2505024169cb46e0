-- ===== src/Resolver/Queue/Running.antt =====
-- auth.go as it runs: the goroutine of a request, those that ask for DS records, and the one that
-- works the queue off, as one relation of steps. The goroutine of a request makes the calls
-- `addResponse`, `addDelegationSignerLink` and `result` one after the other, so that the test of
-- `finished` and the addition to `processing` are one step; ending a goroutine after its message was
-- taken into the channel is one step with that.
pub mod Waits
pub mod Refines
use resolver_lib.Prelude.{
  ℕ, zero, suc, ◌+◌, ◌-◌, ◌<◌, ◌≡◌, Bool, true, false, List, [], ◌∷◌, ◌++◌, Option, none, some,
  length,
}
use resolver_lib.Dns.{Question}
use resolver_lib.Dnssec.Env.{Env}
use resolver_lib.Dnssec.Authenticator.{Input, add_response, Step, step}
use resolver_lib.Resolver.Queue.{Queue, new_authenticator, append_error}

-- The capacity of the channel.
abbrev pub capacity : ℕ
capacity = 8

-- A message on its way into the channel, and whether a goroutine ends with that.
pub record Sending : Type 0 where
  pub input : Input
  pub ends : Bool

-- `links` counts the goroutines that wait for the answer about DS records. `taken` is what the
-- goroutine of the queue has in hand, `work` what it has done.
pub record Running : Type 0 where
  pub finished : Bool
  pub closed : Bool
  pub processing : ℕ
  pub links : ℕ
  pub sending : List Sending
  pub queue : List Input
  pub taken : Option Input
  pub work : Queue

-- What the end of a goroutine takes off the wait group.
abbrev pub done : Bool → ℕ
done true = 1
done false = 0

module _ (env : Env) where
  abbrev pub new_running : Question → Running
  new_running q = record {
    finished = false;
    closed = false;
    processing = 0;
    links = 0;
    sending = [];
    queue = [];
    taken = none;
    work = new_authenticator env q;
  }

  -- The inner steps: those that are made without the request, by its goroutines. The list is what
  -- enters the channel.
  pub data Works : Running → List Input → Running → Type 0 where
    answered :
        (s : Running) (n : ℕ) (i : Input)
        → s.links ≡ suc n
        → Works s [] (record s {
          links = n;
          processing = s.processing + 1;
          sending = s.sending ++ record { input = i; ends = true } ∷ [];
        })
    unanswered :
        (s : Running) (n : ℕ)
        → s.links ≡ suc n
        → Works s [] (record s { links = n; processing = s.processing - 1 })
    entered :
        (s : Running) (before after : List Sending) (x : Sending)
        → s.sending ≡ before ++ x ∷ after
        → length s.queue < capacity
        → s.closed ≡ false
        → Works s (x.input ∷ []) (record s {
          sending = before ++ after;
          queue = s.queue ++ x.input ∷ [];
          processing = s.processing - done x.ends;
        })
    took :
        (s : Running) (i : Input) (queue : List Input)
        → s.queue ≡ i ∷ queue
        → s.taken ≡ none
        → Works s [] (record s { queue = queue; taken = some i })
    processed :
        (s : Running) (i : Input) (t : Step)
        → s.taken ≡ some i
        → add_response env s.work.auth i.zone i.msg ≡ some t
        → Works s [] (record s {
          taken = none;
          processing = s.processing - 1;
          work = record { auth = t.auth; errors = append_error s.work.errors t.err };
        })

  -- All steps, with those of the request.
  pub data Moves : Running → List Input → Running → Type 0 where
    works : (s s' : Running) (entering : List Input) → Works s entering s' → Moves s entering s'
    sent :
        (s : Running) (i : Input)
        → s.finished ≡ false
        → Moves s [] (record s {
          processing = s.processing + 1;
          sending = s.sending ++ record { input = i; ends = false } ∷ [];
        })
    linked :
        (s : Running)
        → s.finished ≡ false
        → Moves s [] (record s { processing = s.processing + 1; links = s.links + 1 })
    finishes : (s : Running) → Moves s [] (record s { finished = true })
    closes :
        (s : Running)
        → s.finished ≡ true
        → s.processing ≡ 0
        → Moves s [] (record s { closed = true })

  -- The states that there can be, each with what has entered the channel until then.
  pub data Reached (q : Question) : Running → List Input → Type 0 where
    begun : Reached q (new_running q) []
    moved :
        (s s' : Running) (so_far entering : List Input)
        → Reached q s so_far
        → Moves s entering s'
        → Reached q s' (so_far ++ entering)
