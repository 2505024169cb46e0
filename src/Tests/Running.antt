-- ===== src/Tests/Running.antt =====
-- The goroutines of the queue at work on the reply of the test world.
use resolver_lib.Prelude.{◌<◌, ◌≡◌, refl, ◌≢◌, ◌⊎◌, true, false, List, [], ◌∷◌, none, some, arith}
use resolver_lib.Dnssec.Authenticator.{Input, step}
use resolver_lib.Resolver.Queue.{work_off, new_authenticator}
use resolver_lib.Resolver.Queue.Running.{
  Running, Works, entered, took, processed, works, sent, Reached, begun, moved, new_running,
}
use resolver_lib.Resolver.Queue.Running.Waits.{left, Proceeds, Panics, waiting_ends}
use resolver_lib.Resolver.Queue.Running.Refines.{Reached-work_off}
use resolver_lib.Tests.World.{env, question, root_zone, reply}
use resolver_lib.Tests.Witnesses.{worked_off, reply_added}

abbrev input : Input
input = record { zone = root_zone; msg = reply }

abbrev on_its_way : Running
on_its_way = record (new_running env question) {
  processing = 1;
  sending = record { input = input; ends = false } ∷ [];
}

abbrev in_channel : Running
in_channel = record on_its_way { sending = []; queue = input ∷ [] }

abbrev in_hand : Running
in_hand = record in_channel { queue = []; taken = some input }

abbrev idle : Running
idle = record in_hand { taken = none; processing = 0; work = worked_off }

was_sent : Reached env question on_its_way []
was_sent =
    moved (new_running env question) on_its_way [] [] begun
      (sent (new_running env question) input refl)

is_idle : Reached env question idle (input ∷ [])
is_idle =
    moved in_hand idle (input ∷ []) []
      (moved in_channel in_hand (input ∷ []) []
        (moved on_its_way in_channel [] (input ∷ []) was_sent (
          works on_its_way in_channel (input ∷ []) (
            entered on_its_way [] [] (record { input = input; ends = false }) refl (omega arith)
              refl)))
        (works in_channel in_hand [] (took in_channel input [] refl refl)))
      (works in_hand idle [] (processed in_hand input (step _ none) refl reply_added))

waiting_ends_example :
    (on_its_way.processing ≢ 0 → Proceeds env on_its_way ⊎ Panics env on_its_way)
    × ((entering : List Input) (s' : Running)
        → Works env on_its_way entering s'
        → left env s' < left env on_its_way)
    × (on_its_way.processing ≡ 0
        → (on_its_way.links ≡ 0)
          × (on_its_way.sending ≡ [])
          × (on_its_way.queue ≡ [])
          × (on_its_way.taken ≡ none))
    × (on_its_way.closed ≡ true → (on_its_way.links ≡ 0) × (on_its_way.sending ≡ []))
waiting_ends_example = waiting_ends env was_sent

Reached-work_off_example :
    work_off env (new_authenticator env question) (input ∷ []) ≡ some worked_off
Reached-work_off_example = Reached-work_off env is_idle refl
