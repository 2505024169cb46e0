-- ===== src/Tests/Finalised.antt =====
-- The end of a resolution of the test world's name: the validated reply is returned.
use resolver_lib.Prelude.{ℕ, ◌≡◌, refl, true, false, Option, none, some}
use resolver_lib.Dns.{Msg, external}
use resolver_lib.Dnssec.Status.{secure, not_found, unknown}
use resolver_lib.Dnssec.Authenticator.{Authenticator}
use resolver_lib.Dnssec.Authenticator.Judge.{verdict, result_ttl_answer}
use resolver_lib.Resolver.Response.{Response, Query}
use resolver_lib.Resolver.Finalise.{Settings, with_aliases, complete, cap, finalise}
use resolver_lib.Resolver.Finalise.Flags.{Marked, finalise-Marked}
use resolver_lib.Tests.World.{env, question, reply}
use resolver_lib.Tests.Witnesses.{final, finished, worked_off, queue_answer}

abbrev defaults : Settings
defaults = record { remove_authority = true; remove_additional = true; suppress_bogus = true }

-- No alias is followed here.
abbrev silent : ℕ → Query → ℕ × Option Response
silent n q = (n, none)

abbrev received : Response
received = record { msg = some reply; err = none; doe = not_found; auth = unknown }

returned : ℕ × Response
returned =
    complete env silent defaults (λ rr. rr) (external 0) external true false not_found none
      (with_aliases env silent defaults (λ rr. rr) (external 0) external question reply 0
        (cap env silent defaults (λ rr. rr) (external 0) external finished
          (verdict secure not_found none) reply)
        secure)

reply_returned :
    finalise env silent defaults
      (λ rr. rr)
      (external 0)
      external
      (some worked_off)
      question
      reply
      0
      received
      reply
    ≡ some (returned.0, returned.1)
unfolding finalise returned
reply_returned = rw queue_answer refl

final_message : Msg
unfolding returned final
final_message = elim returned.1.msg [ none ↦ reply | some m ↦ m ]

message_returned : returned.1.msg ≡ some final_message
unfolding returned final_message final complete with_aliases cap result_ttl_answer
message_returned = refl

finalise-Marked_example : Marked defaults returned.1.auth final_message
finalise-Marked_example =
    finalise-Marked env silent defaults (λ rr. rr) (external 0) external worked_off question reply 0
      returned.0 received returned.1 reply final_message refl reply_returned message_returned
