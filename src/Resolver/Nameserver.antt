-- ===== src/Resolver/Nameserver.antt =====
-- nameserver.go: asking one server over the protocols of the configuration, and its metrics. A client
-- is a parameter that threads a state of its own. `none` is a panic: the nil pointer of a client that
-- returns neither a message nor an error, or the log of a query without a question.
pub mod Protocols
use resolver_lib.Prelude.{
  ℕ, zero, suc, ◌+◌, ◌/◌, ◌%◌, ◌^◌, Bool, true, false, List, [], ◌∷◌, Option, none, some,
  if◌then◌else◌, ◌>>=◌, Name, name_eq,
}
use resolver_lib.Dns.{Msg, GoError, nil_message_sent_to_exchange}
use resolver_lib.Dnssec.Status.{unknown, not_found}
use resolver_lib.Resolver.Response.{Response, new_response_error}

pub record Nameserver : Type 0 where
  pub hostname : Name
  pub addr : List ℕ

-- What a client returns: a message, or nil, and an error, or nil.
abbrev pub Answer : Type 0
Answer = Option Msg × Option GoError

abbrev pub empty_reply : Response
empty_reply = record { msg = none; err = none; doe = not_found; auth = unknown }

abbrev pub reply_of : Answer → Response
reply_of (m, e) = record { msg = m; err = e; doe = not_found; auth = unknown }

module _ {S : Type 0} (client : S → Name → Msg → List ℕ → S × Answer) where
  -- The loop over the protocols, with the response so far.
  unfoldable pub try_protocols : S → Response → Msg → List ℕ → List Name → Option (S × Response)
  try_protocols s r m addr [] = some (s, r)
  try_protocols s r m addr (protocol ∷ protocols) =
      let s' = (client s protocol m addr).0 in
      let answer = (client s protocol m addr).1 in
      let on = try_protocols s' (reply_of answer) m addr protocols in
      let answered = elim answer.1 as (λ _. Option (S × Response)) [
        | some e ↦ on
        | none ↦ elim answer.0 as (λ _. Option (S × Response)) [
          | none ↦ none
          | some n ↦ if n.truncated then on else some (s', reply_of answer)
        ]
      ] in
      elim m.question [ [] ↦ none | _ ∷ _ ↦ answered ]

  unfoldable pub exchange : List Name → S → Nameserver → Option Msg → Option (S × Response)
  unfolding try_protocols
  exchange protocols s n none = some (s, new_response_error nil_message_sent_to_exchange)
  exchange protocols s n (some m) = try_protocols s empty_reply m n.addr protocols

-- Durations are in nanoseconds. The ratio of TCP requests, a float quotient of the two counters, is
-- left out.
pub record Metrics : Type 0 where
  pub number_of_requests : ℕ
  pub total_response_time : ℕ
  pub average_response_time : ℕ
  pub number_of_tcp_requests : ℕ

-- `none` is a division by 0, where the 32-bit count of the requests wraps. The total is in the range
-- of a duration, 292 years.
unfoldable pub update_metrics : Metrics → Bool → ℕ → Option Metrics
update_metrics s is_tcp duration =
    let n = (s.number_of_requests + 1) % 2 ^ 32 in
    let total = s.total_response_time + duration in
    elim n as (λ _. Option Metrics) [
      | zero ↦ none
      | suc k ↦ some (record {
        number_of_requests = suc k;
        total_response_time = total;
        average_response_time = total / suc k;
        number_of_tcp_requests =
            if is_tcp then (s.number_of_tcp_requests + 1) % 2 ^ 32 else s.number_of_tcp_requests;
      })
    ]
