-- ===== src/Resolver/Response.antt =====
-- response.go, isSetDO and recordsOfNameAndTypeExist of functions.go, and a query as the code builds
-- it for another part of the resolver.
use resolver_lib.Prelude.{
  ℕ, ◌==◌, Bool, false, ◌&&◌, List, [], ◌∷◌, Option, none, some, Name, name_eq, any,
}
use resolver_lib.Dns.{Rr, opt, header, Question, Msg, GoError}
use resolver_lib.Dnssec.Status.{AuthenticationResult, DenialOfExistenceState, unknown, not_found}

-- Without its duration, which is only measured.
pub record Response : Type 0 where
  pub msg : Option Msg
  pub err : Option GoError
  pub doe : DenialOfExistenceState
  pub auth : AuthenticationResult

-- What `HasError` and `IsEmpty` tell of a pointer to a response: nil has neither.
abbrev pub response_err : Option Response → Option GoError
response_err none = none
response_err (some r) = r.err

abbrev pub response_msg : Option Response → Option Msg
response_msg none = none
response_msg (some r) = r.msg

-- The flag of the first OPT record.
unfoldable pub is_set_do : List Rr → Bool
is_set_do [] = false
is_set_do (opt r ∷ extra) = r.do_bit
is_set_do (_ ∷ extra) = is_set_do extra

unfoldable pub records_of_name_and_type_exist : List Rr → Name → ℕ → Bool
records_of_name_and_type_exist rr name t =
    any (λ r. ((header r).rrtype == t) && name_eq (header r).name name) rr

-- The query for a target: its question, and whether it has the DO flag. The size of the buffer that
-- it offers is left out.
pub record Query : Type 0 where
  pub question : Question
  pub dnssec_ok : Bool

-- `newResponseError`.
abbrev pub new_response_error : GoError → Response
new_response_error e = record { msg = none; err = some e; doe = not_found; auth = unknown }
