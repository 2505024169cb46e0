-- ===== src/Dnssec/Outcome.antt =====
-- The result for one zone (`result` of dnssec/types.go), and what the verifying functions return:
-- the result that they filled in, a status and an error. `none` is a run-time panic.
use resolver_lib.Prelude.{List, [], ◌∷◌, Option, none, some, Name}
use resolver_lib.Dns.{Ds, Msg, Question, GoError}
use resolver_lib.Dnssec.Status.{AuthenticationResult, unknown, DenialOfExistenceState, not_found}
use resolver_lib.Dnssec.Env.{Zone}
use resolver_lib.Dnssec.Signatures.{Signature}

pub record Result : Type 0 where
  pub name : Name
  pub zone : Zone
  pub msg : Msg
  pub keys : List Signature
  pub answer : List Signature
  pub authority : List Signature
  pub err : Option GoError
  pub ds_records : List Ds
  pub state : AuthenticationResult
  pub denial_of_existence : DenialOfExistenceState

abbrev pub new_result : Zone → Msg → Result
new_result zone msg = record {
  name = zone.name;
  zone = zone;
  msg = msg;
  keys = [];
  answer = [];
  authority = [];
  err = none;
  ds_records = [];
  state = unknown;
  denial_of_existence = not_found;
}

pub record Outcome : Type 0 where
  pub result : Result
  pub status : AuthenticationResult
  pub err : Option GoError

abbrev pub outcome : Result → AuthenticationResult → Option GoError → Outcome
outcome r s e = record { result = r; status = s; err = e }

-- `msg.Question[0]`.
abbrev pub first_question : Msg → Option Question
first_question m = elim m.question [ [] ↦ none | q ∷ _ ↦ some q ]
