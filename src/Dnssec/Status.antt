-- ===== src/Dnssec/Status.antt =====
-- dnssec/const.go: the results of authentication and how they combine.
use resolver_lib.Prelude.{ℕ, min, ◌≡◌, Bool, true, false, ◌||◌, ◌&&◌, if◌then◌else◌, arith}

pub data AuthenticationResult : Type 0 where
  unknown insecure secure bogus : AuthenticationResult

pub data DenialOfExistenceState : Type 0 where
  not_found : DenialOfExistenceState
  nsec_missing_ds nsec_no_data nsec_nx_domain nsec_wildcard : DenialOfExistenceState
  nsec3_missing_ds nsec3_no_data nsec3_nx_domain : DenialOfExistenceState
  nsec3_opt_out nsec3_wildcard : DenialOfExistenceState

-- `==` on results.
abbrev pub is_unknown : AuthenticationResult → Bool
is_unknown unknown = true
is_unknown _ = false

abbrev pub is_insecure : AuthenticationResult → Bool
is_insecure insecure = true
is_insecure _ = false

abbrev pub is_secure : AuthenticationResult → Bool
is_secure secure = true
is_secure _ = false

abbrev pub is_bogus : AuthenticationResult → Bool
is_bogus bogus = true
is_bogus _ = false

unfoldable pub combine : AuthenticationResult → AuthenticationResult → AuthenticationResult
combine r r2 =
    if is_bogus r || is_bogus r2
    then bogus
    else if is_unknown r || is_unknown r2
    then unknown
    else if is_insecure r || is_insecure r2
    then insecure
    else if is_secure r && is_secure r2
    then secure
    else bogus

-- How much a result vouches for: the order in which `combine` looks for a result.
abbrev pub strength : AuthenticationResult → ℕ
strength bogus = 0
strength unknown = 1
strength insecure = 2
strength secure = 3

-- `Combine` is the weaker of the two results in the order bogus, unknown, insecure, secure.
pub strength-combine :
    (r s : AuthenticationResult) → strength (combine r s) ≡ min (strength r) (strength s)
unfolding combine
strength-combine bogus s = ground arith
strength-combine unknown s = ground arith
strength-combine insecure s = ground arith
strength-combine secure s = ground arith
