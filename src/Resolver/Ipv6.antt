-- ===== src/Resolver/Ipv6.antt =====
-- ipv6.go: whether there is IPv6, a check that is made once, beside those that ask. The package
-- variables are a record, and what each goroutine does to them is a step: every store and every try
-- of an address is one. The first load of a call is of an earlier moment than the second, so that it can
-- have read anything. Calls of `UpdateIPv6Availability` from outside the package are left out.
pub mod Once
use resolver_lib.Prelude.{
  ℕ, suc, ◌+◌, ◌≡◌, Bool, true, false, not, ◌&&◌, List, [], ◌∷◌, ◌++◌, Option, none, some,
  if◌then◌else◌, Name,
}
use resolver_lib.Dns.{GoError}

-- `started` is the `sync.Once`. `waiting` counts the goroutines before it, and `trying` has the
-- addresses that the check has not tried yet, if it runs.
pub record Connectivity : Type 0 where
  pub answered : Bool
  pub available : Bool
  pub started : Bool
  pub waiting : ℕ
  pub trying : Option (List Name)

abbrev pub unchecked : Connectivity
unchecked = record {
  answered = false;
  available = false;
  started = false;
  waiting = 0;
  trying = none;
}

-- A call of `IPv6Available`, by what its two loads read: its result, and whether it has the check
-- made.
unfoldable pub ipv6_available : Bool → Bool → Bool × Bool
ipv6_available answered available =
    if answered then (available, false) else if available then (true, false) else (false, true)

abbrev pub succeeded : Option GoError → Bool
succeeded none = true
succeeded (some _) = false

-- The round for an address, with the error of the exchange.
unfoldable pub try_address : Connectivity → List Name → Option GoError → Connectivity
try_address s rest e = record s {
  available = succeeded e;
  trying = some (if succeeded e then [] else rest);
}

module _ (addresses : List Name) where
  -- A step, with the addresses that are tried in it and how that ended.
  pub data Checks : Connectivity → List (Name × Bool) → Connectivity → Type 0 where
    asked :
        (s : Connectivity) (answered : Bool)
        → (ipv6_available answered s.available).1 ≡ true
        → Checks s [] (record s { waiting = s.waiting + 1 })
    begins :
        (s : Connectivity) (n : ℕ)
        → s.waiting ≡ suc n
        → s.started ≡ false
        → Checks s [] (record s { waiting = n; started = true; trying = some addresses })
    passes :
        (s : Connectivity) (n : ℕ)
        → s.waiting ≡ suc n
        → s.started ≡ true
        → s.trying ≡ none
        → Checks s [] (record s { waiting = n })
    tries :
        (s : Connectivity) (address : Name) (rest : List Name) (e : Option GoError)
        → s.trying ≡ some (address ∷ rest)
        → Checks s ((address, succeeded e) ∷ []) (try_address s rest e)
    ends :
        (s : Connectivity)
        → s.trying ≡ some []
        → Checks s [] (record s { answered = true; trying = none })

  -- The states that there can be, each with what was tried until then.
  pub data Reached : Connectivity → List (Name × Bool) → Type 0 where
    begun : Reached unchecked []
    moved :
        (s s' : Connectivity) (so_far now : List (Name × Bool))
        → Reached s so_far
        → Checks s now s'
        → Reached s' (so_far ++ now)
