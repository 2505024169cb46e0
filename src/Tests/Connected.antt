-- ===== src/Tests/Connected.antt =====
-- The check for IPv6 with two addresses, of which the second one answers.
use resolver_lib.Prelude.{
  ◌≡◌, refl, ◌⊎◌, Bool, true, false, List, [], ◌∷◌, ◌++◌, none, some, map, any, Name,
}
use resolver_lib.Dns.{external}
use resolver_lib.Resolver.Ipv6.{
  Connectivity, unchecked, ipv6_available, Checks, asked, begins, tries, ends, Reached, begun,
  moved,
}
use resolver_lib.Resolver.Ipv6.Once.{did_answer, address_of, Ended, Reached-ipv6_available}

abbrev addresses : List Name
addresses = (1 ∷ []) ∷ (2 ∷ []) ∷ (3 ∷ []) ∷ []

abbrev waits : Connectivity
waits = record unchecked { waiting = 1 }

abbrev runs : Connectivity
runs = record unchecked { started = true; trying = some addresses }

abbrev goes_on : Connectivity
goes_on = record runs { trying = some ((2 ∷ []) ∷ (3 ∷ []) ∷ []) }

abbrev answers : Connectivity
answers = record runs { available = true; trying = some [] }

abbrev tried : List (Name × Bool)
tried = (1 ∷ [], false) ∷ (2 ∷ [], true) ∷ []

was_asked : Checks addresses unchecked [] waits
unfolding ipv6_available
was_asked = asked unchecked false refl

first_fails : Checks addresses runs ((1 ∷ [], false) ∷ []) goes_on
unfolding resolver_lib.Resolver.Ipv6.try_address
first_fails = tries runs (1 ∷ []) ((2 ∷ []) ∷ (3 ∷ []) ∷ []) (some (external 1)) refl

second_answers : Checks addresses goes_on ((2 ∷ [], true) ∷ []) answers
unfolding resolver_lib.Resolver.Ipv6.try_address
second_answers = tries goes_on (2 ∷ []) ((3 ∷ []) ∷ []) none refl

answered : Reached addresses (record answers { answered = true; trying = none }) tried
answered =
    moved answers _ tried []
      (moved goes_on answers ((1 ∷ [], false) ∷ []) ((2 ∷ [], true) ∷ [])
        (moved runs goes_on [] ((1 ∷ [], false) ∷ [])
          (moved waits runs [] [] (moved unchecked waits [] [] begun was_asked)
            (begins waits 0 refl refl))
          first_fails)
        second_answers)
      (ends answers refl)

Reached-ipv6_available_example :
    ((ipv6_available true true).0 ≡ any did_answer tried)
    × ((left : List Name) × (map address_of tried ++ left ≡ addresses))
    × Ended addresses tried
    × (◌≡◌ {A = Bool} true true
        → (any did_answer tried ≡ true) ⊎ (map address_of tried ≡ addresses))
Reached-ipv6_available_example =
    Reached-ipv6_available addresses (record answers { answered = true; trying = none }) tried true
      answered
