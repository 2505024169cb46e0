-- ===== src/Resolver/Wiring.antt =====
-- resolver.go: the resolver with the zones that zone_factory.go makes. The requests for the addresses
-- of nameservers go to the resolver itself (`getExchanger`), a parameter here, as is keeping the pool
-- of a new zone.
use resolver_lib.Prelude.{ℕ, ◌⊎◌, inl, inr, Option}
use resolver_lib.Dns.{Msg, Dns, GoError}
use resolver_lib.Resolver.Response.{Response, Query}
use resolver_lib.Resolver.Pool.{NameserverPool}
use resolver_lib.Resolver.Zones.{StoredZone}
use resolver_lib.Resolver.Missing.{State, Funcs}
use resolver_lib.Resolver.Factory.{Conditions, create_zone}

module _ {S : Type 0} (dns : Dns) (c : Conditions)
    (itself : State S → Query → State S × Option Response) where
  module _ (clock : S → ℕ) (keep_pool : State S → StoredZone → NameserverPool → S)
      (ask : S → StoredZone → Query → S × Option Response)
      (finalise : State S → Msg → Response → State S × Response) where
    -- The zone that was made, its pool put away.
    unfoldable pub created :
        State S × (GoError ⊎ (StoredZone × NameserverPool)) → State S × (GoError ⊎ StoredZone)
    created (st, inl e) = (st, inl e)
    created (st, inr (z, pool)) = (record st { outside = keep_pool st z pool }, inr z)

    -- The table of functions that `NewResolver` sets up.
    unfoldable pub wired : Funcs S
    unfolding created
    wired = record {
      clock = clock;
      ask = ask;
      create_zone = λ st name parent nameservers extra.
          created (create_zone dns c itself st name parent nameservers extra);
      finalise = finalise;
    }
