-- ===== src/Tests/Configured.antt =====
-- A configuration for DoQ in PQC mode, with a fallback.
use resolver_lib.Prelude.{◌≡◌, refl, ◌≢◌, inl, true, [], ◌∷◌, none, some, Name, In, All}
use resolver_lib.Resolver.Config.{
  Config, with_client, with_pqc_mode, udp, tcp, doq, default_config, config_builder, Clients,
  default_dns_client_factory,
}
use resolver_lib.Resolver.Config.Offers.{AreMade, Serves, IsPqc, curves, config_builder-Serves}
use resolver_lib.Tests.World.{codes}

abbrev hostname : Name
hostname = codes "ns.a."

abbrev chosen : Config
chosen = record (default_config [] []) { protocols = doq ∷ udp ∷ tcp ∷ []; pqc_mode = true }

chosen_built :
    config_builder (default_config [] []) (with_client doq true ∷ with_pqc_mode true ∷ [])
    ≡ some chosen
unfolding config_builder
chosen_built = refl

abbrev no_clients : Clients
no_clients = record { quic = none; tls = none }

config_builder-Serves_example :
    (chosen.protocols ≢ [])
    × ((p : Name)
        → In p chosen.protocols
        → let out = default_dns_client_factory (λ n. n) chosen hostname p no_clients in
          AreMade (λ n. n) chosen hostname out.0
          × Serves (λ n. n) chosen hostname p out.1
          × (true ≡ true → All IsPqc (curves out.1)))
config_builder-Serves_example =
    config_builder-Serves (λ n. n) [] [] (with_client doq true ∷ with_pqc_mode true ∷ []) chosen
      hostname no_clients chosen_built (inl refl, inl refl)
