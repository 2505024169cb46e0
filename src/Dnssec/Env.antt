-- ===== src/Dnssec/Env.antt =====
-- What the validator takes from its surroundings: the DNS package, the clock (Unix seconds, one
-- reading for each call), the package variables of dnssec/config.go, and zones, whose DNSKEY
-- records come over the network.
use resolver_lib.Prelude.{ℕ, Bool, List, Name}
use resolver_lib.Dns.{Dns, Rr, Ds, GoError}

pub record Env : Type 0 where
  pub dns : Dns
  pub now : ℕ
  pub require_all_signatures_valid : Bool
  pub max_allowed_ttl : ℕ
  pub root_trust_anchors : List Ds

-- The answer of `GetDNSKEYRecords`.
pub data Fetched : Type 0 where
  fetched : List Rr → Fetched
  failed : GoError → Fetched

-- The interface `Zone`: its name, and what asking it for its keys gives.
pub record Zone : Type 0 where
  pub name : Name
  pub dnskey_records : Fetched
