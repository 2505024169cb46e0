-- ===== src/Resolver/Config.antt =====
-- config.go: the configuration and its options, and the clients that nameserver.go makes by it.
-- Ports and sizes are natural numbers, the former without turning them into text; a cache is the
-- capacity that it is made with. Times are in milliseconds.
pub mod Offers
use resolver_lib.Prelude.{
  ℕ, ◌==◌, Bool, true, false, not, List, [], ◌∷◌, Option, none, some, if◌then◌else◌, ◌>>=◌, Name,
  name_eq,
}

abbrev pub udp : Name
udp = b'u' ∷ b'd' ∷ b'p' ∷ []

abbrev pub tcp : Name
tcp = b't' ∷ b'c' ∷ b'p' ∷ []

abbrev pub dot : Name
dot = b'd' ∷ b'o' ∷ b't' ∷ []

abbrev pub doq : Name
doq = b'd' ∷ b'o' ∷ b'q' ∷ []

-- The names of the two files are left to whoever reads them.
pub record Config : Type 0 where
  pub root_zone_file : Name
  pub root_anchor_file : Name
  pub protocols : List Name
  pub udpsize : ℕ
  pub udp_timeout : ℕ
  pub tcp_timeout : ℕ
  pub doq_timeout : ℕ
  pub dot_timeout : ℕ
  pub dns_port : ℕ
  pub doq_port : ℕ
  pub dot_port : ℕ
  pub tls_cache : Option ℕ
  pub pqc_mode : Bool
  pub insecure_skip_verify : Bool
  pub cache : Option ℕ

-- `DefaultConfig`, with the names of the two files.
abbrev pub default_config : Name → Name → Config
default_config root_zone root_anchors = record {
  root_zone_file = root_zone;
  root_anchor_file = root_anchors;
  protocols = udp ∷ tcp ∷ [];
  udpsize = 8192;
  udp_timeout = 400;
  tcp_timeout = 1000;
  doq_timeout = 1500;
  dot_timeout = 1500;
  dns_port = 53;
  doq_port = 853;
  dot_port = 8853;
  tls_cache = none;
  pqc_mode = false;
  insecure_skip_verify = false;
  cache = none;
}

-- An option, by the function that makes it.
pub data Setting : Type 0 where
  with_custom_root : Name → Name → Setting
  with_client : Name → Bool → Setting
  with_tls_verification with_pqc_mode : Bool → Setting
  with_tls_cache with_dns_port with_doq_port with_dot_port with_udp_size with_cache : ℕ → Setting
  with_timeouts : ℕ → ℕ → ℕ → ℕ → Setting

-- The capacity of a cache, which is switched off by 0.
abbrev capacity_of : ℕ → Option ℕ
capacity_of n = if n == 0 then none else some n

-- The protocols of a client; `none` is the panic at a name that is not known.
unfoldable pub protocols_of : Name → Bool → Option (List Name)
protocols_of client fallback =
    if name_eq client udp
    then some (if fallback then udp ∷ tcp ∷ [] else udp ∷ [])
    else if name_eq client tcp
    then some (tcp ∷ [])
    else if name_eq client dot
    then some (if fallback then dot ∷ udp ∷ tcp ∷ [] else dot ∷ [])
    else if name_eq client doq
    then some (if fallback then doq ∷ udp ∷ tcp ∷ [] else doq ∷ [])
    else none

unfoldable pub apply : Setting → Config → Option Config
unfolding protocols_of
apply (with_custom_root zone anchors) c =
    some (record c { root_zone_file = zone; root_anchor_file = anchors })
apply (with_client client fallback) c =
    protocols_of client fallback >>= λ ps. some (record c { protocols = ps })
apply (with_tls_verification verify) c = some (record c { insecure_skip_verify = not verify })
apply (with_pqc_mode mode) c = some (record c { pqc_mode = mode })
apply (with_tls_cache n) c = some (record c { tls_cache = capacity_of n })
apply (with_dns_port n) c = some (record c { dns_port = n })
apply (with_doq_port n) c = some (record c { doq_port = n })
apply (with_dot_port n) c = some (record c { dot_port = n })
apply (with_udp_size n) c = some (record c { udpsize = n })
apply (with_cache n) c = some (record c { cache = capacity_of n })
apply (with_timeouts udp tcp tls quic) c =
    some (record c { udp_timeout = udp; tcp_timeout = tcp; dot_timeout = tls; doq_timeout = quic })

-- `ConfigBuilder`, from a configuration on.
unfoldable pub config_builder : Config → List Setting → Option Config
unfolding apply
config_builder c [] = some c
config_builder c (o ∷ options) = apply o c >>= λ c'. config_builder c' options

pub data Curve : Type 0 where
  x25519_mlkem768 secp256r1_mlkem768 x25519 curve_p256 : Curve

-- TLS 1.3 is the least version in each of them.
pub record TlsConfig : Type 0 where
  pub server_name : Name
  pub insecure_skip_verify : Bool
  pub client_session_cache : Option ℕ
  pub curve_preferences : List Curve

pub data Client : Type 0 where
  doq_client : TlsConfig → ℕ → ℕ → Client
  tls_client : TlsConfig → ℕ → ℕ → Client
  classic_client : Name → ℕ → ℕ → Client

-- The clients that a server keeps for later.
pub record Clients : Type 0 where
  pub quic : Option Client
  pub tls : Option Client

abbrev pub curves_of : Bool → List Curve
curves_of pqc_mode =
    if pqc_mode
    then x25519_mlkem768 ∷ secp256r1_mlkem768 ∷ []
    else x25519_mlkem768 ∷ secp256r1_mlkem768 ∷ x25519 ∷ curve_p256 ∷ []

-- The name is made fully qualified by the DNS package.
abbrev pub tls_config : (Name → Name) → Config → Name → TlsConfig
tls_config fqdn c hostname = record {
  server_name = fqdn hostname;
  insecure_skip_verify = c.insecure_skip_verify;
  client_session_cache = c.tls_cache;
  curve_preferences = curves_of c.pqc_mode;
}

-- `defaultDnsClientFactory`, for a server.
unfoldable pub default_dns_client_factory :
    (Name → Name) → Config → Name → Name → Clients → Clients × Client
default_dns_client_factory fqdn c hostname protocol cs =
    let quic : Client = elim cs.quic [
      | some x ↦ x
      | none ↦ doq_client (tls_config fqdn c hostname) c.doq_port c.doq_timeout
    ] in
    let tls : Client = elim cs.tls [
      | some x ↦ x
      | none ↦ tls_client (tls_config fqdn c hostname) c.dot_port c.dot_timeout
    ] in
    let timeout = if name_eq protocol tcp then c.tcp_timeout else c.udp_timeout in
    if name_eq protocol doq
    then (record cs { quic = some quic }, quic)
    else if name_eq protocol dot
    then (record cs { tls = some tls }, tls)
    else (cs, classic_client protocol c.dns_port timeout)
