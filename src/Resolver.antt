-- ===== src/Resolver.antt =====
-- The resolver itself: what its resolution loop is built of.
pub mod Response
pub mod Config
pub mod Nameserver
pub mod Pool
pub mod Domain
pub mod Zones
pub mod Cname
pub mod Queue
pub mod Finalise
pub mod Missing
pub mod Zone
pub mod Factory
pub mod Exchange
pub mod Ipv6
pub mod Start
pub mod Wiring
pub mod Transport
