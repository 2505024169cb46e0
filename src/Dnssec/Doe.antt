-- ===== src/Dnssec/Doe.antt =====
-- dnssec/doe/doe.go: the two kinds of denial of existence. A context is left out: the code only
-- stores it.
pub mod Names
pub mod Order
pub mod BitMaps
pub mod NsecProofs
pub mod Nsec3Proofs
pub mod NsecCovers
pub mod Nsec3Covers
pub mod Encloser
