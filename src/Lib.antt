-- ===== src/Lib.antt =====
-- A verification library for the resolver: its DNSSEC validator, the package `dnssec` with the
-- subpackage `dnssec/doe` for denial of existence; the cache of record sets, the package `cache`; and
-- the resolution of a name zone by zone, with the zones, their pools of nameservers and the requests
-- to them over the package `clients`.
-- The resolver walks from the root to the zone that answers a question and hands every response,
-- with the zone that it came from, to an `Authenticator`; that verifies them in the order of the
-- zones and ends in a verdict.
--
-- Parts and files:
-- - dnssec/const.go, dnssec/errors.go: `Dnssec/Status` (the result enums, `Combine`) and the
--   sentinel errors, `GoError` in `Dns`. An error that wraps others is a constructor that holds
--   them; message texts are left out.
-- - dnssec/config.go: `Dnssec/Env`, the package variables as a record, with the clock, and
--   `Dnssec/Anchors`, loading the trust anchors.
-- - dnssec/functions.go: `Dnssec/Records`, the filters on record sets.
-- - dnssec/doe: `Dnssec/Doe/Names` (functions.go), `Dnssec/Doe/NsecProofs` (nsec.go),
--   `Dnssec/Doe/Nsec3Proofs` (doe.go, nsec3.go), the type bit maps of both in
--   `Dnssec/Doe/BitMaps`. The theorems stand in `Order` (canonical order), `NsecCovers`,
--   `Nsec3Covers` and `Encloser`.
-- - dnssec/signatures.go, dnssec/types.go: `Dnssec/Signatures`, the two signature policies; the
--   theorems in `Dnssec/Signatures/Verdicts`.
-- - dnssec/authenticate_rrset.go: `Dnssec/Authenticate`; the theorems in its `Soundness` and `Ttl`.
-- - dnssec/verify.go, verify_dnskey.go, verify_rrset.go and verify_delegating.go,
--   verify_positive.go, verify_negative.go: `Dnssec/Verify` with `Keys` and `Responses`, over the
--   result record of `Dnssec/Outcome`. `Trust` has what vetted keys and sections are, `Delegations`
--   where the DS records for the next zone come from, `Frame` which fields each stage leaves alone,
--   and `Secure` what a secure status rests on.
-- - dnssec/authenticator.go: `Dnssec/Authenticator`; dnssec/result.go: its child `Judge`. The
--   theorems are in `Chain` (order of the zones), `Buffer` (responses ahead of their turn), `Verdicts`,
--   `Answers` and `Ttls`.
-- - domain.go: `Resolver/Domain`, the walk over the labels of a name; the theorems in its `Walk`.
-- - zones.go: `Resolver/Zones`, the store of known zones; the theorems in its `Chain`.
-- - response.go, with parts of functions.go: `Resolver/Response`.
-- - cname.go: `Resolver/Cname`; the theorem in its `Weaker`.
-- - nameserver.go: `Resolver/Nameserver`, the loop over the protocols and the metrics, without the
--   float ratio; the theorem in its `Protocols`.
-- - config.go, with the clients that nameserver.go makes: `Resolver/Config`; the theorem in its
--   `Offers`.
-- - pool.go: `Resolver/Pool`, the servers of a zone; the theorems in its `Counts` (the counters in every
--   pool that can be reached), `Rotation` (whose turn it is) and `Expiry`. pool_exchange.go: its child
--   `Exchange`, with the theorem in `Total`.
-- - clients/doq.go and clients/classic.go: `Clients`; the theorems in its `Framing` (the two bytes of
--   length) and `Sessions` (how an exchange ends). `Resolver/Transport` puts the parts together: a pool
--   that asks its servers over these clients.
-- - ipv6.go: `Resolver/Ipv6`, the check that is made once; the theorem in its `Once`.
-- - resolver.go: `Resolver/Start`, what `NewResolver` starts from; the theorems in its `Rooted` (the
--   root zone among those that are known).
-- - cache/cache.go: `Cache`; the theorems in `Cache/Holds` (what an entry is) and `Cache/RoundTrip`, over
--   `Cache/Sorting` (what the first loop makes of a message).
-- - zone.go: `Resolver/Zone`, asking a zone through the cache (`Caching`) and the keys that it keeps
--   (`Keys`). zone_factory.go: `Resolver/Factory`, making a zone; the theorem in its `Usable`.
-- - resolver_exchange.go: `Resolver/Missing`, the search for zones that a response skips, with `soa`
--   and `clone` of zone.go, and `Resolver/Exchange`, the loop over the labels; the theorems in its
--   `Ends`, `Limit` and `Links` (the links between the known zones), with lemmas in `Does` (a request
--   in the single steps of `Steps`) and `Bailiwick` (which zones the steps add). `Resolver/Wiring` has the table of functions that `NewResolver` sets
--   up, with the zones that zone_factory.go makes.
-- - auth.go: `Resolver/Queue`, how the resolver hands responses to the validator, with `Trust`, and its
--   goroutines in `Resolver/Queue/Running`; the theorems in the latter's `Waits` and `Refines`.
-- - finaliseResponse of resolver_exchange.go: `Resolver/Finalise`, from the verdict to the flags of
--   what is returned; the theorems in its `Flags`.
-- `Prelude` holds what the parts share: lists over the native numbers, association lists, tests.
-- `Tests` holds a small signed world and the theorems at work on it.
--
-- How state and effects are modelled:
-- - The mutable structs of the code (`Authenticator`, `result`, `signature`, the denial of existence
--   flags) are records that an operation takes and returns. A panic of the code (an index out of
--   range, a nil pointer) is `none`, wherever the source can run into one.
-- - `Zone` is an interface; here a record of its name and of what the lookup of its keys returned.
-- - 16- and 32-bit fields are native numbers, with the wrap-around written out where the code
--   computes with them (the time left before a signature expires).
-- - A Go map iterates in an order of its own; here the order is that of first insertion, which shows
--   only in how errors are nested and in what a full cache forgets.
-- - The validator reads the clock once for each call and not once for each signature.
-- - Every loop is structural recursion on the list that it walks, or on the number of its rounds. Of
--   `windTo`, which counts an index up to the number of labels, that is the rounds that are left, which
--   are as many as it makes.
-- - The lock of the zone store is left out: each access is one step.
-- - `Resolver/Queue` takes the channel of auth.go as the sequence of the inputs that arrive on it, in
--   whatever order the requests send them. `Resolver/Queue/Running` has the goroutines themselves: a
--   step relation with the flag `finished`, the wait group, the channel of eight places, what waits to
--   be sent into it and what is in hand. `Refines` ties the one to the other.
--   The check of ipv6.go is a step relation too; whether there is IPv6 is an argument elsewhere.
-- - Files are arguments, as they are decoded: the digests of the file with the trust anchors, and the
--   records that the zone parser reads from the file with the root servers. `none` is a file that
--   cannot be read or decoded.
-- - The loop of `exchange` runs on so many rounds as there are labels left, and one more; `Outcome`
--   tells a panic from a loop that the rounds did not suffice for, and `exchange_ends` shows that they
--   always do.
-- - `dns.Dedup` is a parameter of `Resolver/Finalise`, as are the errors that are texts only.
-- - The code calls through the table of functions of the struct `Resolver`, and through the interfaces
--   `exchanger`, `zone` and `dnsClient`. Such a call is a function that threads a state of its own, a
--   parameter of the definitions that make it: of `Resolver/Exchange` creating a zone, finishing a
--   response and asking a zone (`Funcs`), of `Resolver/Zone` asking the pool, of
--   `Resolver/Pool/Exchange` asking a server, of `Resolver/Nameserver` asking a client. For the last two
--   `Resolver/Transport` puts in the definitions of the part below.
-- - The QUIC library, the network clients of the DNS library and the packing of messages are
--   parameters of `Clients` and `Resolver/Transport`. A time-out is one of the ways in which reading a
--   stream can end; how long anything takes is left out.
-- - What the code does beside the caller, in a goroutine, is done at once: updating the cache,
--   enriching a pool, asking for DS records. While a request is resolved, no other one adds a zone.
-- - The time in `Resolver/Exchange` is read from the state of the outside world (`clock` in `Funcs`), and
--   whether a zone has expired is a function of the time: it goes by its pool as it was when the zone
--   was made, so that enriching the pool of a known zone later on does not prolong it.
-- - The table behind the cache is CoreDNS's, which may forget entries: the record `Library` has its
--   operations, with the hash and the texts for types that the key is made of, and what a theorem needs
--   of them is among its hypotheses (`IsTable`, `IsRoomy`).
--
-- The DNS library (github.com/mr-torgue/dns) is not part of the repository: the record `Dns` has the
-- functions that the code calls, and every definition and theorem takes it as a parameter. What a
-- theorem needs of them is among its hypotheses.
--
-- Not modelled: message texts and logging; the functions table of the struct `verifier`, which only
-- serves tests (the functions that `NewAuth` puts there are called); opening files, decoding XML and
-- parsing zone files; the network below the clients, with its time-outs; traces; locks
-- and races, but for the queue of auth.go and the check of ipv6.go, since each operation is one step; the text of root.go, which nothing reads; the command line.
pub mod Prelude
pub mod Dns
pub mod Dnssec
pub mod Cache
pub mod Clients
pub mod Resolver
mod Tests
