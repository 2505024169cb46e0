-- ===== src/Dns.antt =====
-- The DNS data that the resolver handles: the record types of github.com/mr-torgue/dns with the
-- fields that the code reads, messages, and the functions of that package that the code calls,
-- which are a parameter (`Dns`). A domain name is its presentation form, a list of bytes.
use resolver_lib.Prelude.{ℕ, Bool, List, Option, Name}

pub record Header : Type 0 where
  pub name : Name
  pub rrtype : ℕ
  pub ttl : ℕ

pub record Rrsig : Type 0 where
  pub header : Header
  pub type_covered : ℕ
  pub algorithm : ℕ
  pub labels : ℕ
  pub orig_ttl : ℕ
  pub expiration : ℕ
  pub inception : ℕ
  pub key_tag : ℕ
  pub signer_name : Name
  pub signature : List ℕ

pub record Dnskey : Type 0 where
  pub header : Header
  pub flags : ℕ
  pub protocol : ℕ
  pub algorithm : ℕ
  pub public_key : List ℕ

pub record Ds : Type 0 where
  pub header : Header
  pub key_tag : ℕ
  pub algorithm : ℕ
  pub digest_type : ℕ
  pub digest : List ℕ

pub record Nsec : Type 0 where
  pub header : Header
  pub next_domain : Name
  pub type_bit_map : List ℕ

pub record Nsec3 : Type 0 where
  pub header : Header
  pub hash : ℕ
  pub flags : ℕ
  pub iterations : ℕ
  pub salt : List ℕ
  pub next_domain : Name
  pub type_bit_map : List ℕ

-- A record whose only further field is a name (NS, CNAME) or an address (A, AAAA).
pub record Pointer : Type 0 where
  pub header : Header
  pub value : List ℕ

pub record Opt : Type 0 where
  pub header : Header
  pub do_bit : Bool

-- The interface `dns.RR` (here `Rr`): a constructor for each dynamic type that the code tells apart.
pub data Rr : Type 0 where
  rrsig : Rrsig → Rr
  dnskey : Dnskey → Rr
  ds : Ds → Rr
  nsec : Nsec → Rr
  nsec3 : Nsec3 → Rr
  ns cname a aaaa : Pointer → Rr
  soa : Header → Rr
  opt : Opt → Rr
  other : Header → Rr

abbrev pub header : Rr → Header
header (rrsig r) = r.header
header (dnskey r) = r.header
header (ds r) = r.header
header (nsec r) = r.header
header (nsec3 r) = r.header
header (ns r) = r.header
header (cname r) = r.header
header (a r) = r.header
header (aaaa r) = r.header
header (soa h) = h
header (opt r) = r.header
header (other h) = h

pub record Question : Type 0 where
  pub qname : Name
  pub qtype : ℕ

pub record Msg : Type 0 where
  pub question : List Question
  pub answer : List Rr
  pub ns_section : List Rr
  pub extra : List Rr
  pub rcode : ℕ
  pub truncated : Bool
  pub authoritative : Bool
  pub recursion_desired : Bool
  pub recursion_available : Bool
  pub authenticated_data : Bool
  pub checking_disabled : Bool

-- The type codes of RFC 1035 and its successors that the code names.
abbrev pub type_a : ℕ
type_a = 1

abbrev pub type_ns : ℕ
type_ns = 2

abbrev pub type_cname : ℕ
type_cname = 5

abbrev pub type_soa : ℕ
type_soa = 6

abbrev pub type_aaaa : ℕ
type_aaaa = 28

abbrev pub type_dname : ℕ
type_dname = 39

abbrev pub type_opt : ℕ
type_opt = 41

abbrev pub type_ds : ℕ
type_ds = 43

abbrev pub type_rrsig : ℕ
type_rrsig = 46

abbrev pub type_nsec : ℕ
type_nsec = 47

abbrev pub type_dnskey : ℕ
type_dnskey = 48

abbrev pub type_nsec3 : ℕ
type_nsec3 = 50

-- Digest and hash algorithm numbers: `dns.SHA1` and `dns.SHA256`.
abbrev pub sha1 : ℕ
sha1 = 1

abbrev pub sha256 : ℕ
sha256 = 2

-- An `error`: a sentinel of dnssec/errors.go, errors.go, cache/cache.go or of the DNS package, by number, or one wrapped in another
-- by `fmt.Errorf` with two `%w`. Message texts are left out. `nil` is `none`.
pub data GoError : Type 0 where
  no_results keys_not_found auth_signer_name_mismatch signature_set_empty : GoError
  unable_to_verify verify_failed no_key_found_for_signature invalid_time : GoError
  invalid_signature invalid_label_count ns_records_have_mismatching_owners : GoError
  failsafe_response unexpected_signature_count multiple_wildcard_signatures : GoError
  not_subdomain same_name unknown_error bogus_result_found bogus_doe_records_not_found : GoError
  bogus_wildcard_doe_not_found duplicate_input_for_zone : GoError
  missing_ds_record : Name → GoError
  not_recursion_desired nil_message_sent_to_exchange no_pool_configured_for_zone : GoError
  failed_to_get_dnskeys failed_creating_zone_and_pool failed_enriching_pool : GoError
  unable_to_resolve_answer next_nameservers_not_found empty_response internal_error : GoError
  max_queries_per_request_reached : GoError
  empty_question cache_miss cache_expired cache_no_truncated : GoError
  external : ℕ → GoError
  wrapped : GoError → GoError → GoError

-- What the code calls of github.com/mr-torgue/dns. `to_ds` is `none` where `ToDS` returns nil.
pub record Dns : Type 0 where
  pub canonical_name : Name → Name
  pub split : Name → List ℕ
  pub count_label : Name → ℕ
  pub is_sub_domain : Name → Name → Bool
  pub split_domain_name : Name → List Name
  pub key_tag : Dnskey → ℕ
  pub to_ds : Dnskey → ℕ → Option Ds
  pub verify : Rrsig → Dnskey → List Rr → Option GoError
  pub validity_period : Rrsig → ℕ → Bool
  pub nsec3_match : Nsec3 → Name → Bool
  pub nsec3_cover : Nsec3 → Name → Bool
