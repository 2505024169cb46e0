-- ===== src/Tests/World.antt =====
-- A DNS package for tests: names compare by bytes, a signature is good for the key whose bytes it
-- repeats, a key's tag is its flags, and a hashed name is the name itself.
use Prim.Native.Char.{code}
use Prim.Native.String.{String}
use resolver_lib.Prelude.{
  ℕ, ◌+◌, ◌==◌, leb, Bool, true, false, ◌&&◌, ◌||◌, List, [], ◌∷◌, ◌++◌, none, some, if◌then◌else◌,
  Name, name_eq, any, drop, length,
}
use resolver_lib.Dns.{Header, Rrsig, Dnskey, Ds, Rr, rrsig, dnskey, a, Question, Msg, external, Dns}
use resolver_lib.Dnssec.Env.{Env, Zone, fetched}
use resolver_lib.Dnssec.Doe.Names.{name_lt}

abbrev pub codes : String → List ℕ
codes String.[] = []
codes (String.◌∷◌ c s) = code c ∷ codes s

abbrev pub starts : ℕ → Bool → Name → List ℕ
starts i start [] = []
starts i start (c ∷ r) =
    let after_dot = starts (i + 1) true r in
    let inside = starts (i + 1) false r in
    if c == b'.' then after_dot else if start then i ∷ inside else inside

abbrev labels_from : Name → Name → List Name
labels_from acc [] = []
labels_from acc (c ∷ r) =
    let cut = labels_from [] r in
    let on = labels_from (acc ++ c ∷ []) r in
    if c == b'.' then (elim acc [ [] ↦ cut | x ∷ xs ↦ (x ∷ xs) ∷ cut ]) else on

abbrev pub root : Name
root = b'.' ∷ []

abbrev pub within : Name → Name → Bool
within parent child =
    name_eq parent root || any (λ i. name_eq (drop i child) parent) (starts 0 true child)

abbrev pub world : Dns
world = record {
  canonical_name = λ n. n;
  split = starts 0 true;
  count_label = λ n. length (starts 0 true n);
  is_sub_domain = within;
  split_domain_name = labels_from [];
  key_tag = λ k. k.flags;
  to_ds = λ k t.
      (if t == 2
        then some (record {
          header = k.header;
          key_tag = k.flags;
          algorithm = k.algorithm;
          digest_type = t;
          digest = k.public_key;
        })
        else none);
  verify = λ r k rr. (if name_eq r.signature k.public_key then none else some (external 1));
  validity_period = λ r now. leb r.inception now && leb now r.expiration;
  nsec3_match = λ r n. name_eq r.header.name n;
  nsec3_cover = λ r n. name_lt r.header.name n && name_lt n r.next_domain;
}

abbrev pub header_of : Name → ℕ → Header
header_of n t = record { name = n; rrtype = t; ttl = 300 }

abbrev pub key : Dnskey
key = record {
  header = header_of root 48;
  flags = 257;
  protocol = 3;
  algorithm = 8;
  public_key = 7 ∷ [];
}

abbrev pub anchor_for : ℕ → ℕ → Ds
anchor_for digest_type digest = record {
  header = header_of root 43;
  key_tag = 257;
  algorithm = 8;
  digest_type = digest_type;
  digest = digest ∷ [];
}

-- A signature of the root's key over a name and a type.
abbrev pub signed : Name → ℕ → ℕ → Rrsig
signed n t labels = record {
  header = header_of n 46;
  type_covered = t;
  algorithm = 8;
  labels = labels;
  orig_ttl = 200;
  expiration = 1100;
  inception = 900;
  key_tag = 257;
  signer_name = root;
  signature = 7 ∷ [];
}

abbrev pub env_with : List Ds → Env
env_with anchors = record {
  dns = world;
  now = 1000;
  require_all_signatures_valid = false;
  max_allowed_ttl = 172_800;
  root_trust_anchors = anchors;
}

abbrev pub env : Env
env = env_with (anchor_for 2 7 ∷ [])

abbrev pub root_zone : Zone
root_zone = record {
  name = root;
  dnskey_records = fetched (dnskey key ∷ rrsig (signed root 48 0) ∷ []);
}

abbrev pub qname : Name
qname = codes "a."

abbrev pub question : Question
question = record { qname = qname; qtype = 1 }

abbrev pub address : Rr
address = a (record { header = header_of qname 1; value = 1 ∷ 2 ∷ 3 ∷ 4 ∷ [] })

abbrev pub reply : Msg
reply = record {
  question = question ∷ [];
  answer = address ∷ rrsig (signed qname 1 1) ∷ [];
  ns_section = [];
  extra = [];
  rcode = 0;
  truncated = false;
  authoritative = true;
  recursion_desired = false;
  recursion_available = false;
  authenticated_data = false;
  checking_disabled = false;
}
