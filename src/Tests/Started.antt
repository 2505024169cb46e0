-- ===== src/Tests/Started.antt =====
-- A resolver that has just been started, and one request to it.
use resolver_lib.Prelude.{
  ℕ, ◌+◌, ◌≡◌, refl, ◌⊎◌, inl, inr, false, List, [], ◌∷◌, Option, none, some, if◌then◌else◌, ltb,
  Name, name_eq, In, ◌↔◌,
}
use resolver_lib.Dns.{GoError, failed_creating_zone_and_pool, Ds, Rr, ns, a, aaaa}
use resolver_lib.Dnssec.Env.{Env}
use resolver_lib.Dnssec.Anchors.{KeyDigest, IsAnchorOf, load_anchors, load_anchors-IsAnchorOf}
use resolver_lib.Dnssec.Records.{extract_records, records_of_type_exist}
use resolver_lib.Resolver.Response.{is_set_do}
use resolver_lib.Resolver.Domain.{wind_to, new_domain, label_starts, gap}
use resolver_lib.Resolver.Zones.{StoredZone, Zones, get_zone_list, get, add}
use resolver_lib.Resolver.Missing.{root_name}
use resolver_lib.Resolver.Start.{Resolver, new_resolver, count_zones}
use resolver_lib.Resolver.Start.Rooted.{
  HasRoot, IsRootedList, new_resolver-HasRoot, get_zone_list-IsRooted,
}
use resolver_lib.Tests.Dotted.{with_dot, dotted, dotted_IsRooted}
use resolver_lib.Tests.World.{env, header_of}
use resolver_lib.Tests.Resolution.{host, parent_name}
use resolver_lib.Tests.Requests.{request, referral, answer, response}
use resolver_lib.Resolver.Missing.{State, Funcs}
use resolver_lib.Resolver.Exchange.{exchange, returned}

-- The first digest has run out, and the last one is not yet valid.
abbrev digest : ℕ → Option ℕ → ℕ → KeyDigest
digest from until tag = record {
  valid_from = from;
  valid_until = until;
  key_tag = tag;
  algorithm = 8;
  digest_type = 2;
  digest = 7 ∷ [];
}

abbrev digests : List KeyDigest
digests = digest 10 (some 900) 1 ∷ digest 800 none 2 ∷ digest 1001 none 3 ∷ []

load_anchors-IsAnchorOf_example :
    ((some digests ≡ none) × (load_anchors 1000 (some digests) env ≡ none))
    ⊎ ((ds : List KeyDigest) × (some digests ≡ some ds)
        × (env' : Env) × (load_anchors 1000 (some digests) env ≡ some env')
        × (record env' { root_trust_anchors = env.root_trust_anchors } ≡ env)
        × ((d : Ds) → In d env'.root_trust_anchors ↔ IsAnchorOf 1000 ds d))
load_anchors-IsAnchorOf_example = load_anchors-IsAnchorOf 1000 (some digests) env

abbrev root_file : List Rr
root_file =
    ns (record { header = header_of root_name 2; value = host })
    ∷ a (record { header = header_of host 1; value = 1 ∷ [] })
    ∷ aaaa (record { header = header_of host 28; value = 2 ∷ [] })
    ∷ []

abbrev started : Resolver
started = record {
  zones = some ((root_name, record { name = root_name; parent = []; expired = λ now. false }) ∷ []);
  root_pool = record {
    hosts_without_addresses = [];
    ipv4 = record { hostname = host; addr = 1 ∷ [] } ∷ [];
    ipv4_next = 0;
    ipv4_count = 1;
    ipv6 = record { hostname = host; addr = 2 ∷ [] } ∷ [];
    ipv6_next = 0;
    ipv6_count = 1;
    expires = 0;
  };
  env = record env {
    root_trust_anchors =
        record {
          header = record { name = root_name; rrtype = 43; ttl = 86_400 };
          key_tag = 2;
          algorithm = 8;
          digest_type = 2;
          digest = 7 ∷ [];
        }
        ∷ [];
  };
}

starts_so : new_resolver dotted 1000 (some digests) (some (root_file, none)) env ≡ some started
unfolding new_resolver add with_dot
starts_so = refl

one_zone : count_zones started ≡ 1
unfolding count_zones
one_zone = refl

-- A zone is named by canonical names, which are to differ.
abbrev created : Name → Name → GoError ⊎ StoredZone
created name parent =
    if name_eq (with_dot name) (with_dot parent)
    then inl failed_creating_zone_and_pool
    else inr (record { name = with_dot name; parent = with_dot parent; expired = λ now. false })

abbrev funcs : Funcs ℕ
funcs = record {
  clock = λ n. 1000 + n;
  ask = λ n z q. (n + 1, some (response (if name_eq z.name root_name then referral else answer)));
  create_zone = λ st name parent nameservers extra. (st, created name parent);
  finalise = λ st m r. (st, r);
}

abbrev at_first : State ℕ
at_first = record { outside = 0; zones = started.zones; counter = 0; sent = none }

-- The zone test. is known after a request for a name in it.
abbrev at_last : State ℕ
at_last = record {
  outside = 2;
  zones = some (
      (root_name, record { name = root_name; parent = []; expired = λ now. false })
      ∷ (parent_name, record { name = parent_name; parent = root_name; expired = λ now. false })
      ∷ []);
  counter = 3;
  sent = none;
}

answered : exchange dotted 100 funcs request at_first ≡ returned (at_last, response answer)
unfolding exchange with_dot get_zone_list label_starts wind_to new_domain get gap
    records_of_type_exist extract_records is_set_do add
answered = refl

new_resolver-HasRoot_example : HasRoot dotted 5000 started.zones
new_resolver-HasRoot_example =
    new_resolver-HasRoot dotted dotted_IsRooted 1000 5000 (some digests) (some (root_file, none))
      env started starts_so

-- The zone test. has expired at 2000, and the root zone has not.
abbrev later_zones : Zones
later_zones = some (
    (root_name, record { name = root_name; parent = []; expired = λ now. false })
    ∷ (
      parent_name,
      record { name = parent_name; parent = root_name; expired = λ now. ltb 1500 now },
    )
    ∷ [])

root_left : HasRoot dotted 2000 later_zones
unfolding HasRoot get with_dot
root_left = (_, refl, refl)

get_zone_list-IsRooted_example : IsRootedList dotted dotted_IsRooted 2000 later_zones host
get_zone_list-IsRooted_example =
    get_zone_list-IsRooted dotted dotted_IsRooted 2000 later_zones host root_left
