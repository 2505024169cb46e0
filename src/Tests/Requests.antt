-- ===== src/Tests/Requests.antt =====
-- A request for www.test. in a world of two zones: the root refers to test., which answers.
use resolver_lib.Prelude.{
  List, ℕ, ◌+◌, ◌^◌, leb, ◌≤◌, ◌<◌, ◌≡◌, refl, ◌≢◌, inl, inr, true, false, [], ◌∷◌, Option, none,
  some, if◌then◌else◌, arith, name_eq,
}
use resolver_lib.Dns.{
  Rr, ns, a, Question, Msg, failed_creating_zone_and_pool, Pointer, max_queries_per_request_reached,
}
use resolver_lib.Dnssec.Status.{unknown, not_found}
use resolver_lib.Dnssec.Records.{extract_records, records_of_type_exist}
use resolver_lib.Resolver.Response.{Response, Query, new_response_error, is_set_do}
use resolver_lib.Resolver.Domain.{wind_to, new_domain, label_starts, gap}
use resolver_lib.Resolver.Zones.{StoredZone, get_zone_list, get, add}
use resolver_lib.Resolver.Pool.{NameserverPool, new_nameserver_pool, status, expired}
use resolver_lib.Resolver.Factory.{Conditions, create_zone}
use resolver_lib.Resolver.Factory.Usable.{IsUsable, create_zone-IsUsable}
use resolver_lib.Resolver.Missing.{State, Funcs}
use resolver_lib.Resolver.Exchange.{
  link_zones, looping, returned, Resolve, resolve_label, rounds, exchange,
}
use resolver_lib.Resolver.Exchange.Ends.{exchange_ends}
use resolver_lib.Resolver.Exchange.Limit.{Agree, rounds_limit}
use resolver_lib.Resolver.Exchange.Links.{Sends, link_zones-Sends}
use resolver_lib.Resolver.Wiring.{wired}
use resolver_lib.Tests.World.{world, root, header_of, reply}
use resolver_lib.Tests.Resolution.{host, parent_name, root_stored, test_stored, walk_of_host}

abbrev question : Question
question = record { qname = host; qtype = 1 }

abbrev pub request : Msg
request = record reply { question = question ∷ []; answer = []; recursion_desired = true }

abbrev pub referral : Msg
referral = record request {
  ns_section = ns (record { header = header_of parent_name 2; value = host }) ∷ [];
}

abbrev pub answer : Msg
answer = record request { answer = a (record { header = header_of host 1; value = 1 ∷ [] }) ∷ [] }

abbrev pub response : Msg → Response
response m = record { msg = some m; err = none; doe = not_found; auth = unknown }

abbrev pub funcs : Funcs ℕ
funcs = record {
  clock = λ n. 1000 + n;
  ask = λ n z q. (n + 1, some (response (if name_eq z.name root then referral else answer)));
  create_zone = λ st name parent nameservers extra. (
    st,
    (if name_eq name parent
        then inl failed_creating_zone_and_pool
        else inr (record { name = name; parent = parent; expired = λ now. false })),
  );
  finalise = λ st m r. (st, r);
}

abbrev pub begin : State ℕ
begin = record { outside = 0; zones = some ((root, root_stored) ∷ []); counter = 0; sent = none }

exchange_ends_example : exchange world 100 funcs request begin ≢ looping
exchange_ends_example = exchange_ends world 100 funcs request begin

-- Three rounds, two of which ask a zone.
abbrev pub end : State ℕ
end = record {
  outside = 2;
  zones = some ((root, root_stored) ∷ (parent_name, test_stored) ∷ []);
  counter = 3;
  sent = none;
}

pub resolved : exchange world 100 funcs request begin ≡ returned (end, response answer)
unfolding exchange get_zone_list label_starts wind_to new_domain get gap records_of_type_exist
    extract_records is_set_do add
resolved = refl

-- The zone test. is linked to the root zone.
abbrev linking : State ℕ
linking = record end { sent = some [] }

link_zones-Sends_example :
    let out = link_zones world 100 funcs linking (test_stored ∷ root_stored ∷ []) in
    ((sent : List (StoredZone × Msg)) × (out.sent ≡ some sent)
      × Sends world funcs (test_stored ∷ root_stored ∷ []) sent)
    × (out.zones ≡ linking.zones)
    × (out.counter ≡ 3)
link_zones-Sends_example =
    link_zones-Sends world funcs 100 (test_stored ∷ root_stored ∷ []) linking [] refl

abbrev query : Query
query = record { question = question; dnssec_ok = false }

-- Above a count of 5 it panics.
abbrev failing : Resolve ℕ
failing st d z = if leb st.counter 5 then resolve_label world funcs query st d z else none

agree : Agree 5 (resolve_label world funcs query) failing
agree st d z h = let t : leb st.counter 5 ≡ true = ground arith in rw t refl

abbrev used_up : State ℕ
used_up = record begin { counter = 5 }

rounds_limit_example :
    (rounds world 5 funcs.clock
        (resolve_label world funcs query)
        4
        used_up
        walk_of_host
        (some root_stored)
      ≡ rounds world 5 funcs.clock failing 4 used_up walk_of_host (some root_stored))
    × (5 ≤ 5
        → 5 + 1 < 2 ^ 32
        → 0 < 4
        → true ≡ true
        → rounds world 5 funcs.clock
            (resolve_label world funcs query)
            4
            used_up
            walk_of_host
            (some root_stored)
          ≡ returned
              (record used_up { counter = 6 }, new_response_error max_queries_per_request_reached))
rounds_limit_example =
    rounds_limit world 5 funcs.clock (resolve_label world funcs query) failing 4 used_up
      walk_of_host (some root_stored) agree

-- A zone whose only server has an address is made without a further request.
abbrev conditions : Conditions
conditions = record {
  desired = 3;
  lazy_enrichment = false;
  ipv6_available = false;
  max_allowed_ttl = 172_800;
  now = 1000;
}

abbrev silent : ℕ → Query → ℕ × Option Response
silent n q = (n, none)

abbrev delegation : Pointer
delegation = record { header = header_of parent_name 2; value = host }

abbrev glue : Rr
glue = a (record { header = header_of host 1; value = 9 ∷ [] })

abbrev made_pool : NameserverPool
made_pool = record {
  hosts_without_addresses = [];
  ipv4 = record { hostname = host; addr = 9 ∷ [] } ∷ [];
  ipv4_next = 0;
  ipv4_count = 1;
  ipv6 = [];
  ipv6_next = 0;
  ipv6_count = 0;
  expires = 1300;
}

abbrev made_zone : StoredZone
made_zone = record { name = parent_name; parent = root; expired = λ now. expired now made_pool }

zone_made :
    (create_zone world conditions silent 0 parent_name root (delegation ∷ []) (glue ∷ [])).1
    ≡ inr (made_zone, made_pool)
unfolding create_zone new_nameserver_pool status expired
zone_made = refl

create_zone-IsUsable_example :
    (parent_name ≡ parent_name)
    × (root ≡ root)
    × (name_eq parent_name root ≡ false)
    × (world.is_sub_domain root parent_name ≡ true)
    × IsUsable false made_pool
create_zone-IsUsable_example =
    create_zone-IsUsable world conditions silent 0 parent_name root (delegation ∷ []) (glue ∷ [])
      made_zone made_pool zone_made

-- The same request where the referral has the address of the server, and the factory makes the zone.
abbrev glued : Msg
glued = record referral { extra = glue ∷ [] }

abbrev alone : State ℕ → Query → State ℕ × Option Response
alone st q = (st, none)

abbrev ignore_pool : State ℕ → StoredZone → NameserverPool → ℕ
ignore_pool st z pool = st.outside

abbrev ask : ℕ → StoredZone → Query → ℕ × Option Response
ask n z q = (n + 1, some (response (if name_eq z.name root then glued else answer)))

abbrev finish : State ℕ → Msg → Response → State ℕ × Response
finish st m r = (st, r)

-- The zone that is made is known at the end.
abbrev ended : State ℕ
ended = record end { zones = some ((root, root_stored) ∷ (parent_name, made_zone) ∷ []) }

resolved_wired :
    exchange world 100
      (wired world conditions alone (λ n. 1000 + n) ignore_pool ask finish)
      request
      begin
    ≡ returned (ended, response answer)
unfolding exchange get_zone_list label_starts wind_to new_domain get gap records_of_type_exist
    extract_records is_set_do add wired create_zone new_nameserver_pool status expired
resolved_wired = refl
