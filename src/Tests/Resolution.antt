-- ===== src/Tests/Resolution.antt =====
-- The parts of the resolver on the names of the test world.
use resolver_lib.Prelude.{
  ℕ, ◌+◌, ◌≡◌, refl, false, [], ◌∷◌, Option, none, some, arith, Name, length,
}
use resolver_lib.Dns.{Rr, cname, a, Msg, external}
use resolver_lib.Dnssec.Status.{secure, insecure, not_found, combine}
use resolver_lib.Dnssec.Records.{extract_records}
use resolver_lib.Resolver.Response.{Response, Query}
use resolver_lib.Resolver.Cname.{Followed, follow_cnames}
use resolver_lib.Resolver.Cname.Weaker.{IsWeaker, follow_cnames-IsWeaker}
use resolver_lib.Tests.World.{world, codes, root, header_of, qname, question, reply}
use resolver_lib.Resolver.Domain.{Domain, new_domain, label_starts, wind_to}
use resolver_lib.Resolver.Domain.Walk.{IsLabelled, Winds, wind_to_lem}
use resolver_lib.Resolver.Zones.{StoredZone}

abbrev pub host : Name
host = codes "www.test."

abbrev pub parent_name : Name
parent_name = codes "test."

abbrev pub walk_of_host : Domain
walk_of_host = record { name = host; label_indexes = 8 ∷ 4 ∷ 0 ∷ []; current_idx = 0 }

walk_of_host-new : new_domain world host ≡ walk_of_host
unfolding new_domain label_starts
walk_of_host-new = refl

host-IsLabelled : IsLabelled world host 0 (8 ∷ 4 ∷ 0 ∷ [])
host-IsLabelled = (omega arith, refl, (omega arith, refl, (omega arith, refl, tt)))

wind_to_lem_example : Winds walk_of_host parent_name (wind_to world walk_of_host parent_name)
wind_to_lem_example = wind_to_lem world walk_of_host parent_name host-IsLabelled refl

abbrev pub root_stored : StoredZone
root_stored = record { name = root; parent = []; expired = λ now. false }

abbrev pub test_stored : StoredZone
test_stored = record { name = parent_name; parent = root; expired = λ now. false }

abbrev alias : Rr
alias = cname (record { header = header_of qname 5; value = parent_name })

abbrev aliased : Msg
aliased = record reply { answer = alias ∷ [] }

-- It answers every query with an address for the name, and counts the queries.
abbrev answering : ℕ → Query → ℕ × Option Response
answering n q = (
  n + 1,
  some (record {
    msg = some (record reply {
      answer = a (record { header = header_of q.question.qname 1; value = [] }) ∷ [];
    });
    err = none;
    doe = not_found;
    auth = insecure;
  }),
)

followed : Followed ℕ
unfolding follow_cnames extract_records
followed = follow_cnames world answering (external 0) question [] 0 aliased secure

-- The alias is followed with one query, and the whole is as insecure as the answer to it.
followed_once : (followed.state ≡ 1) × (followed.auth ≡ insecure) × (length followed.msg.answer ≡ 2)
unfolding followed combine
followed_once = (refl, refl, refl)

follow_cnames-IsWeaker_example :
    IsWeaker aliased secure
      (follow_cnames world answering (external 0) question [] 0 aliased secure).msg
      (follow_cnames world answering (external 0) question [] 0 aliased secure).auth
follow_cnames-IsWeaker_example =
    follow_cnames-IsWeaker world answering (external 0) question [] 0 aliased secure
