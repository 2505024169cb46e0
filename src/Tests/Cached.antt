-- ===== src/Tests/Cached.antt =====
-- A table for the cache that keeps everything, and a message that goes through it.
use resolver_lib.Prelude.{
  ℕ, ◌+◌, ◌*◌, ◌==◌, ◌≡◌, refl, inl, inr, true, List, [], ◌∷◌, Option, none, some, Bool-cases,
  if◌then◌else◌, All, nat_key, lookup, insert, arith, select,
}
use resolver_lib.Dns.{Rr, Msg, rrsig}
use resolver_lib.Cache.{
  Entry, Library, key, new_entry, reply_from, update_with_time, get_with_time, second,
}
use resolver_lib.Cache.Sorting.{Admits, is_of, is_over}
use resolver_lib.Cache.RoundTrip.{IsRoomy, sections, get_with_time-update_with_time}
use resolver_lib.Cache.Holds.{Holds, IsTable, update_with_time-Holds}
use resolver_lib.Tests.World.{world, qname, question, address, reply, signed}

-- A table is a function here; a key is the type's number and a hash is the sum.
abbrev sum : List ℕ → ℕ
sum [] = 0
sum (n ∷ ns) = n + 1000 * sum ns

abbrev pub library : Library
library = record {
  Table = ℕ → Option Entry;
  get = λ k t. t k;
  add = λ k e t j. if k == j then some e else t j;
  remove = λ k t j. if k == j then none else t j;
  hash = sum;
  type_to_string = λ t. t ∷ [];
  set_reply = λ q m. record m { question = q.question };
  is_edns0 = λ m. none;
  set_edns0 = λ o m. m;
}

abbrev pub empty_table : ℕ → Option Entry
empty_table k = none

library_IsRoomy : IsRoomy world library
library_IsRoomy = record {
  get-add = λ k e t. let h : (k == k) ≡ true = ground arith in rw h refl;
  get-add_other = λ k j e t h. rw h refl;
}

pub library_IsTable : IsTable world library
library_IsTable = record {
  get-add = λ k j e x t h. elim (Bool-cases (k == j)) [
    | inl b ↦ inl (ground arith, cc (rw b at h))
    | inr b ↦ inr (rw b at h)
  ];
  get-remove =
      λ k j x t h. elim (Bool-cases (k == j)) [ inl b ↦ cc (rw b at h) | inr b ↦ rw b at h ];
}

abbrev pub start : ℕ
start = 1000 * second

pub cached :
    (t : ℕ → Option Entry) × (update_with_time world library start reply empty_table
      ≡ some (t, none))
unfolding update_with_time insert lookup
cached = (_, refl)

pub cached_Holds : Holds world library cached.0
cached_Holds =
    update_with_time-Holds world library start reply empty_table cached.0 none library_IsTable
      (λ k e h. cc) cached.1

pub looked_up :
    (t : ℕ → Option Entry) × (m : Msg) × (get_with_time world library
        (start + 5)
        (some reply)
        cached.0
      ≡ (t, some m, none))
unfolding cached get_with_time update_with_time insert lookup
looked_up = (_, _, refl)

abbrev vouched : Rr
vouched = rrsig (signed qname 1 1)

sum_key : key world library qname 1 ≡ key world library question.qname question.qtype
sum_key = refl

first_found :
    select (is_of world library (key world library qname 1)) (sections reply) ≡ address ∷ []
unfolding key
first_found = refl

all_admitted : All (Admits world library start) (sections reply)
all_admitted = (inl refl, (inr (signed qname 1 1, refl, refl, refl), tt))

get_with_time-update_with_time_example :
    let k = key world library qname 1 in
    (t : ℕ → Option Entry) × (update_with_time world library start reply empty_table
      ≡ some (t, none))
    × (get_with_time world library (start + 5) (some reply) t ≡ (
      t,
      some (
          reply_from world library
            (new_entry world library start address
              (address ∷ [])
              (select (is_over world library k) (sections reply)))
            reply),
      none,
    ))
get_with_time-update_with_time_example =
    get_with_time-update_with_time world library start (start + 5) reply reply question [] address
      [] empty_table library_IsRoomy refl all_admitted refl first_found (omega arith) (omega arith)
