-- ===== src/Cache.antt =====
-- cache/cache.go: record sets kept by a hash of their name and type. The bounded table behind it, the
-- hash and the texts for types are other packages'. Times are in nanoseconds. `none` is a run-time
-- panic: a record with the type of a signature that is none.
pub mod Holds
pub mod Sorting
pub mod RoundTrip
use resolver_lib.Prelude.{
  ℕ, ◌+◌, ◌*◌, ◌/◌, ◌^◌, ◌==◌, ltb, leb, Bool, true, false, not, ◌||◌, List, [], ◌∷◌, ◌++◌, Option,
  none, some, if◌then◌else◌, ◌>>=◌, Name, lookup, insert, nat_key,
}
use resolver_lib.Dns.{
  Rr, rrsig, header, Opt, Question, Msg, Dns, GoError, type_rrsig, type_opt, empty_question,
  cache_miss, cache_expired, cache_no_truncated,
}
use resolver_lib.Dnssec.Records.{as_rrsig}

pub data ValidationStatus : Type 0 where
  indeterminate secure insecure bogus : ValidationStatus

abbrev is_secure : ValidationStatus → Bool
is_secure secure = true
is_secure _ = false

pub record Entry : Type 0 where
  pub name : Name
  pub rrtype : ℕ
  pub status : ValidationStatus
  pub rcode : ℕ
  pub records : List Rr
  pub signatures : List Rr
  pub ttl : ℕ
  pub expires : ℕ

-- What is used of CoreDNS's table, of the hash FNV-1a, and of the DNS package: the text for a type,
-- which is empty for a type that it does not know, `SetReply`, `IsEdns0` and `SetEdns0`.
pub record Library : Type 1 where
  pub Table : Type 0
  pub get : ℕ → Table → Option Entry
  pub add : ℕ → Entry → Table → Table
  pub remove : ℕ → Table → Table
  pub hash : List ℕ → ℕ
  pub type_to_string : ℕ → List ℕ
  pub set_reply : Msg → Msg → Msg
  pub is_edns0 : Msg → Option Opt
  pub set_edns0 : Opt → Msg → Msg

abbrev pub second : ℕ
second = 10 ^ 9

-- The types that are not cached: OPT, TSIG, IXFR, AXFR, MAILB, MAILA and ANY.
abbrev pub is_ignored : ℕ → Bool
is_ignored t =
    (t == type_opt)
    || ((t == 250) || ((t == 251) || ((t == 252) || ((t == 253) || ((t == 254) || (t == 255))))))

-- The two maps that a message is split into.
pub record Groups : Type 0 where
  pub rrsets : List (ℕ × List Rr)
  pub sigs : List (ℕ × List Rr)

-- A missing key of a map of slices reads as nil.
abbrev pub slice_at : ℕ → List (ℕ × List Rr) → List Rr
slice_at k m = elim (lookup k m) [ none ↦ [] | some rr ↦ rr ]

abbrev pub empty_msg : Msg
empty_msg = record {
  question = [];
  answer = [];
  ns_section = [];
  extra = [];
  rcode = 0;
  truncated = false;
  authoritative = false;
  recursion_desired = false;
  recursion_available = false;
  authenticated_data = false;
  checking_disabled = false;
}

module _ (dns : Dns) (lib : Library) where
  open lib use {Table, hash, type_to_string}

  unfoldable pub key : Name → ℕ → ℕ
  key name qtype = hash (dns.canonical_name name ++ type_to_string qtype)

  -- The round for a record: an invalid signature drops those before it.
  unfoldable pub sort_record : ℕ → Groups → Rr → Option Groups
  unfolding key
  sort_record now g rr =
      let own = key (header rr).name (header rr).rrtype in
      if (header rr).rrtype == type_rrsig
      then (as_rrsig rr >>= λ sig.
          (let k = key (header rr).name sig.type_covered in
            some (record g {
              sigs =
                  insert k
                    (if dns.validity_period sig (now / second)
                      then slice_at k g.sigs ++ rr ∷ []
                      else [])
                    g.sigs;
            })))
      else if is_ignored (header rr).rrtype
      then some g
      else some (record g { rrsets = insert own (slice_at own g.rrsets ++ rr ∷ []) g.rrsets })

  -- The first loop.
  unfoldable pub group : ℕ → Groups → List Rr → Option Groups
  unfolding sort_record
  group now g [] = some g
  group now g (rr ∷ records) = sort_record now g rr >>= λ g'. group now g' records

  -- There was no signature, or there is a valid one.
  abbrev pub may_store : Option (List Rr) → Bool
  may_store none = true
  may_store (some []) = false
  may_store (some (_ ∷ _)) = true

  abbrev pub new_entry : ℕ → Rr → List Rr → List Rr → Entry
  new_entry now r records signatures = record {
    name = (header r).name;
    rrtype = (header r).rrtype;
    status = indeterminate;
    rcode = 0;
    records = records;
    signatures = signatures;
    ttl = (header r).ttl;
    expires = now + (header r).ttl * second;
  }

  -- The second loop; no set is empty. Its order, which a Go map leaves open, is that of the first
  -- records here.
  unfoldable pub store : ℕ → List (ℕ × List Rr) → Table → List (ℕ × List Rr) → Option Table
  store now sigs t [] = some t
  store now sigs t ((k, []) ∷ rrsets) =
      if may_store (lookup k sigs) then none else store now sigs t rrsets
  store now sigs t ((k, r ∷ records) ∷ rrsets) =
      let entry = new_entry now r (r ∷ records) (slice_at k sigs) in
      store now sigs
        (if may_store (lookup k sigs)
          then (if ltb 0 (header r).ttl then lib.add k entry t else t)
          else t)
        rrsets

  -- The table, and the error that is returned.
  unfoldable pub update_with_time : ℕ → Msg → Table → Option (Table × Option GoError)
  unfolding group store
  update_with_time now msg t =
      if msg.truncated
      then some (t, some cache_no_truncated)
      else group now (record { rrsets = []; sigs = [] })
          ((msg.answer ++ msg.ns_section) ++ msg.extra)
        >>= λ g. store now g.sigs t g.rrsets >>= λ t'. some (t', none)

  abbrev pub failure : Msg
  failure = record empty_msg { rcode = 2 }

  -- The reply that is made from an entry.
  unfoldable pub reply_from : Entry → Msg → Msg
  reply_from entry qmsg =
      let replied =
        lib.set_reply qmsg
          (record failure { answer = entry.records ++ entry.signatures; rcode = entry.rcode }) in
      let extended = elim (lib.is_edns0 qmsg) as (λ _. Msg) [
        | none ↦ replied
        | some opt ↦ lib.set_edns0 opt replied
      ] in
      let authoritative = record extended { authoritative = true } in
      if is_secure entry.status
      then record authoritative { authenticated_data = true }
      else authoritative

  -- The table, the message, or nil, and the error, or nil.
  unfoldable pub get_with_time : ℕ → Option Msg → Table → Table × Option Msg × Option GoError
  unfolding reply_from
  get_with_time now none t = (t, none, some empty_question)
  get_with_time now (some qmsg) t = elim qmsg.question [
    | [] ↦ (t, none, some empty_question)
    | q ∷ _ ↦ elim (lib.get (key q.qname q.qtype) t) [
      | none ↦ (t, some failure, some cache_miss)
      | some entry ↦
          if ltb entry.expires now
          then (lib.remove (key q.qname q.qtype) t, some failure, some cache_expired)
          else (t, some (reply_from entry qmsg), none)
    ]
  ]
