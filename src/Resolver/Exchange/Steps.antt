-- ===== src/Resolver/Exchange/Steps.antt =====
-- What a request of resolver_exchange.go does, as a relation of single steps.
use resolver_lib.Prelude.{
  ◌+◌, ◌%◌, ◌^◌, ◌≡◌, refl, sym, subst, inl, inr, true, false, not, ◌||◌, List, [], ◌∷◌, ◌++◌,
  Option, none, some, >>=-eq-some, Bool-cases, Option-cases, arith, Name, name_eq, ◌⊎◌,
}
use resolver_lib.Dns.{Header, type_soa, type_ds, Rr, Pointer, Msg, Dns, GoError}
use resolver_lib.Dnssec.Records.{extract_records, records_of_type_exist}
use resolver_lib.Resolver.Response.{Response, new_response_error, Query, response_msg, response_err}
use resolver_lib.Resolver.Domain.{Domain, next, gap}
use resolver_lib.Resolver.Zones.{StoredZone, add}
use resolver_lib.Resolver.Missing.{
  State, Funcs, as_ns, as_soa, clone, find_soa, add_delegation_signer_link, add_missing,
  check_for_missing_zones, next_owner, root_name, add_response,
}
use resolver_lib.Resolver.Exchange.{process_delegation}

module _ (dns : Dns) {S : Type 0} (funcs : Funcs S) where
  -- The states before and after some steps. A zone is asked; a message of a zone is sent to the
  -- authenticator; a round is counted; a zone that was cloned is added under a zone, or one that was
  -- created for a referral; the response is finished. Requests that creating and finishing make of
  -- their own are within that step.
  pub data Does : State S → State S → Type 0 where
    nothing : {a : State S} → Does a a
    asks :
        {a b : State S}
        → Does a b
        → (z : StoredZone) (q : Query) → Does a (record b { outside = (funcs.ask b.outside z q).0 })
    sends :
        {a b : State S}
        → Does a b
        → (z : StoredZone) (m : Msg) (queue : List (StoredZone × Msg)) → b.sent ≡ some queue
        → Does a (record b { sent = some (queue ++ (z, m) ∷ []) })
    counts : {a b : State S} → Does a b → Does a (record b { counter = (b.counter + 1) % 2 ^ 32 })
    clones :
        {a b : State S}
        → Does a b
        → (z z' : StoredZone) (name : Name) → clone dns z name z.name ≡ some z'
        → Does a (record b { zones = add dns b.zones z' })
    fails_to_create :
        {a b : State S}
        → Does a b
        → (name parent : Name) (nameservers : List Pointer) (extra : List Rr)
        → Does a (funcs.create_zone b name parent nameservers extra).0
    creates :
        {a b : State S}
        → Does a b
        → (name parent : Name) (nameservers : List Pointer) (extra : List Rr) (z : StoredZone)
        → (funcs.create_zone b name parent nameservers extra).1 ≡ inr z
        → name_eq name parent ≡ false
        → dns.is_sub_domain parent name ≡ true
        → Does a (record (funcs.create_zone b name parent nameservers extra).0 {
          zones = add dns (funcs.create_zone b name parent nameservers extra).0.zones z;
        })
    finishes :
        {a b : State S} → Does a b → (m : Msg) (r : Response) → Does a (funcs.finalise b m r).0

  pub link-Does :
      (a st : State S) (z : StoredZone) (name : Name)
      → Does a st
      → Does a (add_delegation_signer_link dns funcs st z name)
  unfolding add_delegation_signer_link
  link-Does a st z name g = elim (Option-cases st.sent) [
    | inl e ↦ rw (e, add_delegation_signer_link) g
    | inr (queue, e) ↦
        let query : Query = record {
          question = record { qname = name; qtype = type_ds };
          dnssec_ok = true;
        } in
        let r = (funcs.ask st.outside z query).1 in
        elim (Option-cases (response_msg r)) [
          | inl f ↦ rw (e, f, add_delegation_signer_link) (asks g z query)
          | inr (m, f) ↦ elim (Option-cases (response_err r)) [
            | inl h ↦ rw (e, f, h, add_delegation_signer_link) (sends (asks g z query) z m queue e)
            | inr (x, h) ↦ rw (e, f, h, add_delegation_signer_link) (asks g z query)
          ]
        ]
  ]

  pub add_response-Does :
      (a st : State S) (z : StoredZone) (m : Msg)
      → Does a st
      → Does a (add_response dns funcs st z m)
  add_response-Does a st z m g = go st.sent refl
    where
      go :
          (sent : Option (List (StoredZone × Msg)))
          → st.sent ≡ sent
          → Does a (elim sent as (λ _. State S) [
            | none ↦ st
            | some queue ↦ record st { sent = some (queue ++ (z, m) ∷ []) }
          ])
      go none e = g
      go (some queue) e = sends g z m queue e

  soa_query : Name → Query
  soa_query name = record {
    question = record { qname = name; qtype = type_soa };
    dnssec_ok = false;
  }

  -- Asking for the SOA record is one question to the zone.
  find_soa-outside :
      (e : GoError) (s : S) (z : StoredZone) (name : Name)
      → (find_soa dns funcs e s z name).0 ≡ (funcs.ask s z (soa_query name)).0
  unfolding find_soa soa_query
  find_soa-outside e s z name =
      let r = (funcs.ask s z (soa_query name)).1 in
      elim (Option-cases (response_msg r)) [
        | inl f ↦ rw (f, find_soa) refl
        | inr (m, f) ↦ elim (Option-cases (response_err r)) [
          | inr (x, g) ↦ rw (f, g, find_soa) refl
          | inl g ↦ elim (Bool-cases (records_of_type_exist m.answer type_soa)) [
            | inr k ↦ rw (f, g, k, find_soa) refl
            | inl k ↦ one m f g k (extract_records as_soa m.answer) refl
          ]
        ]
      ]
    where
      one :
          (m : Msg)
          → response_msg (funcs.ask s z (soa_query name)).1 ≡ some m
          → response_err (funcs.ask s z (soa_query name)).1 ≡ none
          → records_of_type_exist m.answer type_soa ≡ true
          → (hs : List Header) → extract_records as_soa m.answer ≡ hs
          → (find_soa dns funcs e s z name).0 ≡ (funcs.ask s z (soa_query name)).0
      one m f g k [] h = rw (f, g, k, h, find_soa) refl
      one m f g k (x ∷ []) h = rw (f, g, k, h, find_soa) refl
      one m f g k (x ∷ y ∷ hs) h = rw (f, g, k, h, find_soa) refl

  add_missing-Does :
      (e : GoError) (names : List Name) (a st st' : State S) (d d' : Domain) (z z' : StoredZone)
      → Does a st
      → add_missing dns funcs e st d z names ≡ some (st', d', z')
      → Does a st'
  unfolding add_missing
  add_missing-Does e [] a st st' d d' z z' g h = let same : st ≡ st' = cc in subst (Does a) same g
  add_missing-Does e (name ∷ names) a st st' d d' z z' g h =
      let found = record st { outside = (find_soa dns funcs e st.outside z name).0 } in
      let asked : Does a found =
        subst (λ x. Does a (record st { outside = x })) (sym (find_soa-outside e st.outside z name))
          (asks g z (soa_query name)) in
      elim (Option-cases (find_soa dns funcs e st.outside z name).2) [
        | inr (x, k) ↦
            add_missing-Does e names a found st' (next d) d' z z' asked (rw (k, add_missing) at h)
        | inl k ↦ elim (Option-cases (find_soa dns funcs e st.outside z name).1) [
          | inl l ↦
              add_missing-Does e names a found st' (next d) d' z z' asked
                (rw (k, l, add_missing) at h)
          | inr (soa, l) ↦
              let (z1, c, rest) =
                >>=-eq-some (clone dns z name z.name) _ (rw (k, l, add_missing) at h) in
              let linked = add_delegation_signer_link dns funcs found z z1.name in
              add_missing-Does e names a (record linked { zones = add dns linked.zones z1 }) st'
                (next d) d' z1 z' (clones (link-Does a found z z1.name asked) z z1 name c) rest
        ]
      ]

  pub check_for_missing_zones-Does :
      (e : GoError) (a st st' : State S) (d d' : Domain) (z z' : StoredZone) (m : Msg)
      → Does a st
      → check_for_missing_zones dns funcs e st d z m ≡ some (st', d', z')
      → Does a st'
  unfolding check_for_missing_zones
  check_for_missing_zones-Does e a st st' d d' z z' m g h =
      let owner = next_owner dns z.name root_name (m.ns_section ++ m.answer) in
      elim (Bool-cases (name_eq owner root_name)) [
        | inl t ↦ let same : st ≡ st' = cc (rw t at h) in subst (Does a) same g
        | inr f ↦
            let (names, k, rest) = >>=-eq-some (gap dns d owner) _ (rw f at h) in
            add_missing-Does e names a st st' d d' z z' g rest
      ]

  placed :
      (a st st' : State S) (w : GoError ⊎ StoredZone)
      → Does a st'
      → ((z : StoredZone) → w ≡ inr z → Does a (record st' { zones = add dns st'.zones z }))
      → Does a
          (elim w as (λ _. State S × Option StoredZone × Option Response) [
            | inl e ↦ (st', none, some (new_response_error e))
            | inr z ↦ (record st' { zones = add dns st'.zones z }, some z, none)
          ]).0
  placed a st st' (inl e) g made = g
  placed a st st' (inr z) g made = made z refl

  pub process_delegation-Does :
      (a st : State S) (z : StoredZone) (m : Msg)
      → Does a st
      → Does a (process_delegation dns funcs st z m).0
  unfolding process_delegation
  process_delegation-Does a st z m g = go (extract_records as_ns m.ns_section) refl
    where
      go :
          (rs : List Pointer)
          → extract_records as_ns m.ns_section ≡ rs
          → Does a (process_delegation dns funcs st z m).0
      go [] e = rw (e, process_delegation) g
      go (r ∷ rs) e =
          let name = dns.canonical_name r.header.name in
          let made = funcs.create_zone st name z.name (r ∷ rs) m.extra in
          elim (Bool-cases (name_eq name z.name || not (dns.is_sub_domain z.name name))) [
            | inl t ↦ rw (e, t, process_delegation) g
            | inr f ↦
                let distinct : name_eq name z.name ≡ false = ground arith in
                let below : dns.is_sub_domain z.name name ≡ true = ground arith in
                rw (e, f, process_delegation)
                  (placed a st made.0 made.1 (fails_to_create g name z.name (r ∷ rs) m.extra)
                    (λ z' w. creates g name z.name (r ∷ rs) m.extra z' w distinct below))
          ]
