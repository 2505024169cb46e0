-- ===== src/Resolver/Exchange/Ends.antt =====
-- The loop of resolver_exchange.go ends: each round moves on along the labels of the name.
use resolver_lib.Prelude.{
  ℕ, zero, suc, ◌+◌, ◌-◌, ◌%◌, ◌^◌, ◌≤◌, ltb, ◌≡◌, refl, subst, ◌≢◌, inl, inr, false, List, [], ◌∷◌,
  ◌++◌, Option, none, some, if◌then◌else◌, >>=-eq-some, Bool-cases, Option-cases, arith, Name,
  name_eq, length,
}
use resolver_lib.Dns.{Question, Msg, Dns, GoError, external}
use resolver_lib.Resolver.Response.{Response, Query, is_set_do}
use resolver_lib.Resolver.Domain.{Domain, current, next, more, last, gap, wind_to, new_domain}
use resolver_lib.Resolver.Zones.{StoredZone, get, get_zone_list}
use resolver_lib.Resolver.Missing.{
  State, Funcs, clone, find_soa, add_missing, check_for_missing_zones, next_owner, root_name,
}
use resolver_lib.Resolver.Exchange.{
  Outcome, looping, Label, Resolve, after_label, take_known, follow_answer, resolve_label, rounds,
  exchange_zones, exchange, link_zones, starting, is_delegation,
}

-- The same labels, and not an earlier position.
abbrev pub IsForward : Domain → Domain → Type 0
IsForward d d' =
    (length d'.label_indexes ≡ length d.label_indexes) × (d.current_idx ≤ d'.current_idx)

further : (d d' : Domain) → IsForward (next d) d' → IsForward d d'
further d d' h = (h.0, omega arith)

module _ (dns : Dns) {S : Type 0} (funcs : Funcs S) where
  add_missing-IsForward :
      (e : GoError) (names : List Name) (st st' : State S) (d d' : Domain) (z z' : StoredZone)
      → add_missing dns funcs e st d z names ≡ some (st', d', z')
      → IsForward d d'
  unfolding add_missing
  add_missing-IsForward e [] st st' d d' z z' h =
      let same : d ≡ d' = cc in subst (IsForward d) same (refl, omega arith)
  add_missing-IsForward e (name ∷ names) st st' d d' z z' h =
      elim (Option-cases (find_soa dns funcs e st.outside z name).2) [
        | inr (x, k) ↦
            further d d'
              (add_missing-IsForward e names _ st' (next d) d' z z' (rw (k, add_missing) at h))
        | inl k ↦ elim (Option-cases (find_soa dns funcs e st.outside z name).1) [
          | inl l ↦
              further d d'
                (add_missing-IsForward e names _ st' (next d) d' z z' (rw (k, l, add_missing) at h))
          | inr (soa, l) ↦
              let (z1, c, rest) =
                >>=-eq-some (clone dns z name z.name) _ (rw (k, l, add_missing) at h) in
              further d d' (add_missing-IsForward e names _ st' (next d) d' z1 z' rest)
        ]
      ]

  check_for_missing_zones-IsForward :
      (e : GoError) (st st' : State S) (d d' : Domain) (z z' : StoredZone) (m : Msg)
      → check_for_missing_zones dns funcs e st d z m ≡ some (st', d', z')
      → IsForward d d'
  unfolding check_for_missing_zones
  check_for_missing_zones-IsForward e st st' d d' z z' m h =
      let owner = next_owner dns z.name root_name (m.ns_section ++ m.answer) in
      elim (Bool-cases (name_eq owner root_name)) [
        | inl t ↦ let same : d ≡ d' = cc (rw t at h) in subst (IsForward d) same (refl, omega arith)
        | inr f ↦
            let (names, g, rest) = >>=-eq-some (gap dns d owner) _ (rw f at h) in
            add_missing-IsForward e names st st' d d' z z' rest
      ]

-- A function that resolves a label moves on, or stays.
abbrev pub Moves : {S : Type 0} → Resolve S → Type 0
Moves {S} resolve =
    (st st' : State S) (d d' : Domain) (z z' : Option StoredZone) (r : Option Response)
    → resolve st d z ≡ some (st', d', z', r)
    → IsForward d d'

known_ends :
    {S : Type 0} (on : Option StoredZone → Outcome (State S × Response))
    (ask : Outcome (State S × Response)) (o : Option StoredZone)
    → ((z : Option StoredZone) → on z ≢ looping)
    → ask ≢ looping
    → take_known on ask o ≢ looping
known_ends on ask none h k = k
known_ends on ask (some z) h k = h (some z)

label_ends :
    {S : Type 0} (on : State S → Domain → Option StoredZone → Outcome (State S × Response))
    (o : Option (Label S))
    → ((st : State S) (d : Domain) (z : Option StoredZone)
        → o ≡ some (st, d, z, none)
        → on st (next d) z ≢ looping)
    → after_label on o ≢ looping
label_ends on none h e = cc
label_ends on (some (st, d, z, some r)) h e = cc
label_ends on (some (st, d, z, none)) h e = h st d z refl e

module _ (dns : Dns) (max_queries : ℕ) {S : Type 0} where
  rounds-ends :
      (clock : S → ℕ) (resolve : Resolve S) (n : ℕ) (st : State S) (d : Domain)
      (z : Option StoredZone)
      → Moves resolve
      → length d.label_indexes + 1 ≤ n + d.current_idx
      → rounds dns max_queries clock resolve n st d z ≢ looping
  unfolding rounds
  rounds-ends clock resolve zero st d z m b h =
      let f : more d ≡ false = ground arith in cc (rw f at h)
  rounds-ends clock resolve (suc n) st d z m b h = elim (Bool-cases (more d)) [
    | inr f ↦ cc (rw f at h)
    | inl f ↦ elim (Bool-cases (ltb max_queries ((st.counter + 1) % 2 ^ 32))) [
      | inl l ↦ cc (rw (f, l) at h)
      | inr l ↦ elim (Option-cases (current d)) [
        | inl c ↦ cc (rw (f, l, c) at h)
        | inr (c, k) ↦
            let st' = record st { counter = (st.counter + 1) % 2 ^ 32 } in
            known_ends (rounds dns max_queries clock resolve n st' (next d))
              (after_label (rounds dns max_queries clock resolve n) (resolve st' d z))
              (if last d then none else get dns (clock st'.outside) st'.zones c)
              (λ z'. rounds-ends clock resolve n st' (next d) z' m (omega arith))
              (label_ends (rounds dns max_queries clock resolve n) (resolve st' d z) (λ st1 d1 z1 e.
                let (same, on) = m st' st1 d d1 z z1 none e in
                rounds-ends clock resolve n st1 (next d1) z1 m (omega arith)))
              (rw (f, l, k) at h)
      ]
    ]
  ]

module _ (dns : Dns) (max_queries : ℕ) {S : Type 0} (funcs : Funcs S) where
  follow_answer-IsForward :
      (st st' : State S) (d d' : Domain) (z : StoredZone) (z' : Option StoredZone) (r : Response)
      (r' : Option Response) (m : Msg)
      → follow_answer dns funcs st d z r m ≡ some (st', d', z', r')
      → IsForward d d'
  unfolding follow_answer
  follow_answer-IsForward st st' d d' z z' r r' m h =
      let ((st1, d1, z1), f, rest) =
        >>=-eq-some (check_for_missing_zones dns funcs (external 3) st d z m) _ h in
      let k = check_for_missing_zones-IsForward dns funcs (external 3) st st1 d d1 z z1 m f in
      elim (Bool-cases (is_delegation m)) [
        | inl t ↦ let same : d1 ≡ d' = cc (rw t at rest) in subst (IsForward d) same k
        | inr t ↦ let same : d1 ≡ d' = cc (rw t at rest) in subst (IsForward d) same k
      ]

  still : (d d' : Domain) → d ≡ d' → IsForward d d'
  still d d' e = subst (IsForward d) e (refl, omega arith)

  resolve_label-Moves : (query : Query) → Moves (resolve_label dns funcs query)
  unfolding resolve_label
  resolve_label-Moves query st st' d d' none z' r h = still d d' cc
  resolve_label-Moves query st st' d d' (some z) z' r h =
      let asked = record st { outside = (funcs.ask st.outside z query).0 } in
      elim (Option-cases (funcs.ask st.outside z query).1) [
        | inl e ↦ still d d' (cc (rw (e, resolve_label) at h))
        | inr (x, e) ↦ elim (Option-cases x.err) [
          | inr (y, f) ↦ still d d' (cc (rw (e, f, resolve_label) at h))
          | inl f ↦ elim (Option-cases x.msg) [
            | inl g ↦ still d d' (cc (rw (e, f, g, resolve_label) at h))
            | inr (m, g) ↦
                follow_answer-IsForward asked st' d d' z z' x r m
                  (simp (e, f, g, resolve_label) at h)
          ]
        ]
      ]

  exchange_zones-ends :
      (q : Question) (qmsg : Msg) (st : State S) (known : List StoredZone)
      → exchange_zones dns max_queries funcs q qmsg st known ≢ looping
  unfolding exchange_zones
  exchange_zones-ends q qmsg st [] h = cc
  exchange_zones-ends q qmsg st (z ∷ known) h =
      elim (Option-cases (wind_to dns (new_domain dns q.qname) z.name)) [
        | inl e ↦ cc (rw (e, exchange_zones) at h)
        | inr ((d, none), e) ↦
            let linked = link_zones dns max_queries funcs (starting qmsg st) (z ∷ known) in
            let query : Query = record { question = q; dnssec_ok = is_set_do qmsg.extra } in
            rounds-ends dns max_queries funcs.clock (resolve_label dns funcs query)
              (length d.label_indexes + 1 - d.current_idx) linked d (some z)
              (resolve_label-Moves query) (omega arith) (rw (e, exchange_zones) at h)
        | inr ((d, some x), e) ↦ cc (rw (e, exchange_zones) at h)
      ]

  -- Resolving a name ends: whatever the zones answer, whatever zones are known and whatever the parts
  -- that are parameters do, the rounds that the loop is given suffice.
  pub exchange_ends : (qmsg : Msg) (st : State S) → exchange dns max_queries funcs qmsg st ≢ looping
  unfolding exchange
  exchange_ends qmsg st h = go qmsg.question refl
    where
      go : (qs : List Question) → qmsg.question ≡ qs → ⊥
      go [] e = cc (simp (e, exchange) at h)
      go (q ∷ more) e =
          elim (Option-cases (get_zone_list dns (funcs.clock st.outside) st.zones q.qname)) [
            | inl f ↦ cc (simp (e, f, exchange) at h)
            | inr (known, f) ↦ exchange_zones-ends q qmsg st known (simp (e, f, exchange) at h)
          ]
