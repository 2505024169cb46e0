-- ===== src/Resolver/Exchange/Links.antt =====
-- What the authenticator is sent of the links between the known zones, in resolver_exchange.go.
use resolver_lib.Prelude.{
  ◌≡◌, refl, ap, sym, ◌∙◌, ◌⊎◌, inl, inr, true, List, [], ◌∷◌, ◌++◌, Option, none, some,
  Option-cases, Name, ℕ, subst, In, In-append_cases, In-append_left, In-append_right,
}
use mathlib.Core.List.{append_assoc, append-nil}
use resolver_lib.Dns.{Msg, Dns, GoError, type_ds}
use resolver_lib.Resolver.Response.{Response, Query, response_err, response_msg}
use resolver_lib.Resolver.Zones.{StoredZone}
use resolver_lib.Resolver.Missing.{State, Funcs, add_delegation_signer_link}
use resolver_lib.Resolver.Exchange.{link_zones}

abbrev pub ds_query : Name → Query
ds_query name = record { question = record { qname = name; qtype = type_ds }; dnssec_ok = true }

-- A zone stands in a list directly before another one.
abbrev pub IsBefore : StoredZone → StoredZone → List StoredZone → Type 0
IsBefore c p [] = ⊥
IsBefore c p (x ∷ []) = ⊥
IsBefore c p (x ∷ y ∷ zs) = ((c ≡ x) × (p ≡ y)) ⊎ IsBefore c p (y ∷ zs)

-- What a good answer of a zone adds to what is sent.
abbrev link_of : StoredZone → Option Response → List (StoredZone × Msg)
link_of z r = elim (response_msg r) [
  | none ↦ []
  | some m ↦ elim (response_err r) [ some _ ↦ [] | none ↦ (z, m) ∷ [] ]
]

link_nil : (z : StoredZone) (r : Option Response) → response_msg r ≡ none → link_of z r ≡ []
link_nil z r e = rw (e, link_of) refl

link_bad :
    (z : StoredZone) (r : Option Response) (m : Msg) (x : GoError)
    → response_msg r ≡ some m
    → response_err r ≡ some x
    → link_of z r ≡ []
link_bad z r m x e f = rw (e, f, link_of) refl

link_good :
    (z : StoredZone) (r : Option Response) (m : Msg)
    → response_msg r ≡ some m
    → response_err r ≡ none
    → link_of z r ≡ (z, m) ∷ []
link_good z r m e f = rw (e, f, link_of) refl

module _ (dns : Dns) {S : Type 0} (funcs : Funcs S) where
  -- In some state of the outside world, the zone answered the request for the DS records of a name
  -- with the message, and without an error.
  abbrev pub Answered : StoredZone → Name → Msg → S → Type 0
  Answered z name m s =
      let r = (funcs.ask s z (ds_query name)).1 in
      (response_msg r ≡ some m) × (response_err r ≡ none)

  added_link :
      (st : State S) (z : StoredZone) (name : Name) (queue : List (StoredZone × Msg))
      → st.sent ≡ some queue
      → let out = add_delegation_signer_link dns funcs st z name in
        (out.sent ≡ some (queue ++ link_of z (funcs.ask st.outside z (ds_query name)).1))
        × (out.zones ≡ st.zones)
        × (out.counter ≡ st.counter)
  unfolding add_delegation_signer_link
  added_link st z name queue h =
      let r = (funcs.ask st.outside z (ds_query name)).1 in
      let kept : link_of z r ≡ [] → st.sent ≡ some (queue ++ link_of z r) =
        λ e. h ∙ ap some (sym (append-nil queue) ∙ ap (λ l. queue ++ l) (sym e)) in
      elim (Option-cases (response_msg r)) [
        | inl e ↦ rw (h, e, add_delegation_signer_link) (kept (link_nil z r e), refl, refl)
        | inr (m, e) ↦ elim (Option-cases (response_err r)) [
          | inr (x, f) ↦
              rw (h, e, f, add_delegation_signer_link) (kept (link_bad z r m x e f), refl, refl)
          | inl f ↦
              rw (h, e, f, add_delegation_signer_link)
                (ap (λ l. some (queue ++ l)) (sym (link_good z r m e f)), refl, refl)
        ]
      ]

  link_of-Answered :
      (z z' : StoredZone) (name : Name) (m : Msg) (s : S)
      → In (z', m) (link_of z (funcs.ask s z (ds_query name)).1)
      → (z' ≡ z) × Answered z name m s
  link_of-Answered z z' name m s i =
      let r = (funcs.ask s z (ds_query name)).1 in
      elim (Option-cases (response_msg r)) [
        | inl e ↦ absurd (subst (In (z', m)) (link_nil z r e) i)
        | inr (n, e) ↦ elim (Option-cases (response_err r)) [
          | inr (x, f) ↦ absurd (subst (In (z', m)) (link_bad z r n x e f) i)
          | inl f ↦
              elim (subst (In (z', m)) (link_good z r n e f) i)
                as (λ _. (z' ≡ z) × Answered z name m s) [
                  | inl same ↦ (
                    ap (λ (x : StoredZone × Msg). x.0) same,
                    (e ∙ ap (λ (x : StoredZone × Msg). some x.1) (sym same), f),
                  )
                  | inr none_left ↦ absurd none_left
                ]
        ]
      ]

  Answered-link_of :
      (z : StoredZone) (name : Name) (m : Msg) (s : S)
      → Answered z name m s
      → In (z, m) (link_of z (funcs.ask s z (ds_query name)).1)
  Answered-link_of z name m s (e, f) =
      subst (In (z, m)) (sym (link_good z (funcs.ask s z (ds_query name)).1 m e f)) (inl refl)

  -- An entry that was sent is the answer of a zone of the list about the zone before it.
  abbrev pub IsLink : List StoredZone → StoredZone × Msg → Type 0
  IsLink zs (z, m) = (c : StoredZone) × IsBefore c z zs × ((s : S) × Answered z c.name m s)

  -- What linking sends, behind what was sent before: links only, and for each zone with another one
  -- behind it in the list, what that one answered, if that was good.
  abbrev pub Sends : List StoredZone → List (StoredZone × Msg) → Type 0
  Sends zs sent =
      ((p : StoredZone) (m : Msg) → In (p, m) sent → IsLink zs (p, m))
      × ((c p : StoredZone)
          → IsBefore c p zs
          → (s : S) × ((m : Msg) → Answered p c.name m s → In (p, m) sent))

  -- With an authenticator, linking the known zones sends it, behind what it was sent before, exactly
  -- the good answers of each zone of the list to the request for the DS records of the zone before
  -- it: every entry is such an answer, and every zone that has one behind it is asked for there. The
  -- known zones and the count of the rounds stay as they are.
  pub link_zones-Sends :
      (max_queries : ℕ) (zs : List StoredZone) (st : State S) (queue : List (StoredZone × Msg))
      → st.sent ≡ some queue
      → let out = link_zones dns max_queries funcs st zs in
        ((sent : List (StoredZone × Msg)) × (out.sent ≡ some (queue ++ sent)) × Sends zs sent)
        × (out.zones ≡ st.zones)
        × (out.counter ≡ st.counter)
  unfolding link_zones
  link_zones-Sends max_queries [] st queue h = (
    ([], h ∙ ap some (sym (append-nil queue)), (λ p m i. absurd i, λ c p b. absurd b)),
    refl,
    refl,
  )
  link_zones-Sends max_queries (z ∷ []) st queue h = (
    ([], h ∙ ap some (sym (append-nil queue)), (λ p m i. absurd i, λ c p b. absurd b)),
    refl,
    refl,
  )
  link_zones-Sends max_queries (z ∷ parent ∷ zs) st queue h =
      let first = link_of parent (funcs.ask st.outside parent (ds_query z.name)).1 in
      let (added, same_zones, same_counter) = added_link st parent z.name queue h in
      let ((rest, e, (only, each)), more_zones, more_counter) =
        link_zones-Sends max_queries (parent ∷ zs)
          (add_delegation_signer_link dns funcs st parent z.name) (queue ++ first) added in
      (
        (
          first ++ rest,
          e ∙ ap some (append_assoc queue first rest),
          (
            λ p m i. elim (In-append_cases (p, m) first rest i) [
              | inl j ↦
                  let (same, answered) = link_of-Answered parent p z.name m st.outside j in
                  (
                    z,
                    inl (refl, same),
                    (st.outside, subst (λ x. Answered x z.name m st.outside) (sym same) answered),
                  )
              | inr j ↦ let (c, b, a) = only p m j in (c, inr b, a)
            ],
            λ c p b. elim b [
              | inl (same_c, same_p) ↦ (
                st.outside,
                λ m a.
                    In-append_left (p, m) first rest
                      (subst (λ x. In (x, m) first) (sym same_p)
                        (Answered-link_of parent z.name m st.outside (
                          subst (λ x. Answered x z.name m st.outside) same_p
                            (subst (λ (x : StoredZone). Answered p x.name m st.outside) same_c
                              a)))),
              )
              | inr later ↦
                  let (s, k) = each c p later in
                  (s, λ m a. In-append_right (p, m) first rest (k m a))
            ],
          ),
        ),
        more_zones ∙ same_zones,
        more_counter ∙ same_counter,
      )
