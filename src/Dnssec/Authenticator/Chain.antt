-- ===== src/Dnssec/Authenticator/Chain.antt =====
-- The results of an authenticator form a chain of trust.
use resolver_lib.Prelude.{
  ◌≡◌, refl, sym, ap, ◌∙◌, ◌≢◌, ◌⊎◌, inl, inr, true, false, List, [], ◌∷◌, ◌++◌, Option, none, some,
  >>=-eq-some, Bool-cases, Option-cases, arith, get_last?, get_elem?,
}
use resolver_lib.Dns.{Ds, Msg, not_subdomain, duplicate_input_for_zone}
use resolver_lib.Dnssec.Env.{Env, Zone}
use resolver_lib.Dnssec.Records.{names_equal, extract_records, as_rrsig}
use resolver_lib.Dnssec.Outcome.{Result, Outcome, first_question}
use resolver_lib.Dnssec.Verify.{verify}
use resolver_lib.Dnssec.Verify.Frame.{verify-frame}
use resolver_lib.Dnssec.Authenticator.{
  Input, Authenticator, Step, step, settle, ds_records_of, order_error, signer_error,
  process_response, drain, drain_all, advance, store_input, add_response,
}

module _ (env : Env) where
  -- A result is what verifying its message against some DS records gave.
  abbrev pub IsVerified : List Ds → Result → Type 0
  IsVerified ds_records r =
      (o : Outcome) × (verify env r.zone r.msg ds_records ≡ some o) × (r ≡ settle o)

  -- A zone lies strictly below the zone before it.
  abbrev pub IsBelow : Option Result → Zone → Type 0
  IsBelow none zone = Unit
  IsBelow (some last) zone =
      (env.dns.is_sub_domain last.zone.name zone.name ≡ true)
      × (names_equal env.dns last.zone.name zone.name ≡ false)

  -- Each result is verified against the DS records of the one before, the first against the trust
  -- anchors, and is for a zone strictly below that of the one before.
  abbrev pub IsChain : Option Result → List Result → Type 0
  IsChain last [] = Unit
  IsChain last (r ∷ rs) =
      IsVerified (ds_records_of env last) r × IsBelow last r.zone × IsChain (some r) rs

  abbrev last_or : Option Result → List Result → Option Result
  last_or last [] = last
  last_or last (r ∷ rs) = last_or (some r) rs

  last_or-get_last? : (rs : List Result) → last_or none rs ≡ get_last? rs
  last_or-get_last? [] = refl
  last_or-get_last? (r ∷ []) = refl
  last_or-get_last? (r ∷ s ∷ rs) = go r s rs
    where
      go : (r s : Result) (rs : List Result) → last_or (some r) (s ∷ rs) ≡ get_last? (s ∷ rs)
      go r s [] = refl
      go r s (t ∷ rs) = go s t rs

  IsChain-snoc :
      (last : Option Result) (rs : List Result) (r : Result)
      → IsChain last rs
      → IsVerified (ds_records_of env (last_or last rs)) r
      → IsBelow (last_or last rs) r.zone
      → IsChain last (rs ++ r ∷ [])
  IsChain-snoc last [] r c v b = (v, b, tt)
  IsChain-snoc last (x ∷ rs) r c v b = (c.0, c.1, IsChain-snoc (some x) rs r c.2 v b)

  order-IsBelow :
      (last : Option Result) (zone : Zone) → order_error env last zone ≡ none → IsBelow last zone
  order-IsBelow none zone h = tt
  order-IsBelow (some last) zone h = (ground arith, ground arith)

  settle-frame : (o : Outcome) → ((settle o).zone ≡ o.result.zone) × ((settle o).msg ≡ o.result.msg)
  settle-frame o = (ground arith, ground arith)

  -- Processing a response leaves the results as they are, with an error, or adds one result.
  pub process_response_cases :
      (a : Authenticator) (zone : Zone) (msg : Msg) (s : Step)
      → process_response env a zone msg ≡ some s
      → ((s.auth ≡ a) × (s.err ≢ none))
        ⊎ ((o : Outcome) × (order_error env (get_last? a.results) zone ≡ none)
            × (verify env zone msg (ds_records_of env (get_last? a.results)) ≡ some o)
            × (s ≡ step (record a { results = a.results ++ settle o ∷ [] }) none))
  unfolding process_response
  process_response_cases a zone msg s h =
      elim (Option-cases (order_error env (get_last? a.results) zone)) [
        | inr (e, q) ↦
            let k : step a (some e) ≡ s = cc (rw (q, process_response) at h) in
            inl (ap (λ (x : Step). x.auth) (sym k), λ n. cc (ap (λ (x : Step). x.err) k, n))
        | inl q ↦
            elim (Option-cases (
              signer_error env a.question.qname
                (extract_records as_rrsig (msg.answer ++ msg.ns_section))
                (ds_records_of env (get_last? a.results)))) [
                  | inr (e, p) ↦
                      let k : step a (some e) ≡ s = cc (rw (q, p, process_response) at h) in
                      inl
                        (ap (λ (x : Step). x.auth) (sym k), λ n. cc (ap (λ (x : Step). x.err) k, n))
                  | inl p ↦
                      let (o, v, f) =
                        >>=-eq-some (verify env zone msg (ds_records_of env (get_last? a.results)))
                          _ (rw (q, p, process_response) at h) in
                      inr (o, q, v, cc)
                ]
      ]

  -- The results of a state form a chain.
  abbrev pub HasChain : Authenticator → Type 0
  HasChain a = IsChain none a.results

  process_response-HasChain :
      (a : Authenticator) (zone : Zone) (msg : Msg) (s : Step)
      → HasChain a
      → process_response env a zone msg ≡ some s
      → HasChain s.auth
  process_response-HasChain a zone msg s c h = elim (process_response_cases a zone msg s h) [
    | inl same ↦ rw same.0 c
    | inr (o, q, v, e) ↦
        let f = verify-frame env zone msg _ o v in
        let z : (settle o).zone ≡ zone = (settle-frame o).0 ∙ f.0 in
        let m : (settle o).msg ≡ msg = (settle-frame o).1 ∙ f.1 in
        let l = last_or-get_last? a.results in
        let verified : IsVerified (ds_records_of env (last_or none a.results)) (settle o) =
          (o, rw (z, m, l) v, refl) in
        let below : IsBelow (last_or none a.results) (settle o).zone =
          rw (z, l) (order-IsBelow (get_last? a.results) zone q) in
        rw e (IsChain-snoc none a.results (settle o) c verified below)
  ]

  drain-HasChain :
      (rest : List (Option Input)) (a : Authenticator) (s : Step)
      → HasChain a
      → drain env a rest ≡ some s
      → HasChain s.auth
  unfolding drain
  drain-HasChain [] a s c h = let k : step a none ≡ s = cc in rw (← k) c
  drain-HasChain (none ∷ rest) a s c h = let k : step a none ≡ s = cc in rw (← k) c
  drain-HasChain (some i ∷ rest) a s c h =
      let (t, e, f) = >>=-eq-some (process_response env a i.zone i.msg) _ h in
      let c' = process_response-HasChain a i.zone i.msg t c e in
      elim (Option-cases t.err) [
        | inr (x, q) ↦ let k : t ≡ s = cc (rw q at f) in rw (← k) c'
        | inl q ↦ drain-HasChain rest (advance env t.auth) s c' (rw q at f)
      ]

  pub drain_all-HasChain :
      (rest : List (Option Input)) (a : Authenticator) (s : Step)
      → HasChain a
      → drain_all env a rest ≡ some s
      → HasChain s.auth
  unfolding drain_all
  drain_all-HasChain [] a s c h = let k : step a none ≡ s = cc in rw (← k) c
  drain_all-HasChain (none ∷ rest) a s c h = drain_all-HasChain rest (advance env a) s c h
  drain_all-HasChain (some i ∷ rest) a s c h =
      let (t, e, f) = >>=-eq-some (process_response env a i.zone i.msg) _ h in
      let c' = process_response-HasChain a i.zone i.msg t c e in
      elim (Option-cases t.err) [
        | inr (x, q) ↦ let k : t ≡ s = cc (rw q at f) in rw (← k) c'
        | inl q ↦ drain_all-HasChain rest (advance env t.auth) s c' (rw q at f)
      ]

  store_input-HasChain :
      (a : Authenticator) (zone : Zone) (msg : Msg) (s : Step)
      → HasChain a
      → store_input env a zone msg ≡ some s
      → HasChain s.auth
  unfolding store_input
  store_input-HasChain a zone msg s c h =
      go (get_elem? a.input_buffer (env.dns.count_label zone.name)) refl
    where
      go :
          (x : Option (Option Input))
          → get_elem? a.input_buffer (env.dns.count_label zone.name) ≡ x
          → HasChain s.auth
      go none e = cc (rw (e, store_input) at h)
      go (some (some i)) e =
          let k : step a (some duplicate_input_for_zone) ≡ s = cc (rw (e, store_input) at h) in
          rw (← k) c
      go (some none) e = drain-HasChain _ _ s c (rw (e, store_input) at h)

  -- Adding a response keeps the chain, whether it is accepted or refused.
  pub add_response-HasChain :
      (a : Authenticator) (zone : Zone) (msg : Msg) (s : Step)
      → HasChain a
      → add_response env a zone msg ≡ some s
      → HasChain s.auth
  unfolding add_response
  add_response-HasChain a zone msg s c h =
      elim (Bool-cases (env.dns.is_sub_domain zone.name a.question.qname)) [
        | inr out ↦
            let k : step a (some not_subdomain) ≡ s = cc (rw (out, add_response) at h) in rw (← k) c
        | inl within ↦
            let (q, e, f) = >>=-eq-some (first_question msg) _ (rw (within, add_response) at h) in
            elim (Bool-cases (env.dns.is_sub_domain q.qname a.question.qname)) [
              | inr out ↦ let k : step a (some not_subdomain) ≡ s = cc (rw out at f) in rw (← k) c
              | inl fits ↦ store_input-HasChain a zone msg s c (rw fits at f)
            ]
      ]
