-- ===== src/Dnssec/Authenticator/Buffer.antt =====
-- The buffer of dnssec/authenticator.go: one response for each zone, at its label count.
use resolver_lib.Prelude.{
  ℕ, zero, suc, ◌≡◌, refl, sym, ◌∙◌, inl, inr, true, List, [], ◌∷◌, Option, none, some, >>=-eq-some,
  Option-cases, get_elem?, set, drop,
}
use resolver_lib.Dns.{Msg, Question, duplicate_input_for_zone}
use resolver_lib.Dnssec.Env.{Env, Zone}
use resolver_lib.Dnssec.Outcome.{first_question}
use resolver_lib.Dnssec.Authenticator.{
  Input, Authenticator, Step, step, process_response, drain, advance, store_input, add_response,
}
use resolver_lib.Dnssec.Authenticator.Chain.{process_response_cases}

get_elem?-set_free :
    {A : Type 0} (xs : List (Option A)) (i : ℕ) (v : A)
    → get_elem? xs i ≡ some none
    → get_elem? (set xs i (some v)) i ≡ some (some v)
get_elem?-set_free [] i v h = cc
get_elem?-set_free (x ∷ xs) zero v h = refl
get_elem?-set_free (x ∷ xs) (suc i) v h = get_elem?-set_free xs i v h

module _ (env : Env) where
  -- The question and the buffer stay as they are.
  abbrev SameBuffer : Authenticator → Authenticator → Type 0
  SameBuffer a b = (b.question ≡ a.question) × (b.input_buffer ≡ a.input_buffer)

  process_response-SameBuffer :
      (a : Authenticator) (zone : Zone) (msg : Msg) (s : Step)
      → process_response env a zone msg ≡ some s
      → SameBuffer a s.auth
  process_response-SameBuffer a zone msg s h = elim (process_response_cases env a zone msg s h) [
    | inl same ↦ rw same.0 (refl, refl)
    | inr (o, q, v, e) ↦ rw e (refl, refl)
  ]

  drain-SameBuffer :
      (rest : List (Option Input)) (a : Authenticator) (s : Step)
      → drain env a rest ≡ some s
      → SameBuffer a s.auth
  unfolding drain
  drain-SameBuffer [] a s h = let k : step a none ≡ s = cc in rw (← k) (refl, refl)
  drain-SameBuffer (none ∷ rest) a s h = let k : step a none ≡ s = cc in rw (← k) (refl, refl)
  drain-SameBuffer (some i ∷ rest) a s h =
      let (t, e, f) = >>=-eq-some (process_response env a i.zone i.msg) _ h in
      let p = process_response-SameBuffer a i.zone i.msg t e in
      elim (Option-cases t.err) [
        | inr (x, q) ↦ let k : t ≡ s = cc (rw q at f) in rw (← k) p
        | inl q ↦
            let r = drain-SameBuffer rest (advance env t.auth) s (rw q at f) in
            (r.0 ∙ p.0, r.1 ∙ p.1)
      ]

  -- The responses that `AddResponse` lets through to the buffer.
  abbrev pub Fits : Question → Zone → Msg → Type 0
  Fits question zone msg =
      (env.dns.is_sub_domain zone.name question.qname ≡ true)
      × ((q : Question) × (first_question msg ≡ some q)
          × (env.dns.is_sub_domain q.qname question.qname ≡ true))

  add_response-Fits :
      (a : Authenticator) (zone : Zone) (msg : Msg)
      → Fits a.question zone msg
      → add_response env a zone msg ≡ store_input env a zone msg
  unfolding add_response
  add_response-Fits a zone msg (z, (q, e, f)) = rw (z, e, f) refl

  abbrev IsTaken : Authenticator → Zone → Type 0
  IsTaken a zone =
      (i : Input) × (get_elem? a.input_buffer (env.dns.count_label zone.name) ≡ some (some i))

  store_input-taken :
      (a : Authenticator) (zone : Zone) (msg : Msg)
      → IsTaken a zone
      → store_input env a zone msg ≡ some (step a (some duplicate_input_for_zone))
  unfolding store_input
  store_input-taken a zone msg (i, e) = rw (e, store_input) refl

  store_input-IsTaken :
      (a : Authenticator) (zone : Zone) (msg : Msg) (s : Step)
      → store_input env a zone msg ≡ some s
      → IsTaken s.auth zone × (s.auth.question ≡ a.question)
  unfolding store_input
  store_input-IsTaken a zone msg s h =
      go (get_elem? a.input_buffer (env.dns.count_label zone.name)) refl
    where
      input : Input
      input = record { zone = zone; msg = msg }

      stored : Authenticator
      stored = record a {
        input_buffer = set a.input_buffer (env.dns.count_label zone.name) (some input);
      }

      go :
          (x : Option (Option Input))
          → get_elem? a.input_buffer (env.dns.count_label zone.name) ≡ x
          → IsTaken s.auth zone × (s.auth.question ≡ a.question)
      go none e = cc (rw (e, store_input) at h)
      go (some (some i)) e =
          let k : step a (some duplicate_input_for_zone) ≡ s = cc (rw (e, store_input) at h) in
          rw (← k) ((i, e), refl)
      go (some none) e =
          let r =
            drain-SameBuffer (drop stored.input_buffer_idx stored.input_buffer) stored s
              (rw (e, store_input) at h) in
          (
            (
              input,
              rw r.1 (get_elem?-set_free a.input_buffer (env.dns.count_label zone.name) input e),
            ),
            r.0,
          )

  -- At most one response is taken for each zone: after a response for a zone that fits the question
  -- has been added, another one for that zone is refused as a duplicate and changes nothing.
  pub add_response_twice :
      (a : Authenticator) (zone : Zone) (msg msg' : Msg) (s : Step)
      → Fits a.question zone msg
      → Fits a.question zone msg'
      → add_response env a zone msg ≡ some s
      → add_response env s.auth zone msg' ≡ some (step s.auth (some duplicate_input_for_zone))
  add_response_twice a zone msg msg' s f f' h =
      let r = store_input-IsTaken a zone msg s (sym (add_response-Fits a zone msg f) ∙ h) in
      add_response-Fits s.auth zone msg' (rw r.1 f') ∙ store_input-taken s.auth zone msg' r.0
