-- ===== src/Dnssec/Authenticator/Answers.antt =====
-- What the last result of a chain must be for a secure verdict, for the end of `Result` of
-- dnssec/result.go.
use resolver_lib.Prelude.{
  ℕ, ◌≡◌, refl, inl, inr, ◌⊎◌, Bool, true, false, List, [], ◌∷◌, Bool-cases, arith, In, In-select,
  name_eq,
}
use resolver_lib.Dns.{Rr, header, Question, Msg, type_soa, type_cname}
use resolver_lib.Dnssec.Status.{
  DenialOfExistenceState, secure, is_secure, not_found, nsec_missing_ds, nsec_no_data,
  nsec_nx_domain, nsec_wildcard, nsec3_missing_ds, nsec3_no_data, nsec3_nx_domain, nsec3_opt_out,
  nsec3_wildcard,
}
use resolver_lib.Dnssec.Records.{records_of_type_exist, extract_records_of_name_and_type}
use resolver_lib.Dnssec.Outcome.{Result}
use resolver_lib.Dnssec.Authenticator.Judge.{is_nil, answers_question, last_state}

-- A record of the type, with the name that was asked for, letter case included.
abbrev pub HasRecord : Question → ℕ → List Rr → Type 0
HasRecord q t rr =
    (r : Rr) × In r rr × ((header r).rrtype ≡ t) × (name_eq (header r).name q.qname ≡ true)

-- A message with no SOA in its authority section, that has a record for the question or a CNAME.
abbrev pub Answers : Question → Msg → Type 0
Answers q msg =
    (records_of_type_exist msg.ns_section type_soa ≡ false)
    × (HasRecord q q.qtype msg.answer ⊎ HasRecord q type_cname msg.answer)

-- The states that deny the name or the data.
abbrev pub denies : DenialOfExistenceState → Bool
denies nsec_nx_domain = true
denies nsec3_nx_domain = true
denies nsec_no_data = true
denies nsec3_no_data = true
denies _ = false

-- The states that go with a positive answer: nothing is denied, or only that the name has a record
-- of its own beside the wildcard.
abbrev pub allows_answer : DenialOfExistenceState → Bool
allows_answer not_found = true
allows_answer nsec_wildcard = true
allows_answer nsec3_wildcard = true
allows_answer _ = false

-- The result denies the name or the data, or answers the question.
abbrev pub Concludes : Question → Result → Type 0
Concludes q last =
    (denies last.denial_of_existence ≡ true)
    ⊎ ((allows_answer last.denial_of_existence ≡ true) × Answers q last.msg)

is_nil-false : (rr : List Rr) → is_nil rr ≡ false → (r : Rr) × In r rr
is_nil-false [] h = cc
is_nil-false (r ∷ rr) h = (r, inl refl)

selected-HasRecord :
    (q : Question) (t : ℕ) (rr : List Rr)
    → is_nil (extract_records_of_name_and_type rr q.qname t) ≡ false
    → HasRecord q t rr
unfolding extract_records_of_name_and_type
selected-HasRecord q t rr h =
    let (r, m) = is_nil-false _ h in
    let (n, p) = In-select _ r rr m in (r, n, ground arith, ground arith)

answers_question-Answers :
    (q : Question) (msg : Msg) → answers_question q msg ≡ true → Answers q msg
unfolding answers_question
answers_question-Answers q msg h =
    elim (Bool-cases (records_of_type_exist msg.ns_section type_soa)) [
      | inl t ↦ ground arith
      | inr f ↦
          elim (Bool-cases (is_nil (extract_records_of_name_and_type msg.answer q.qname q.qtype))) [
            | inr g ↦ (f, inl (selected-HasRecord q q.qtype msg.answer g))
            | inl g ↦ (f, inr (selected-HasRecord q type_cname msg.answer (ground arith)))
          ]
    ]

pub last_state-Concludes :
    (q : Question) (last : Result) → last_state q last ≡ secure → Concludes q last
unfolding last_state
last_state-Concludes q last h = elim (Bool-cases (is_secure last.state)) [
  | inr f ↦ ground arith
  | inl t ↦ go last.denial_of_existence refl
]
  where
    go :
        (d : DenialOfExistenceState)
        → last.denial_of_existence ≡ d
        → (denies d ≡ true) ⊎ ((allows_answer d ≡ true) × Answers q last.msg)
    go not_found e = inr (refl, answers_question-Answers q last.msg (ground arith))
    go nsec_wildcard e = inr (refl, answers_question-Answers q last.msg (ground arith))
    go nsec3_wildcard e = inr (refl, answers_question-Answers q last.msg (ground arith))
    go nsec_nx_domain e = inl refl
    go nsec3_nx_domain e = inl refl
    go nsec_no_data e = inl refl
    go nsec3_no_data e = inl refl
    go nsec_missing_ds e = ground arith
    go nsec3_missing_ds e = ground arith
    go nsec3_opt_out e = ground arith
