-- ===== src/Resolver/Nameserver/Protocols.antt =====
-- Which of the answers to its attempts `exchange` of nameserver.go returns.
use resolver_lib.Prelude.{
  ℕ, ◌≡◌, refl, Bool, true, false, not, List, [], ◌∷◌, Option, none, some, if◌then◌else◌,
  Bool-cases, inl, inr, Name,
}
use resolver_lib.Dns.{Question, Msg, GoError}
use resolver_lib.Resolver.Response.{Response}
use resolver_lib.Resolver.Nameserver.{
  Nameserver, Answer, empty_reply, reply_of, try_protocols, exchange,
}

-- An answer with neither a message nor an error, which a client never gives.
abbrev pub is_void : Answer → Bool
is_void (none, none) = true
is_void (some m, e) = false
is_void (none, some e) = false

-- A message that came without an error and was not truncated.
abbrev pub is_complete : Answer → Bool
is_complete (some m, none) = not m.truncated
is_complete (some m, some e) = false
is_complete (none, e) = false

module _ {S : Type 0} (client : S → Name → Msg → List ℕ → S × Answer) where
  -- The answers to all attempts, each with the state after it, if none were the last.
  unfoldable pub attempts : S → Msg → List ℕ → List Name → List (S × Answer)
  attempts s m addr [] = []
  attempts s m addr (protocol ∷ protocols) =
      client s protocol m addr ∷ attempts (client s protocol m addr).0 m addr protocols

  -- The first complete one, and else the last, after `d` where there are none.
  abbrev pub best : S × Response → List (S × Answer) → S × Response
  best d [] = d
  best d ((s, answer) ∷ rest) =
      let on = best (s, reply_of answer) rest in
      if is_complete answer then (s, reply_of answer) else on

  -- A client that never returns neither a message nor an error.
  abbrev pub Answers : Type 0
  Answers =
      (s : S) (protocol : Name) (m : Msg) (addr : List ℕ)
      → is_void (client s protocol m addr).1 ≡ false

  -- One round of the loop, by what the attempt gives.
  round-best :
      (m : Option Msg) (e : Option GoError) (s : S) (on : Option (S × Response))
      (later : S × Response)
      → is_void (m, e) ≡ false
      → on ≡ some later
      → elim e as (λ _. Option (S × Response)) [
        | some x ↦ on
        | none ↦ elim m as (λ _. Option (S × Response)) [
          | none ↦ none
          | some n ↦ if n.truncated then on else some (s, reply_of (m, e))
        ]
      ]
        ≡ some (if is_complete (m, e) then (s, reply_of (m, e)) else later)
  round-best none none s on later h k = cc
  round-best none (some e) s on later h k = k
  round-best (some n) (some e) s on later h k = k
  round-best (some n) none s on later h k = elim (Bool-cases n.truncated) [
    | inl t ↦ simp (t, k) refl
    | inr f ↦ simp f refl
  ]

  -- The test for a question passes for a message that has one.
  asked_with :
      {A : Type 0} {x y : Option A} (question : List Question) (q : Question) (qs : List Question)
      → question ≡ q ∷ qs
      → x ≡ y
      → elim question as (λ _. Option A) [ [] ↦ none | _ ∷ _ ↦ x ] ≡ y
  asked_with [] q qs h e = cc
  asked_with (_ ∷ _) q qs h e = e

  try_protocols-best :
      (s : S) (r : Response) (m : Msg) (addr : List ℕ) (protocols : List Name) (q : Question)
      (qs : List Question)
      → Answers
      → m.question ≡ q ∷ qs
      → try_protocols client s r m addr protocols ≡ some (best (s, r) (attempts s m addr protocols))
  unfolding try_protocols attempts
  try_protocols-best s r m addr [] q qs h k = refl
  try_protocols-best s r m addr (protocol ∷ protocols) q qs h k =
      let (s', answer) = client s protocol m addr in
      asked_with m.question q qs k (
        round-best answer.0 answer.1 s' (try_protocols client s' (reply_of answer) m addr protocols)
          (best (s', reply_of answer) (attempts s' m addr protocols)) (h s protocol m addr)
          (try_protocols-best s' (reply_of answer) m addr protocols q qs h k))

  -- With clients that return a message or an error, `exchange` of a message with a question returns
  -- the first answer, in the order of the protocols, that is a message without an error that is not
  -- truncated; where there is none, the last answer, whatever it is; and an empty response where
  -- there are no protocols.
  pub exchange-best :
      (protocols : List Name) (s : S) (n : Nameserver) (m : Msg) (q : Question) (qs : List Question)
      → Answers
      → m.question ≡ q ∷ qs
      → exchange client protocols s n (some m)
        ≡ some (best (s, empty_reply) (attempts s m n.addr protocols))
  unfolding exchange
  exchange-best protocols s n m q qs h k =
      try_protocols-best s empty_reply m n.addr protocols q qs h k
