-- ===== src/Clients.antt =====
-- The package clients: DNS over QUIC, clients/doq.go, and over the DNS package, clients/classic.go.
-- A byte is a number below 256, and round-trip times are left out. What the QUIC library and the packing of messages do is a parameter.
pub mod Framing
pub mod Sessions
use resolver_lib.Prelude.{
  ℕ, ◌+◌, ◌*◌, ◌/◌, ◌%◌, ◌^◌, ◌==◌, not, List, [], ◌∷◌, ◌++◌, Option, none, some, ◌⊎◌, inl, inr,
  if◌then◌else◌, length,
}
use resolver_lib.Dns.{Msg, GoError, external}

-- The errors that are texts: closing a stream, a time-out, a short reply, a wrong length.
abbrev pub timeout : GoError
timeout = external 10

abbrev pub too_short : GoError
too_short = external 11

abbrev pub length_mismatch : GoError
length_mismatch = external 12

-- `binary.BigEndian.PutUint16` of a length, cut to 16 bits, before the bytes.
unfoldable pub frame : List ℕ → List ℕ
frame b = length b % 2 ^ 16 / 256 ∷ length b % 2 ^ 16 % 256 ∷ b

unfoldable pub unframe : List ℕ → GoError ⊎ List ℕ
unframe [] = inl too_short
unframe (x ∷ []) = inl too_short
unframe (x ∷ y ∷ b) = if not (x * 256 + y == length b % 2 ^ 16) then inl length_mismatch else inr b

-- What reading a stream to its end comes to.
pub data Read : Type 0 where
  timed_out : Read
  failed : GoError → Read
  bytes : List ℕ → Read

-- A QUIC session and its stream, over a state `S` of the network, and the packing of messages, with
-- their identifier. An error is `some`.
pub record Quic (S : Type 0) : Type 0 where
  pub dial : S → List ℕ → S × Option GoError
  pub open_stream : S → S × Option GoError
  pub write : S → List ℕ → S × Option GoError
  pub close_stream : S → S × Option GoError
  pub read_all : S → S × Read
  pub close_session : S → S
  pub join_host_port : List ℕ → ℕ → List ℕ
  pub pack : ℕ → Msg → GoError ⊎ List ℕ
  pub unpack : List ℕ → GoError ⊎ Msg

-- A message, or nil, and an error, or nil.
abbrev pub Reply : Type 0
Reply = Option Msg × Option GoError

abbrev pub refuse : GoError → Reply
refuse e = (none, some e)

module _ {S : Type 0} (quic : Quic S) where
  -- From the bytes of the reply on.
  unfoldable pub decode : List ℕ → Reply
  unfolding unframe
  decode buf = elim (unframe buf) [
    | inl e ↦ refuse e
    | inr b ↦ elim (quic.unpack b) [ inl e ↦ refuse e | inr m ↦ (some m, none) ]
  ]

  abbrev received : S × Read → S × Reply
  received (s, timed_out) = (s, refuse timeout)
  received (s, failed e) = (s, refuse e)
  received (s, bytes buf) = (s, decode buf)

  -- A step with an error ends the exchange.
  abbrev pub if_fine : S × Option GoError → (S → S × Reply) → S × Reply
  if_fine (s, some e) on = (s, refuse e)
  if_fine (s, none) on = on s

  -- From the packed message on.
  unfoldable pub converse : List ℕ → S → S × Reply
  unfolding frame decode
  converse b s = if_fine (quic.open_stream s) λ s1.
      if_fine (quic.write s1 (frame b))
        λ s2. if_fine (quic.close_stream s2) λ s3. received (quic.read_all s3)

  -- In a session: the identifier of the message is 0 by then.
  unfoldable pub in_session : Msg → S → S × Reply
  unfolding converse
  in_session m s = elim (quic.pack 0 m) [ inl e ↦ (s, refuse e) | inr b ↦ converse b s ]

  -- `ExchangeContext` of a DoQ client with a port, for a message with an identifier. The identifier
  -- that is returned is what the caller's message has after the call. The session is closed on every
  -- way out.
  unfoldable pub doq_exchange : ℕ → ℕ → Msg → List ℕ → S → S × ℕ × Reply
  unfolding in_session
  doq_exchange port id m addr s =
      let (s1, dialled) = quic.dial s (quic.join_host_port addr port) in
      let (s2, r) = in_session m s1 in
      elim dialled [ some e ↦ (s1, id, refuse e) | none ↦ (quic.close_session s2, 0, r) ]

-- `ExchangeContext` of a classic client: the DNS package's, at the port.
unfoldable pub classic_exchange :
    {S : Type 0}
    → (List ℕ → ℕ → List ℕ)
    → (S → Msg → List ℕ → S × Reply)
    → ℕ
    → Msg
    → List ℕ
    → S
    → S × Reply
classic_exchange join_host_port client port m ip s = client s m (join_host_port ip port)
