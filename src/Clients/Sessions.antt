-- ===== src/Clients/Sessions.antt =====
-- What a call of a DoQ client, clients/doq.go, returns, and what it leaves behind.
use resolver_lib.Prelude.{ℕ, ◌≡◌, refl, ap, ◌⊎◌, inl, inr, List, Option, none, some}
use resolver_lib.Dns.{Msg, GoError}
use resolver_lib.Clients.{
  unframe, Read, timed_out, failed, bytes, Quic, Reply, refuse, decode, received, if_fine, converse,
  in_session, doq_exchange, frame,
}

module _ {S : Type 0} (quic : Quic S) where
  -- The message is what was unpacked from the frame that was read from the stream.
  abbrev pub IsGenuine : Msg → Type 0
  IsGenuine m =
      (s : S) × (buf : List ℕ) × (b : List ℕ) × ((quic.read_all s).1 ≡ bytes buf)
      × (unframe buf ≡ inr b)
      × (quic.unpack b ≡ inr m)

  -- Either an error alone, or a message alone, which is genuine.
  abbrev pub IsReply : Reply → Type 0
  IsReply r = ((e : GoError) × (r ≡ refuse e)) ⊎ ((m : Msg) × (r ≡ (some m, none)) × IsGenuine m)

  decode-IsReply :
      (s : S) (buf : List ℕ) → (quic.read_all s).1 ≡ bytes buf → IsReply (decode quic buf)
  unfolding decode
  decode-IsReply s buf h = parts (unframe buf) refl
    where
      unpacked :
          (b : List ℕ)
          → unframe buf ≡ inr b
          → (u : GoError ⊎ Msg) → quic.unpack b ≡ u
          → IsReply (elim u [ inl e ↦ refuse e | inr m ↦ (some m, none) ])
      unpacked b f (inl e) g = inl (e, refl)
      unpacked b f (inr m) g = inr (m, refl, (s, buf, b, h, f, g))

      parts :
          (u : GoError ⊎ List ℕ)
          → unframe buf ≡ u
          → IsReply (elim u [
            | inl e ↦ refuse e
            | inr b ↦ elim (quic.unpack b) [ inl e ↦ refuse e | inr m ↦ (some m, none) ]
          ])
      parts (inl e) f = inl (e, refl)
      parts (inr b) f = unpacked b f (quic.unpack b) refl

  received-IsReply : (s : S) → IsReply (received quic (quic.read_all s)).1
  received-IsReply s = parts (quic.read_all s).0 (quic.read_all s).1 refl
    where
      parts : (s' : S) (r : Read) → (quic.read_all s).1 ≡ r → IsReply (received quic (s', r)).1
      parts s' timed_out h = inl (_, refl)
      parts s' (failed e) h = inl (e, refl)
      parts s' (bytes buf) h = decode-IsReply s buf h

  if_fine-IsReply :
      (t : S × Option GoError) (on : S → S × Reply)
      → ((s : S) → IsReply (on s).1)
      → IsReply (if_fine quic t on).1
  if_fine-IsReply (s, some e) on h = inl (e, refl)
  if_fine-IsReply (s, none) on h = h s

  converse-IsReply : (b : List ℕ) (s : S) → IsReply (converse quic b s).1
  unfolding converse
  converse-IsReply b s = if_fine-IsReply (quic.open_stream s) _ λ s1.
      if_fine-IsReply (quic.write s1 (frame b)) _
        λ s2. if_fine-IsReply (quic.close_stream s2) _ λ s3. received-IsReply s3

  in_session-IsReply : (m : Msg) (s : S) → IsReply (in_session quic m s).1
  unfolding in_session
  in_session-IsReply m s = parts (quic.pack 0 m)
    where
      parts :
          (u : GoError ⊎ List ℕ)
          → IsReply
              (elim u as (λ _. S × Reply) [ inl e ↦ (s, refuse e) | inr b ↦ converse quic b s ]).1
      parts (inl e) = inl (e, refl)
      parts (inr b) = converse-IsReply b s

  -- A call returns either an error or a message, never both and never neither, and a message only if
  -- it was read from the stream as a whole frame. If dialling fails, its error is returned and
  -- nothing else is done. Otherwise the session is closed at the end, whatever went wrong, and the
  -- caller's message is left with the identifier 0, also where an error is returned.
  pub doq_exchange-IsReply :
      (port id : ℕ) (m : Msg) (addr : List ℕ) (s : S)
      → let dialled = quic.dial s (quic.join_host_port addr port) in
        let (s', id', r) = doq_exchange quic port id m addr s in
        IsReply r
        × ((e : GoError) → dialled.1 ≡ some e → (s' ≡ dialled.0) × (id' ≡ id) × (r ≡ refuse e))
        × (dialled.1 ≡ none → ((s2 : S) × (s' ≡ quic.close_session s2)) × (id' ≡ 0))
  unfolding doq_exchange
  doq_exchange-IsReply port id m addr s =
      parts (quic.dial s (quic.join_host_port addr port)).0
        (quic.dial s (quic.join_host_port addr port)).1
    where
      parts :
          (s1 : S) (dialled : Option GoError)
          → let (s2, r) = in_session quic m s1 in
            let (s', id', r') = elim dialled as (λ _. S × ℕ × Reply) [
              | some e ↦ (s1, id, refuse e)
              | none ↦ (quic.close_session s2, 0, r)
            ] in
            IsReply r'
            × ((e : GoError) → dialled ≡ some e → (s' ≡ s1) × (id' ≡ id) × (r' ≡ refuse e))
            × (dialled ≡ none → ((s3 : S) × (s' ≡ quic.close_session s3)) × (id' ≡ 0))
      parts s1 (some e) =
          (inl (e, refl), λ e' h. let same : e ≡ e' = cc in (refl, refl, ap refuse same), λ h. cc)
      parts s1 none =
          (in_session-IsReply m s1, λ e h. cc, λ h. (((in_session quic m s1).0, refl), refl))
