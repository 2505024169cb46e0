-- ===== src/Tests/Transported.antt =====
-- The clients on a network that returns every frame that is written to it.
use resolver_lib.Prelude.{
  ℕ, ◌+◌, ◌≡◌, refl, ◌↔◌, inl, inr, true, List, [], ◌∷◌, Option, none, some, arith, Name,
}
use resolver_lib.Dns.{Msg, GoError, external}
use resolver_lib.Resolver.Config.{Config, doq, tcp, default_config}
use resolver_lib.Resolver.Response.{Response}
use resolver_lib.Resolver.Pool.{NameserverPool}
use resolver_lib.Resolver.Pool.Exchange.Total.{IsServing, HasOutcome}
use resolver_lib.Resolver.Transport.{ask_servers, ask_servers-HasOutcome}
use resolver_lib.Clients.{Quic, Reply, frame, unframe, bytes, refuse, length_mismatch, doq_exchange}
use resolver_lib.Clients.Framing.{unframe-frame_iff}
use resolver_lib.Clients.Sessions.{IsReply, doq_exchange-IsReply}
use resolver_lib.Tests.World.{question, reply}
use resolver_lib.Tests.Servers.{pool}

unframe-frame_iff_example :
    (unframe (0 ∷ 2 ∷ 7 ∷ 8 ∷ []) ≡ inr (7 ∷ 8 ∷ [])) ↔ (0 ∷ 2 ∷ 7 ∷ 8 ∷ [] ≡ frame (7 ∷ 8 ∷ []))
unframe-frame_iff_example =
    unframe-frame_iff (0 ∷ 2 ∷ 7 ∷ 8 ∷ []) (7 ∷ 8 ∷ [])
      (omega arith, (omega arith, (omega arith, (omega arith, tt))))

cut_short : unframe (0 ∷ 3 ∷ 7 ∷ 8 ∷ []) ≡ inl length_mismatch
unfolding unframe
cut_short = refl

-- The bytes on the stream, and the number of sessions that were closed.
abbrev Network : Type 0
Network = List ℕ × ℕ

abbrev echo : Quic Network
echo = record {
  dial = λ s addr. (s, none);
  open_stream = λ s. (s, none);
  write = λ s b. ((b, s.1), none);
  close_stream = λ s. (s, none);
  read_all = λ s. (s, bytes s.0);
  close_session = λ s. (s.0, s.1 + 1);
  join_host_port = λ host port. host;
  pack = λ id m. inr (id ∷ 9 ∷ []);
  unpack = λ b. inr reply;
}

echoed :
    doq_exchange echo 853 77 reply (1 ∷ []) ([], 0)
    ≡ ((0 ∷ 2 ∷ 0 ∷ 9 ∷ [], 1), 0, (some reply, none))
unfolding doq_exchange
echoed = refl

doq_exchange-IsReply_example :
    let (s', id', r) = doq_exchange echo 853 77 reply (1 ∷ []) ([], 0) in
    IsReply echo r
    × ((e : GoError) → none ≡ some e → (s' ≡ ([], 0)) × (id' ≡ 77) × (r ≡ refuse e))
    × (◌≡◌ {A = Option GoError} none none → ((s2 : Network) × (s' ≡ (s2.0, s2.1 + 1))) × (id' ≡ 0))
doq_exchange-IsReply_example = doq_exchange-IsReply echo 853 77 reply (1 ∷ []) ([], 0)

abbrev config : Config
config = record (default_config [] []) { protocols = doq ∷ tcp ∷ [] }

abbrev silent : Name → Network → ℕ → Msg → List ℕ → Network × Reply
silent protocol s id m addr = (s, refuse (external 1))

ask_servers-HasOutcome_example :
    (s' : Network × ℕ) × (q : NameserverPool) × (r : Response) × (ask_servers echo silent config
        reply true pool
        (([], 0), 77)
      ≡ some (s', q, r))
    × IsServing q
    × HasOutcome r
ask_servers-HasOutcome_example =
    ask_servers-HasOutcome echo silent config reply question [] true pool (([], 0), 77) refl
      (λ protocol s id m addr. refl) (record { ipv4 = refl; ipv6 = refl })
