-- ===== src/Resolver/Transport.antt =====
-- A pool that is asked over the clients of the package clients: pool_exchange.go over nameserver.go
-- over clients/doq.go and clients/classic.go. The identifier of the message is shared by all of them.
use resolver_lib.Prelude.{
  ℕ, ◌≡◌, ap, inl, inr, Bool, false, List, ◌∷◌, Option, some, if◌then◌else◌, Bool-cases, Name,
  name_eq,
}
use resolver_lib.Dns.{Question, Msg}
use resolver_lib.Clients.{Quic, Reply, doq_exchange, classic_exchange}
use resolver_lib.Clients.Sessions.{IsReply, doq_exchange-IsReply}
use resolver_lib.Resolver.Config.{Config, doq, dot}
use resolver_lib.Resolver.Response.{Response}
use resolver_lib.Resolver.Nameserver.{Nameserver, Answer, empty_reply}
use resolver_lib.Resolver.Nameserver
use resolver_lib.Resolver.Nameserver.Protocols.{is_void, attempts, best, Answers, exchange-best}
use resolver_lib.Resolver.Pool.{NameserverPool}
use resolver_lib.Resolver.Pool.Exchange
use resolver_lib.Resolver.Pool.Exchange.Total.{IsServing, HasOutcome, Asks, exchange-HasOutcome}

module _ {S : Type 0} (quic : Quic S) (classic : Name → S → ℕ → Msg → List ℕ → S × Reply)
    (c : Config) where
  -- The client for a protocol at work, with the identifier of the message. What the DNS package's
  -- client for a network does is a parameter.
  unfoldable pub call : S × ℕ → Name → Msg → List ℕ → (S × ℕ) × Reply
  call (s, id) protocol m addr =
      let (s1, id1, r1) = doq_exchange quic c.doq_port id m addr s in
      let port = if name_eq protocol dot then c.dot_port else c.dns_port in
      let (s2, r2) =
        classic_exchange quic.join_host_port (λ s' m' a. classic protocol s' id m' a) port m addr
          s in
      if name_eq protocol doq then ((s1, id1), r1) else ((s2, id), r2)

  -- A server is asked over the protocols of the configuration, and a pool over its servers.
  unfoldable pub ask_server : Msg → S × ℕ → Nameserver → Option ((S × ℕ) × Response)
  unfolding call
  ask_server m s n = Nameserver.exchange call c.protocols s n (some m)

  unfoldable pub ask_servers :
      Msg → Bool → NameserverPool → S × ℕ → Option ((S × ℕ) × NameserverPool × Response)
  unfolding ask_server
  ask_servers m ipv6_available pool s = Exchange.exchange (ask_server m) m ipv6_available pool s

  -- The DNS package's client never returns neither a message nor an error.
  abbrev pub Replies : Type 0
  Replies =
      (protocol : Name) (s : S) (id : ℕ) (m : Msg) (addr : List ℕ)
      → is_void (classic protocol s id m addr).1 ≡ false

  IsReply-is_void : (r : Reply) → IsReply quic r → is_void r ≡ false
  IsReply-is_void r (inl (e, h)) = ap is_void h
  IsReply-is_void r (inr (m, h, g)) = ap is_void h

  call-Answers : Replies → Answers call
  unfolding call classic_exchange
  call-Answers h (s, id) protocol m addr = elim (Bool-cases (name_eq protocol doq)) [
    | inl t ↦ rw t (
        IsReply-is_void (doq_exchange quic c.doq_port id m addr s).2
          (doq_exchange-IsReply quic c.doq_port id m addr s).0)
    | inr f ↦ rw f (h protocol s id m _)
  ]

  ask_server-Asks :
      (m : Msg) (q : Question) (qs : List Question)
      → Replies
      → m.question ≡ q ∷ qs
      → Asks (ask_server m)
  unfolding ask_server
  ask_server-Asks m q qs h k s n = (
    best call (s, empty_reply) (attempts call s m n.addr c.protocols),
    exchange-best call c.protocols s n m q qs (call-Answers h) k,
  )

  -- Asking a pool over the clients for a message with a question always ends, with a message or an error, and leaves the pool with
  -- counters that agree with its lists: no answer of a server, and no failure to reach one, is a
  -- panic. The DNS package's client is taken to return a message or an error.
  pub ask_servers-HasOutcome :
      (m : Msg) (q0 : Question) (qs : List Question) (ipv6_available : Bool) (p : NameserverPool)
      (s : S × ℕ)
      → m.question ≡ q0 ∷ qs
      → Replies
      → IsServing p
      → (s' : S × ℕ) × (q : NameserverPool) × (r : Response) × (ask_servers m ipv6_available p s
          ≡ some (s', q, r))
        × IsServing q
        × HasOutcome r
  unfolding ask_servers
  ask_servers-HasOutcome m q0 qs v p s k h =
      exchange-HasOutcome (ask_server m) m q0 qs v p s k (ask_server-Asks m q0 qs h k)
