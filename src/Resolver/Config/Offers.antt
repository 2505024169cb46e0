-- ===== src/Resolver/Config/Offers.antt =====
-- The clients of nameserver.go under a configuration that config.go builds.
use resolver_lib.Prelude.{
  ◌≡◌, refl, sym, ap, subst, ◌≢◌, ◌⊎◌, inl, inr, Bool, true, false, List, [], ◌∷◌, none, some,
  >>=-eq-some, if◌then◌else◌, Bool-cases, Name, name_eq, name_eq_iff, All, In, In-All,
}
use resolver_lib.Resolver.Config.{
  with_custom_root, with_client, with_tls_verification, with_pqc_mode, with_tls_cache,
  with_dns_port, with_doq_port, with_dot_port, with_udp_size, with_cache, with_timeouts, Config,
  Setting, udp, tcp, dot, doq, default_config, protocols_of, apply, config_builder, Curve,
  x25519_mlkem768, secp256r1_mlkem768, Client, doq_client, tls_client, classic_client, Clients,
  tls_config, default_dns_client_factory,
}

abbrev pub IsKnown : Name → Type 0
IsKnown p = In p (udp ∷ tcp ∷ dot ∷ doq ∷ [])

-- There are protocols, and all of them are known.
abbrev AreKnown : List Name → Type 0
AreKnown ps = (ps ≢ []) × All IsKnown ps

some_names : {A : Type 0} → (a b : A) → some a ≡ some b → a ≡ b
some_names a b h = cc

is_udp : IsKnown udp
is_udp = inl refl

is_tcp : IsKnown tcp
is_tcp = inr (inl refl)

is_dot : IsKnown dot
is_dot = inr (inr (inl refl))

is_doq : IsKnown doq
is_doq = inr (inr (inr (inl refl)))

known_either :
    (b : Bool) (x y ps : List Name)
    → AreKnown x
    → AreKnown y
    → some (if b then x else y) ≡ some ps
    → AreKnown ps
known_either true x y ps h k e = subst AreKnown (some_names x ps e) h
known_either false x y ps h k e = subst AreKnown (some_names y ps e) k

protocols_of-AreKnown :
    (client : Name) (fallback : Bool) (ps : List Name)
    → protocols_of client fallback ≡ some ps
    → AreKnown ps
unfolding protocols_of
protocols_of-AreKnown client fallback ps h = elim (Bool-cases (name_eq client udp)) [
  | inl e ↦
      known_either fallback (udp ∷ tcp ∷ []) (udp ∷ []) ps (λ z. cc, (is_udp, (is_tcp, tt)))
        (λ z. cc, (is_udp, tt)) (rw e at h)
  | inr e ↦ elim (Bool-cases (name_eq client tcp)) [
    | inl f ↦
        known_either true (tcp ∷ []) (tcp ∷ []) ps (λ z. cc, (is_tcp, tt)) (λ z. cc, (is_tcp, tt))
          (rw (e, f) at h)
    | inr f ↦ elim (Bool-cases (name_eq client dot)) [
      | inl g ↦
          known_either fallback (dot ∷ udp ∷ tcp ∷ []) (dot ∷ []) ps
            (λ z. cc, (is_dot, (is_udp, (is_tcp, tt)))) (λ z. cc, (is_dot, tt)) (rw (e, f, g) at h)
      | inr g ↦ elim (Bool-cases (name_eq client doq)) [
        | inl k ↦
            known_either fallback (doq ∷ udp ∷ tcp ∷ []) (doq ∷ []) ps
              (λ z. cc, (is_doq, (is_udp, (is_tcp, tt)))) (λ z. cc, (is_doq, tt))
              (rw (e, f, g, k) at h)
        | inr k ↦ cc (rw (e, f, g, k) at h)
      ]
    ]
  ]
]

-- The same protocols are left by every option but one.
kept : (c c' : Config) → some c ≡ some c' → AreKnown c.protocols → AreKnown c'.protocols
kept c c' e h = subst (λ x. AreKnown x.protocols) (some_names c c' e) h

apply-AreKnown :
    (o : Setting) (c c' : Config)
    → AreKnown c.protocols
    → apply o c ≡ some c'
    → AreKnown c'.protocols
unfolding apply
apply-AreKnown (with_client client fallback) c c' h e =
    let (ps, f, rest) = >>=-eq-some (protocols_of client fallback) _ e in
    kept (record c { protocols = ps }) c' rest (protocols_of-AreKnown client fallback ps f)
apply-AreKnown (with_custom_root zone anchors) c c' h e = kept _ c' e h
apply-AreKnown (with_tls_verification verify) c c' h e = kept _ c' e h
apply-AreKnown (with_pqc_mode mode) c c' h e = kept _ c' e h
apply-AreKnown (with_tls_cache n) c c' h e = kept _ c' e h
apply-AreKnown (with_dns_port n) c c' h e = kept _ c' e h
apply-AreKnown (with_doq_port n) c c' h e = kept _ c' e h
apply-AreKnown (with_dot_port n) c c' h e = kept _ c' e h
apply-AreKnown (with_udp_size n) c c' h e = kept _ c' e h
apply-AreKnown (with_cache n) c c' h e = kept _ c' e h
apply-AreKnown (with_timeouts a b c1 d1) c c' h e = kept _ c' e h

config_builder-AreKnown :
    (options : List Setting) (c c' : Config)
    → AreKnown c.protocols
    → config_builder c options ≡ some c'
    → AreKnown c'.protocols
unfolding config_builder
config_builder-AreKnown [] c c' h e = kept c c' e h
config_builder-AreKnown (o ∷ options) c c' h e =
    let (c1, f, rest) = >>=-eq-some (apply o c) _ e in
    config_builder-AreKnown options c1 c' (apply-AreKnown o c c1 h f) rest

-- The curves that no quantum computer is known to break.
abbrev pub IsPqc : Curve → Type 0
IsPqc c = (c ≡ x25519_mlkem768) ⊎ (c ≡ secp256r1_mlkem768)

abbrev pub curves : Client → List Curve
curves (doq_client s port timeout) = s.curve_preferences
curves (tls_client s port timeout) = s.curve_preferences
curves (classic_client net port timeout) = []

module _ (fqdn : Name → Name) (c : Config) (hostname : Name) where
  abbrev pub quic_of : Client
  quic_of = doq_client (tls_config fqdn c hostname) c.doq_port c.doq_timeout

  abbrev pub tls_of : Client
  tls_of = tls_client (tls_config fqdn c hostname) c.dot_port c.dot_timeout

  -- The clients that are kept were made for this server and by this configuration.
  abbrev pub AreMade : Clients → Type 0
  AreMade cs =
      ((cs.quic ≡ none) ⊎ (cs.quic ≡ some quic_of)) × ((cs.tls ≡ none) ⊎ (cs.tls ≡ some tls_of))

  -- The client for a protocol.
  abbrev pub Serves : Name → Client → Type 0
  Serves p x =
      ((p ≡ doq) × (x ≡ quic_of))
      ⊎ (((p ≡ dot) × (x ≡ tls_of))
          ⊎ (((p ≡ udp) × (x ≡ classic_client udp c.dns_port c.udp_timeout))
              ⊎ ((p ≡ tcp) × (x ≡ classic_client tcp c.dns_port c.tcp_timeout))))

  curves-IsPqc : (x : Client) (p : Name) → Serves p x → c.pqc_mode ≡ true → All IsPqc (curves x)
  curves-IsPqc x p h m = elim h as (λ _. All IsPqc (curves x)) [
    | inl (e, k) ↦ subst (λ z. All IsPqc (curves z)) (sym k) (simp m (inl refl, (inr refl, tt)))
    | inr (inl (e, k)) ↦
        subst (λ z. All IsPqc (curves z)) (sym k) (simp m (inl refl, (inr refl, tt)))
    | inr (inr (inl (e, k))) ↦ subst (λ z. All IsPqc (curves z)) (sym k) tt
    | inr (inr (inr (e, k))) ↦ subst (λ z. All IsPqc (curves z)) (sym k) tt
  ]

  -- A protocol that is known and not one of three is the fourth.
  only_udp :
      (p : Name)
      → IsKnown p
      → name_eq p doq ≡ false
      → name_eq p dot ≡ false
      → name_eq p tcp ≡ false
      → p ≡ udp
  only_udp p (inl e) a b f = e
  only_udp p (inr (inl e)) a b f = let y = (name_eq_iff p tcp).1 e in cc
  only_udp p (inr (inr (inl e))) a b f = let y = (name_eq_iff p dot).1 e in cc
  only_udp p (inr (inr (inr (inl e)))) a b f = let y = (name_eq_iff p doq).1 e in cc
  only_udp p (inr (inr (inr (inr e)))) a b f = absurd e

  factory-Serves :
      (p : Name) (cs : Clients)
      → IsKnown p
      → AreMade cs
      → let out = default_dns_client_factory fqdn c hostname p cs in AreMade out.0 × Serves p out.1
  unfolding default_dns_client_factory
  factory-Serves p cs known made = elim (Bool-cases (name_eq p doq)) [
    | inl e ↦
        let same = (name_eq_iff p doq).0 e in
        elim made.0 [
          | inl n ↦ simp (e, n) ((inr refl, made.1), inl (same, refl))
          | inr n ↦ simp (e, n) ((inr refl, made.1), inl (same, refl))
        ]
    | inr e ↦ elim (Bool-cases (name_eq p dot)) [
      | inl f ↦
          let same = (name_eq_iff p dot).0 f in
          elim made.1 [
            | inl n ↦ simp (e, f, n) ((made.0, inr refl), inr (inl (same, refl)))
            | inr n ↦ simp (e, f, n) ((made.0, inr refl), inr (inl (same, refl)))
          ]
      | inr f ↦ elim (Bool-cases (name_eq p tcp)) [
        | inl g ↦
            let same = (name_eq_iff p tcp).0 g in
            simp (e, f, g)
              (
                made,
                inr (inr (inr (same, ap (λ z. classic_client z c.dns_port c.tcp_timeout) same))),
              )
        | inr g ↦
            let same = only_udp p known e f g in
            simp (e, f, g)
              (
                made,
                inr (inr (inl (same, ap (λ z. classic_client z c.dns_port c.udp_timeout) same))),
              )
      ]
    ]
  ]

-- Under every configuration that options make of the default one, there is a protocol to try, and for
-- each protocol a server makes the client for it, or hands out the one that it made before, with the
-- port, the time-out and the TLS settings of the configuration; in PQC mode every client over TLS
-- offers curves that are safe against quantum computers only.
pub config_builder-Serves :
    (fqdn : Name → Name) (zone anchors : Name) (options : List Setting) (c : Config)
    (hostname : Name) (cs : Clients)
    → config_builder (default_config zone anchors) options ≡ some c
    → AreMade fqdn c hostname cs
    → (c.protocols ≢ [])
      × ((p : Name)
          → In p c.protocols
          → let out = default_dns_client_factory fqdn c hostname p cs in
            AreMade fqdn c hostname out.0
            × Serves fqdn c hostname p out.1
            × (c.pqc_mode ≡ true → All IsPqc (curves out.1)))
config_builder-Serves fqdn zone anchors options c hostname cs built made =
    let (some_protocol, all) =
      config_builder-AreKnown options (default_config zone anchors) c
        (λ z. cc, (is_udp, (is_tcp, tt))) built in
    (
      some_protocol,
      λ p i.
          let (m, s) =
            factory-Serves fqdn c hostname p cs (In-All IsKnown p c.protocols all i) made in
          (
            m,
            s,
            curves-IsPqc fqdn c hostname (default_dns_client_factory fqdn c hostname p cs).1 p s,
          ),
    )
