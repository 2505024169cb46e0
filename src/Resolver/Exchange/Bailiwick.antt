-- ===== src/Resolver/Exchange/Bailiwick.antt =====
-- Which zones a request of resolver_exchange.go adds to those that are known.
use resolver_lib.Prelude.{
  ℕ, ◌≡◌, sym, ap, inl, inr, true, false, not, ◌||◌, List, some, Bool-cases, arith, Name, name_eq,
  name_eq_iff,
}
use resolver_lib.Dns.{Rr, Pointer, Msg, Dns}
use resolver_lib.Resolver.Response.{Response}
use resolver_lib.Resolver.Zones.{StoredZone, Zones, add}
use resolver_lib.Resolver.Missing.{State, Funcs, clone}
use resolver_lib.Resolver.Exchange.{exchange, returned}
use resolver_lib.Resolver.Exchange.Steps.{
  Does, nothing, asks, sends, counts, clones, fails_to_create, creates, finishes,
}
use resolver_lib.Resolver.Exchange.Does.{exchange-Does}

some_zone : (z z' : StoredZone) → some z ≡ some z' → z ≡ z'
some_zone z z' h = cc

module _ (dns : Dns) where
  -- A zone that is named strictly below its parent.
  abbrev pub IsBelow : StoredZone → Type 0
  IsBelow z =
      (name : Name) × (parent : Name) × (z.name ≡ dns.canonical_name name)
      × (z.parent ≡ dns.canonical_name parent)
      × (dns.is_sub_domain parent name ≡ true)
      × (name_eq name parent ≡ false)
      × (name_eq z.name z.parent ≡ false)

  -- The known zones, and those after some were added.
  pub data Grown : Zones → Zones → Type 0 where
    unchanged : {a : Zones} → Grown a a
    added : {a b : Zones} → Grown a b → (z : StoredZone) → IsBelow z → Grown a (add dns b z)

  pub Grown-trans : {a b c : Zones} → Grown a b → Grown b c → Grown a c
  Grown-trans g unchanged = g
  Grown-trans g (added h z b) = added (Grown-trans g h) z b

  clone-IsBelow :
      (z z' : StoredZone) (name parent : Name) → clone dns z name parent ≡ some z' → IsBelow z'
  unfolding clone
  clone-IsBelow z z' name parent h =
      elim (Bool-cases (
        name_eq (dns.canonical_name name) (dns.canonical_name parent)
        || not (dns.is_sub_domain parent name))) [
          | inl t ↦ cc (rw t at h)
          | inr f ↦
              let distinct : name_eq name parent ≡ false = elim (Bool-cases (name_eq name parent)) [
                | inr n ↦ n
                | inl e ↦
                    let same =
                      (name_eq_iff (dns.canonical_name name) (dns.canonical_name parent)).1
                        (ap dns.canonical_name ((name_eq_iff name parent).0 e)) in
                    absurd (ground arith)
              ] in
              let made : StoredZone = record {
                name = dns.canonical_name name;
                parent = dns.canonical_name parent;
                expired = z.expired;
              } in
              let apart : name_eq made.name made.parent ≡ false = ground arith in
              let same : made ≡ z' = some_zone made z' (rw f at h) in
              (
                name,
                parent,
                sym (ap (λ x. x.name) same),
                sym (ap (λ x. x.parent) same),
                ground arith,
                distinct,
                rw (← same) apart,
              )
        ]

  module _ {S : Type 0} (funcs : Funcs S) where
    -- What is asked of the parts that are parameters: a zone is created under the names that it is
    -- to have, which differ, and requests of their own add zones in the same way.
    pub record IsKept : Type 0 where
      pub named :
          (st : State S) (name parent : Name) (nameservers : List Pointer) (extra : List Rr)
          (z : StoredZone)
          → (funcs.create_zone st name parent nameservers extra).1 ≡ inr z
          → (z.name ≡ dns.canonical_name name)
            × (z.parent ≡ dns.canonical_name parent)
            × (name_eq z.name z.parent ≡ false)
      pub creates :
          (st : State S) (name parent : Name) (nameservers : List Pointer) (extra : List Rr)
          → Grown st.zones (funcs.create_zone st name parent nameservers extra).0.zones
      pub finalises :
          (st : State S) (m : Msg) (r : Response) → Grown st.zones (funcs.finalise st m r).0.zones

    -- A step adds such zones only.
    pub Does-Grown : {a b : State S} → IsKept → Does dns funcs a b → Grown a.zones b.zones
    Does-Grown kept nothing = unchanged
    Does-Grown kept (asks g z q) = Does-Grown kept g
    Does-Grown kept (sends g z m queue e) = Does-Grown kept g
    Does-Grown kept (counts g) = Does-Grown kept g
    Does-Grown kept (clones g z z' name c) =
        added (Does-Grown kept g) z' (clone-IsBelow z z' name z.name c)
    Does-Grown kept (fails_to_create {b = b} g name parent nameservers extra) =
        Grown-trans (Does-Grown kept g) (kept.creates b name parent nameservers extra)
    Does-Grown kept (creates {b = b} g name parent nameservers extra z made distinct below) =
        let (n, p, apart) = kept.named b name parent nameservers extra z made in
        added (Grown-trans (Does-Grown kept g) (kept.creates b name parent nameservers extra)) z
          (name, parent, n, p, below, distinct, apart)
    Does-Grown kept (finishes {b = b} g m r) =
        Grown-trans (Does-Grown kept g) (kept.finalises b m r)

    -- Every zone that resolving a name adds to the known ones is named strictly below its parent,
    -- whatever the zones answer; the parts that are parameters are taken to name what they create as
    -- they are told, which is not as their parents, and to add zones in this way only.
    pub exchange-Grown :
        (max_queries : ℕ) (qmsg : Msg) (st st' : State S) (r : Response)
        → IsKept
        → exchange dns max_queries funcs qmsg st ≡ returned (st', r)
        → Grown st.zones st'.zones
    exchange-Grown max_queries qmsg st st' r kept h =
        Does-Grown kept (exchange-Does dns funcs max_queries qmsg st st' r h)
