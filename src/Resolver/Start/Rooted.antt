-- ===== src/Resolver/Start/Rooted.antt =====
-- The root zone, which `NewResolver` of resolver.go adds, among those that are known.
use mathlib.Core.List.{reverse, reverse-append, reverse-cons}
use resolver_lib.Prelude.{
  ℕ, ◌-◌, ◌≤◌, ◌≡◌, refl, sym, ap, subst, ◌∙◌, inl, inr, true, false, List, [], ◌∷◌, ◌++◌, Option,
  none, some, >>=-eq-some, Bool-cases, arith, Name, name_eq, name_eq_iff, length, drop, All, lookup,
  name_key, All-append,
}
use resolver_lib.Dns.{Rr, a, aaaa, Dns, GoError}
use resolver_lib.Dnssec.Env.{Env}
use resolver_lib.Dnssec.Anchors.{KeyDigest, load_anchors}
use resolver_lib.Resolver.Pool.{NameserverPool, expired, update_ip_count}
use resolver_lib.Resolver.Domain.{suffix, label_starts}
use resolver_lib.Resolver.Zones.{StoredZone, Zones, collect, get, add, get_zone_list}
use resolver_lib.Resolver.Zones.Chain.{
  Linked, Descends, collect_total, reverse_aux-All, get_zone_list-Linked, Known, get-add,
}
use resolver_lib.Resolver.Missing.{root_name}
use resolver_lib.Resolver.Exchange.Bailiwick.{IsBelow, Grown, unchanged, added}
use resolver_lib.Resolver.Start.{
  no_servers, take_servers, build_root_server_pool, start_with, Resolver, new_resolver,
}

-- What names are to the DNS package: a canonical name is one already and ends in the dot of the root,
-- labels start within a name, and only the root is above the root.
pub record IsRooted (dns : Dns) : Type 0 where
  pub canonical_root : dns.canonical_name root_name ≡ root_name
  pub canonical_twice :
      (name : Name) → dns.canonical_name (dns.canonical_name name) ≡ dns.canonical_name name
  pub above_root :
      (parent name : Name)
      → dns.is_sub_domain parent name ≡ true
      → dns.canonical_name name ≡ root_name
      → dns.canonical_name parent ≡ root_name
  pub ends_in_root :
      (name : Name)
      → drop (length (dns.canonical_name name) - 1) (dns.canonical_name name) ≡ root_name
  pub splits_within :
      (name : Name)
      → All (λ i. i ≤ length (dns.canonical_name name)) (dns.split (dns.canonical_name name))

-- The root zone is known and has not expired at the time.
unfoldable pub HasRoot : Dns → ℕ → Zones → Type 0
HasRoot dns now zones =
    (z : StoredZone) × (get dns now zones root_name ≡ some z) × (z.name ≡ root_name)

take_servers-expires :
    (pool : NameserverPool) (records : List Rr) → (take_servers pool records).expires ≡ pool.expires
unfolding take_servers
take_servers-expires pool [] = refl
take_servers-expires pool (a r ∷ records) = take_servers-expires _ records
take_servers-expires pool (aaaa r ∷ records) = take_servers-expires _ records
take_servers-expires pool (_ ∷ records) = take_servers-expires pool records

never : (now : ℕ) (pool : NameserverPool) → pool.expires ≡ 0 → expired now pool ≡ false
unfolding expired
never now pool e = ground arith

some_stored : (x z : StoredZone) → some x ≡ some z → x ≡ z
some_stored x z h = cc

some_list : (xs ys : List StoredZone) → some xs ≡ some ys → xs ≡ ys
some_list xs ys h = cc

some_resolver : (x r : Resolver) → some x ≡ some r → x.zones ≡ r.zones
some_resolver x r h = ap (λ y. y.zones) (inside x r h)
  where
    inside : (x r : Resolver) → some x ≡ some r → x ≡ r
    inside x r h = cc

module _ (dns : Dns) (laws : IsRooted dns) where
  below_root :
      (z : StoredZone)
      → IsBelow dns z
      → name_eq (dns.canonical_name z.name) (dns.canonical_name root_name) ≡ false
  below_root z (name, parent, n, p, sub, distinct, apart) =
      elim (Bool-cases (name_eq (dns.canonical_name z.name) (dns.canonical_name root_name))) [
        | inr f ↦ f
        | inl t ↦
            let e : dns.canonical_name z.name ≡ root_name =
              (name_eq_iff (dns.canonical_name z.name) (dns.canonical_name root_name)).0 t
              ∙ laws.canonical_root in
            let root : dns.canonical_name name ≡ root_name =
              sym (laws.canonical_twice name) ∙ ap dns.canonical_name (sym n) ∙ e in
            let top = laws.above_root parent name sub root in
            cc ((name_eq_iff z.name z.parent).1 (n ∙ root ∙ sym top ∙ sym p))
      ]

  pub Grown-HasRoot :
      (now : ℕ) {a b : Zones} → Grown dns a b → HasRoot dns now a → HasRoot dns now b
  unfolding HasRoot
  Grown-HasRoot now unchanged h = h
  Grown-HasRoot now (added {b = b} g z below) h =
      let (r, e, n) = Grown-HasRoot now g h in
      (r, get-add dns now b z root_name ∙ rw (below_root z below) e, n)

  -- Adding the root zone to no zones makes it known.
  root_added :
      (now : ℕ) (z : StoredZone)
      → z.name ≡ root_name
      → z.expired now ≡ false
      → HasRoot dns now (add dns none z)
  unfolding HasRoot
  root_added now z n x =
      let same : name_eq (dns.canonical_name z.name) (dns.canonical_name root_name) ≡ true =
        (name_eq_iff (dns.canonical_name z.name) (dns.canonical_name root_name)).1
          (ap dns.canonical_name n) in
      (z, get-add dns now none z root_name ∙ rw (same, x) refl, n)

  start_with-HasRoot :
      (now then_ : ℕ) (env : Env) (records : List Rr) (e : Option GoError) (r : Resolver)
      → start_with dns now env (build_root_server_pool records e) ≡ some r
      → HasRoot dns then_ r.zones
  unfolding build_root_server_pool update_ip_count
  start_with-HasRoot now then_ env records (some e) r h = cc
  start_with-HasRoot now then_ env records none r h =
      let pool = update_ip_count (take_servers no_servers records) in
      let z : StoredZone = record {
        name = root_name;
        parent = [];
        expired = λ at. expired at pool;
      } in
      let lasting : expired then_ pool ≡ false =
        never then_ pool (take_servers-expires no_servers records) in
      let zones : add dns none z ≡ r.zones = some_resolver _ r h in
      subst (HasRoot dns then_) zones (root_added then_ z refl lasting)

  -- Where `NewResolver` does not panic, whatever the files and what the parser made of them, it knows
  -- the root zone, and that zone has not expired at any time. Names are taken to obey the laws of
  -- `IsRooted`.
  pub new_resolver-HasRoot :
      (now then_ : ℕ) (anchors : Option (List KeyDigest))
      (root_zone : Option (List Rr × Option GoError)) (env : Env) (r : Resolver)
      → new_resolver dns now anchors root_zone env ≡ some r
      → HasRoot dns then_ r.zones
  unfolding new_resolver
  new_resolver-HasRoot now then_ anchors root_zone env r h =
      let (env', l, h1) = >>=-eq-some (load_anchors now anchors env) _ h in
      let (parsed, p, h2) = >>=-eq-some root_zone _ h1 in
      start_with-HasRoot now then_ env' parsed.0 parsed.1 r h2

  mapped_root :
      (now : ℕ) (m : List (Name × StoredZone)) (z : StoredZone)
      → get dns now (some m) root_name ≡ some z
      → (lookup root_name m ≡ some z) × (z.expired now ≡ false)
  unfolding get
  mapped_root now m z h =
      let (x, e, k) = >>=-eq-some (lookup (dns.canonical_name root_name) m) _ h in
      elim (Bool-cases (x.expired now)) [
        | inl t ↦ cc (rw t at k)
        | inr f ↦
            let same : x ≡ z = some_stored x z (rw f at k) in
            (rw (← laws.canonical_root) (e ∙ ap some same), sym (ap (λ y. y.expired now) same) ∙ f)
      ]

  listed :
      (now : ℕ) (m : List (Name × StoredZone)) (name : Name) (z : StoredZone)
      → lookup root_name m ≡ some z
      → z.expired now ≡ false
      → (zs : List StoredZone) × (collect now m
            (dns.canonical_name name)
            none
            (label_starts dns (dns.canonical_name name))
          ≡ some (z ∷ zs))
        × Descends none (z ∷ zs)
  unfolding collect label_starts suffix
  listed now m name z e x =
      let n = dns.canonical_name name in
      let at = length n - 1 in
      let starts : reverse (dns.split n ++ at ∷ []) ≡ at ∷ reverse (dns.split n) =
        reverse-append (dns.split n) (at ∷ []) in
      let (zs, c, d, k) =
        collect_total now m n (some z) (reverse (dns.split n))
          (reverse_aux-All (λ i. i ≤ length n) (dns.split n) [] (laws.splits_within name) tt) in
      let s : suffix n at ≡ some root_name = ground (arith, laws.ends_in_root name) in
      (zs, rw starts (rw (s, e, collect) (simp (x, c) refl)), (refl, d))

  nothing : (now : ℕ) (z : StoredZone) → ¬ (get dns now none root_name ≡ some z)
  unfolding get
  nothing now z = λ e. cc

  starts_within :
      (name : Name)
      → All (λ i. i ≤ length (dns.canonical_name name)) (label_starts dns (dns.canonical_name name))
  unfolding label_starts
  starts_within name =
      let n = dns.canonical_name name in
      reverse_aux-All (λ i. i ≤ length n) (dns.split n ++ (length n - 1) ∷ []) []
        (All-append (λ i. i ≤ length n) (dns.split n) ((length n - 1) ∷ [])
          (laws.splits_within name) (omega arith, tt))
        tt

  -- The list for a name: a chain of known zones that ends in the root zone.
  abbrev pub IsRootedList : ℕ → Zones → Name → Type 0
  IsRootedList now zones name =
      (m : List (Name × StoredZone)) × (front : List StoredZone) × (z : StoredZone) × (zones
        ≡ some m)
      × (get_zone_list dns now zones name ≡ some (front ++ z ∷ []))
      × (z.name ≡ root_name)
      × Linked (front ++ z ∷ [])
      × All (Known now m (dns.canonical_name name)) (front ++ z ∷ [])

  -- Where the root zone is known and has not expired at the time, the list of the known zones for a
  -- name is a chain of parents that ends in the root zone, so there is a zone to ask, and each zone
  -- of it is known under the name or an ancestor of it and has not expired at that time. Names are
  -- taken to obey the laws of `IsRooted`.
  pub get_zone_list-IsRooted :
      (now : ℕ) (zones : Zones) (name : Name) → HasRoot dns now zones → IsRootedList now zones name
  unfolding HasRoot get_zone_list
  get_zone_list-IsRooted now none name (z, e, n) = absurd (nothing now z e)
  get_zone_list-IsRooted now (some m) name (z, e, n) =
      let (l, x) = mapped_root now m z e in
      let (zs, c, d) = listed now m name z l x in
      let all = reverse zs ++ z ∷ [] in
      let found : get_zone_list dns now (some m) name ≡ some all =
        rw (c, get_zone_list) (ap some (reverse-cons z zs)) in
      let (ys, g, linked, known) = get_zone_list-Linked dns now m name (starts_within name) in
      let same : ys ≡ all = some_list ys all (sym g ∙ found) in
      (
        m,
        reverse zs,
        z,
        refl,
        found,
        n,
        subst Linked same linked,
        subst (All (Known now m (dns.canonical_name name))) same known,
      )
