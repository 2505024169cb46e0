-- ===== src/Resolver/Pool/Rotation.antt =====
-- The turns that `getIPv4` and `getIPv6` of pool.go take.
use native.Mathlib.Nat.{mod-lt, mod-eq_of_lt, mod_self}
use resolver_lib.Prelude.{
  ℕ, zero, suc, ◌+◌, ◌-◌, ◌%◌, ◌^◌, ◌<◌, ◌≡◌, ap, ◌∙◌, ◌⊎◌, inl, inr, some, In, length, get_elem?,
  get_elem?-In, arith, dec_lt,
}
use resolver_lib.Resolver.Nameserver.{Nameserver}
use resolver_lib.Resolver.Pool.{NameserverPool, get_ipv4, get_ipv6}
use resolver_lib.Resolver.Pool.Counts.{get_ipv4-eq, get_ipv6-eq}

-- A pool from which so many servers were taken.
abbrev pub after_ipv4 : ℕ → NameserverPool → NameserverPool
after_ipv4 zero p = p
after_ipv4 (suc k) p = after_ipv4 k (get_ipv4 p).0

abbrev pub after_ipv6 : ℕ → NameserverPool → NameserverPool
after_ipv6 zero p = p
after_ipv6 (suc k) p = after_ipv6 k (get_ipv6 p).0

-- It takes so many rounds from one position to another, with a wrap or without.
abbrev Ahead : ℕ → ℕ → ℕ → ℕ → Type 0
Ahead n from k to = (from + k ≡ to) ⊎ (from + k ≡ to + n)

-- The position after one round is one round closer.
Ahead-round :
    (n c k to : ℕ)
    → c < n
    → n < 2 ^ 32
    → to < n
    → Ahead n c (suc k) to
    → Ahead n ((c + 1) % 2 ^ 32 % n) k to
Ahead-round n c k to b small t h =
    let e : (c + 1) % 2 ^ 32 ≡ c + 1 = mod-eq_of_lt (omega arith) in
    elim (dec_lt (c + 1) n) [
      | yes l ↦
          let f : (c + 1) % 2 ^ 32 % n ≡ c + 1 = ap (λ z. z % n) e ∙ mod-eq_of_lt l in
          elim h as (λ _. Ahead n ((c + 1) % 2 ^ 32 % n) k to) [
            | inl q ↦ inl (omega (arith, f))
            | inr q ↦ inr (omega (arith, f))
          ]
      | no l ↦
          let last : c + 1 ≡ n = omega arith in
          let f : (c + 1) % 2 ^ 32 % n ≡ 0 = ap (λ z. z % n) (e ∙ last) ∙ mod_self n in
          elim h as (λ _. Ahead n ((c + 1) % 2 ^ 32 % n) k to) [
            | inl q ↦ absurd (omega arith)
            | inr q ↦ inl (omega (arith, f))
          ]
    ]

-- Some number of rounds below the count leads from any position to any.
rounds_to : (n c to : ℕ) → c < n → to < n → (k : ℕ) × (k < n) × Ahead n c k to
rounds_to n c to b t = elim (dec_lt to c) [
  | yes l ↦ (to + n - c, omega arith, inr (omega arith))
  | no l ↦ (to - c, omega arith, inl (omega arith))
]

turns_ipv4 :
    (k : ℕ) (p : NameserverPool) (to : ℕ)
    → 0 < p.ipv4_count
    → p.ipv4_count < 2 ^ 32
    → to < p.ipv4_count
    → Ahead p.ipv4_count (p.ipv4_next % p.ipv4_count) k to
    → (get_ipv4 (after_ipv4 k p)).1 ≡ get_elem? p.ipv4 to
turns_ipv4 zero p to pos small t h =
    let l = mod-lt p.ipv4_next pos in
    let e : p.ipv4_next % p.ipv4_count ≡ to = elim h as (λ _. p.ipv4_next % p.ipv4_count ≡ to) [
      | inl q ↦ omega arith
      | inr q ↦ absurd (omega arith)
    ] in
    ap (λ z. z.1) (get_ipv4-eq p pos) ∙ ap (get_elem? p.ipv4) e
turns_ipv4 (suc k) p to pos small t h =
    let p' = record p { ipv4_next = (p.ipv4_next % p.ipv4_count + 1) % 2 ^ 32 } in
    let e : (get_ipv4 p).0 ≡ p' = ap (λ z. z.0) (get_ipv4-eq p pos) in
    ap (λ z. (get_ipv4 (after_ipv4 k z)).1) e
    ∙ turns_ipv4 k p' to pos small t (
        Ahead-round p.ipv4_count (p.ipv4_next % p.ipv4_count) k to (mod-lt p.ipv4_next pos) small t
          h)

turns_ipv6 :
    (k : ℕ) (p : NameserverPool) (to : ℕ)
    → 0 < p.ipv6_count
    → p.ipv6_count < 2 ^ 32
    → to < p.ipv6_count
    → Ahead p.ipv6_count (p.ipv6_next % p.ipv6_count) k to
    → (get_ipv6 (after_ipv6 k p)).1 ≡ get_elem? p.ipv6 to
turns_ipv6 zero p to pos small t h =
    let l = mod-lt p.ipv6_next pos in
    let e : p.ipv6_next % p.ipv6_count ≡ to = elim h as (λ _. p.ipv6_next % p.ipv6_count ≡ to) [
      | inl q ↦ omega arith
      | inr q ↦ absurd (omega arith)
    ] in
    ap (λ z. z.1) (get_ipv6-eq p pos) ∙ ap (get_elem? p.ipv6) e
turns_ipv6 (suc k) p to pos small t h =
    let p' = record p { ipv6_next = (p.ipv6_next % p.ipv6_count + 1) % 2 ^ 32 } in
    let e : (get_ipv6 p).0 ≡ p' = ap (λ z. z.0) (get_ipv6-eq p pos) in
    ap (λ z. (get_ipv6 (after_ipv6 k z)).1) e
    ∙ turns_ipv6 k p' to pos small t (
        Ahead-round p.ipv6_count (p.ipv6_next % p.ipv6_count) k to (mod-lt p.ipv6_next pos) small t
          h)

-- No server is starved: where the counters agree with the lists, each server is handed out within
-- as many calls as there are servers of its kind, wherever the turn stands.
pub get-fair :
    (p : NameserverPool) (s : Nameserver)
    → p.ipv4_count ≡ length p.ipv4
    → p.ipv6_count ≡ length p.ipv6
    → p.ipv4_count < 2 ^ 32
    → p.ipv6_count < 2 ^ 32
    → (In s p.ipv4 → (k : ℕ) × (k < length p.ipv4) × ((get_ipv4 (after_ipv4 k p)).1 ≡ some s))
      × (In s p.ipv6 → (k : ℕ) × (k < length p.ipv6) × ((get_ipv6 (after_ipv6 k p)).1 ≡ some s))
get-fair p s n4 n6 small4 small6 = (
  λ m.
      let (i, b, e) = get_elem?-In s p.ipv4 m in
      let pos : 0 < p.ipv4_count = omega arith in
      let (k, l, a) =
        rounds_to p.ipv4_count (p.ipv4_next % p.ipv4_count) i (mod-lt p.ipv4_next pos)
          (omega arith) in
      (k, omega arith, turns_ipv4 k p i pos small4 (omega arith) a ∙ e),
  λ m.
      let (i, b, e) = get_elem?-In s p.ipv6 m in
      let pos : 0 < p.ipv6_count = omega arith in
      let (k, l, a) =
        rounds_to p.ipv6_count (p.ipv6_next % p.ipv6_count) i (mod-lt p.ipv6_next pos)
          (omega arith) in
      (k, omega arith, turns_ipv6 k p i pos small6 (omega arith) a ∙ e),
)
