-- ===== src/Clients/Framing.antt =====
-- The frame of two bytes for the length that clients/doq.go puts before a message.
use resolver_lib.Prelude.{
  ℕ, ◌+◌, ◌*◌, ◌/◌, ◌%◌, ◌^◌, ◌<◌, ◌==◌, ==_iff, ◌≡◌, refl, ap, ◌∙◌, ◌↔◌, ◌⊎◌, inl, inr, true, List,
  [], ◌∷◌, length, Bool-cases, All, arith,
}
use resolver_lib.Dns.{GoError}
use resolver_lib.Clients.{frame, unframe}

abbrev IsByte : ℕ → Type 0
IsByte n = n < 256

same_bytes : (b c : List ℕ) → ◌≡◌ {A = GoError ⊎ List ℕ} (inr b) (inr c) → b ≡ c
same_bytes b c h = cc

-- Framing is undone by unframing, at every length, and nothing but a frame is taken: bytes are
-- unframed to a message exactly if they are its frame.
pub unframe-frame_iff : (buf b : List ℕ) → All IsByte buf → (unframe buf ≡ inr b) ↔ (buf ≡ frame b)
unfolding unframe frame
unframe-frame_iff buf b bytes = (there buf bytes, λ e. ap unframe e ∙ back)
  where
    back : unframe (frame b) ≡ inr b
    back =
        let t : (length b % 2 ^ 16 / 256 * 256 + length b % 2 ^ 16 % 256 == length b % 2 ^ 16)
            ≡ true =
          (==_iff (length b % 2 ^ 16 / 256 * 256 + length b % 2 ^ 16 % 256) (length b % 2 ^ 16)).1
            (omega arith) in
        rw t refl

    there : (buf : List ℕ) → All IsByte buf → unframe buf ≡ inr b → buf ≡ frame b
    there [] k h = cc
    there (x ∷ []) k h = cc
    there (x ∷ y ∷ c) (k, (l, _)) h = elim (Bool-cases (x * 256 + y == length c % 2 ^ 16)) [
      | inr f ↦ cc (rw f at h)
      | inl t ↦
          let e = (==_iff (x * 256 + y) (length c % 2 ^ 16)).0 t in
          let same : c ≡ b = same_bytes c b (rw t at h) in
          let hi : x ≡ length c % 2 ^ 16 / 256 = omega arith in
          let lo : y ≡ length c % 2 ^ 16 % 256 = omega arith in
          ap (λ z. z ∷ y ∷ c) hi ∙ ap (λ z. length c % 2 ^ 16 / 256 ∷ z ∷ c) lo ∙ ap frame same
    ]
