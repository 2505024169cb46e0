-- ===== src/Dnssec/Anchors.antt =====
-- dnssec/config.go: loading the trust anchors. Opening the file and decoding the XML is left to the
-- caller: `none` is a file that is not there, or one that could not be decoded, at which the code
-- panics. The clock is read once for all digests. Times are in seconds; a missing `validUntil` is `none`.
use mathlib.Core.List.{append_assoc, append-nil}
use resolver_lib.Prelude.{
  ℕ, ◌≤◌, ltb, ◌≡◌, refl, sym, ap, subst, ◌↔◌, ◌⊎◌, inl, inr, Bool, true, false, ◌||◌, List, [],
  ◌∷◌, ◌++◌, Option, none, some, if◌then◌else◌, ◌>>=◌, In, arith, Bool-cases, map, In-select,
  select-In, select, not,
}
use resolver_lib.Dns.{Ds, type_ds}
use resolver_lib.Dnssec.Env.{Env}

pub record KeyDigest : Type 0 where
  pub valid_from : ℕ
  pub valid_until : Option ℕ
  pub key_tag : ℕ
  pub algorithm : ℕ
  pub digest_type : ℕ
  pub digest : List ℕ

abbrev pub to_anchor : KeyDigest → Ds
to_anchor kd = record {
  header = record { name = b'.' ∷ []; rrtype = type_ds; ttl = 86_400 };
  key_tag = kd.key_tag;
  algorithm = kd.algorithm;
  digest_type = kd.digest_type;
  digest = kd.digest;
}

abbrev is_over : ℕ → Option ℕ → Bool
is_over now none = false
is_over now (some t) = ltb t now

-- The two tests at which the loop goes on to the next digest.
abbrev is_skipped : ℕ → KeyDigest → Bool
is_skipped now kd = ltb now kd.valid_from || is_over now kd.valid_until

-- The loop, with the anchors so far.
unfoldable pub add_anchors : ℕ → List Ds → List KeyDigest → List Ds
add_anchors now anchors [] = anchors
add_anchors now anchors (kd ∷ digests) =
    add_anchors now (if is_skipped now kd then anchors else anchors ++ to_anchor kd ∷ []) digests

-- The package variable is emptied first.
unfoldable pub load_anchors : ℕ → Option (List KeyDigest) → Env → Option Env
unfolding add_anchors
load_anchors now file env =
    file >>= λ digests. some (record env { root_trust_anchors = add_anchors now [] digests })

-- A digest that is to be trusted at a time.
abbrev pub IsCurrent : ℕ → KeyDigest → Type 0
IsCurrent now kd = (kd.valid_from ≤ now) × ((t : ℕ) → kd.valid_until ≡ some t → now ≤ t)

not_elapsed :
    (now : ℕ) (until : Option ℕ) → ((t : ℕ) → until ≡ some t → now ≤ t) → is_over now until ≡ false
not_elapsed now none f = refl
not_elapsed now (some u) f = ground (arith, f u refl)

over_current : (now t : ℕ) (until : Option ℕ) → is_over now until ≡ false → until ≡ some t → now ≤ t
over_current now t none h e = cc
over_current now t (some u) h e = ground arith

-- A digest is kept exactly when it is current.
kept-IsCurrent : (now : ℕ) (kd : KeyDigest) → is_skipped now kd ≡ false → IsCurrent now kd
kept-IsCurrent now kd h = (ground arith, λ t e. over_current now t kd.valid_until (ground arith) e)

is_skipped-IsCurrent : (now : ℕ) (kd : KeyDigest) → IsCurrent now kd → is_skipped now kd ≡ false
is_skipped-IsCurrent now kd h = ground (arith, not_elapsed now kd.valid_until h.1)

-- What a list of digests gives.
abbrev pub IsAnchorOf : ℕ → List KeyDigest → Ds → Type 0
IsAnchorOf now digests ds =
    (kd : KeyDigest) × In kd digests × IsCurrent now kd × (ds ≡ to_anchor kd)

to_keep : ℕ → KeyDigest → Bool
to_keep now kd = not (is_skipped now kd)

add_anchors_lem :
    (now : ℕ) (anchors : List Ds) (digests : List KeyDigest)
    → add_anchors now anchors digests ≡ anchors ++ map to_anchor (select (to_keep now) digests)
unfolding add_anchors to_keep
add_anchors_lem now anchors [] = simp append-nil
add_anchors_lem now anchors (kd ∷ digests) = elim (Bool-cases (is_skipped now kd)) [
  | inl t ↦ simp (t, add_anchors_lem now anchors digests)
  | inr f ↦ simp (f, add_anchors_lem now (anchors ++ to_anchor kd ∷ []) digests, append_assoc)
]

-- What a map holds comes from the list.
In-map_anchors :
    (ds : Ds) (digests : List KeyDigest)
    → In ds (map to_anchor digests)
    → (kd : KeyDigest) × In kd digests × (ds ≡ to_anchor kd)
In-map_anchors ds [] m = absurd m
In-map_anchors ds (kd ∷ digests) (inl e) = (kd, inl refl, e)
In-map_anchors ds (kd ∷ digests) (inr m) =
    let (k, i, e) = In-map_anchors ds digests m in (k, inr i, e)

map_anchors-In :
    (kd : KeyDigest) (digests : List KeyDigest)
    → In kd digests
    → In (to_anchor kd) (map to_anchor digests)
map_anchors-In kd [] m = absurd m
map_anchors-In kd (k ∷ digests) (inl e) = inl (ap to_anchor e)
map_anchors-In kd (k ∷ digests) (inr m) = inr (map_anchors-In kd digests m)

loaded :
    (now : ℕ) (digests : List KeyDigest) (ds : Ds)
    → In ds (map to_anchor (select (to_keep now) digests))
    → IsAnchorOf now digests ds
unfolding to_keep
loaded now digests ds m =
    let (kd, i, e) = In-map_anchors ds (select (to_keep now) digests) m in
    let (j, k) = In-select (to_keep now) kd digests i in
    (kd, j, kept-IsCurrent now kd (ground arith), e)

loads :
    (now : ℕ) (digests : List KeyDigest) (ds : Ds)
    → IsAnchorOf now digests ds
    → In ds (map to_anchor (select (to_keep now) digests))
unfolding to_keep
loads now digests ds (kd, i, c, e) =
    let kept : to_keep now kd ≡ true = rw (is_skipped-IsCurrent now kd c, to_keep) refl in
    subst (λ x. In x (map to_anchor (select (to_keep now) digests))) (sym e)
      (map_anchors-In kd (select (to_keep now) digests) (select-In (to_keep now) kd digests i kept))

-- Loading a file panics exactly when there is nothing to decode. Otherwise the trust anchors are,
-- whatever they were before, the records of the digests in the file that have become valid and have
-- not run out, and of no others; nothing else of the environment changes.
pub load_anchors-IsAnchorOf :
    (now : ℕ) (file : Option (List KeyDigest)) (env : Env)
    → ((file ≡ none) × (load_anchors now file env ≡ none))
      ⊎ ((digests : List KeyDigest) × (file ≡ some digests)
          × (env' : Env) × (load_anchors now file env ≡ some env')
          × (record env' { root_trust_anchors = env.root_trust_anchors } ≡ env)
          × ((ds : Ds) → In ds env'.root_trust_anchors ↔ IsAnchorOf now digests ds))
unfolding load_anchors
load_anchors-IsAnchorOf now none env = inl (refl, refl)
load_anchors-IsAnchorOf now (some digests) env =
    let all = add_anchors_lem now [] digests in
    inr (
      digests,
      refl,
      record env { root_trust_anchors = add_anchors now [] digests },
      refl,
      refl,
      λ ds. rw all (loaded now digests ds, loads now digests ds),
    )
