-- ===== src/Split.antt =====
-- src/core/split.cpp and include/dindexer-core/split_tags.hpp: the parts of a list, over Boost's
-- splitting and trimming.
use dindexer.Common.{
  ℕ, ◌+◌, ◌≤◌, ◌≡◌, ◌≢◌, refl, ap, ap₂, ◌∙◌, Bool, true, false, List, [], ◌∷◌, map, arith, Bytes,
  length, All, StrRange, slice, ◌==◌, if◌then◌else◌, pieces, keep_filled, ◌&&◌, take, drop,
  drop-drop, take-drop-take, length-take, length-drop, Bool-cases, inl, inr, ==→eq, subst, sym,
}
use dindexer.Boost.{Splitter, Within}

-- `filtered` by `not r.empty()`.
pub keep_ranges : List StrRange → List StrRange
keep_ranges [] = []
keep_ranges (r ∷ rs) = let rest = keep_ranges rs in if r.len == 0 then rest else r ∷ rest

module _ (boost : Splitter) where
  open boost use {
    iter_split, iter_split_within, iter_split_texts, trim_copy, trim, trim_within, trim_texts,
  }

  pub split : Bytes → ℕ → Bool → Bool → List StrRange
  unfolding keep_ranges
  split s sep trims delete_empty =
      if trims && delete_empty
      then keep_ranges (map (trim_copy s) (iter_split sep s))
      else if trims
      then map (trim_copy s) (iter_split sep s)
      else if delete_empty
      then keep_ranges (iter_split sep s)
      else iter_split sep s

  -- `split` of a part of a source string, as ranges of the source.
  pub split_part : StrRange → Bytes → ℕ → Bool → Bool → List StrRange
  unfolding split
  split_part part source sep trims delete_empty =
      map (λ r. record { start = part.start + r.start; len = r.len })
        (split (slice part source) sep trims delete_empty)

  pub split_and_trim : Bytes → ℕ → List StrRange
  unfolding split
  split_and_trim s sep = split s sep true true

  pub split_tags : Bytes → List StrRange
  unfolding split
  split_tags s = split s b',' true true

  -- The texts of the parts.
  pub split_texts : Bytes → ℕ → Bool → Bool → List Bytes
  unfolding split
  split_texts s sep trims delete_empty = map (λ r. slice r s) (split s sep trims delete_empty)

length-slice : (s : Bytes) (r : StrRange) → Within s r → length (slice r s) ≡ r.len
length-slice s r h = omega (arith, length-take r.len (drop r.start s), length-drop r.start s)

nil-of-length : (p : Bytes) → length p ≡ 0 → p ≡ []
nil-of-length [] h = refl
nil-of-length (c ∷ p) h = absurd (omega arith)

keep_filled-cons :
    (p : Bytes) (ps : List Bytes) → p ≢ [] → keep_filled (p ∷ ps) ≡ p ∷ keep_filled ps
keep_filled-cons [] ps h = absurd (h refl)
keep_filled-cons (c ∷ p) ps h = refl

keep_ranges-texts :
    (s : Bytes) (rs : List StrRange)
    → All (Within s) rs
    → map (λ r. slice r s) (keep_ranges rs) ≡ keep_filled (map (λ r. slice r s) rs)
unfolding keep_ranges
keep_ranges-texts s [] h = refl
keep_ranges-texts s (r ∷ rs) (h, hs) = elim (Bool-cases (r.len == 0)) [
  | inl e ↦
      rw (e, nil-of-length (slice r s) (length-slice s r h ∙ ==→eq r.len 0 e))
        (keep_ranges-texts s rs hs)
  | inr ne ↦ rw (
    ne,
    keep_filled-cons (slice r s) (map (λ x. slice x s) rs)
        (λ e. ground (arith, length-slice s r h, ap length e)),
    keep_ranges-texts s rs hs,
  )
]

All-map_of {ℓ κ} :
    {A : Type ℓ} {B : Type 0} (P : A → Type κ) (Q : B → Type κ) (f : A → B)
    → ((a : A) → P a → Q (f a))
    → (xs : List A) → All P xs
    → All Q (map f xs)
All-map_of P Q f h [] a = tt
All-map_of P Q f h (x ∷ xs) (a, as') = (h x a, All-map_of P Q f h xs as')

module _ (boost : Splitter) where
  open boost use {
    iter_split, iter_split_within, iter_split_texts, trim_copy, trim, trim_within, trim_texts,
  }

  trimmed-texts :
      (s : Bytes) (rs : List StrRange)
      → map (λ r. slice r s) (map (trim_copy s) rs) ≡ map trim (map (λ r. slice r s) rs)
  trimmed-texts s [] = refl
  trimmed-texts s (r ∷ rs) = ap₂ (λ x l. x ∷ l) (trim_texts s r) (trimmed-texts s rs)

  -- What `split` returns, for each setting of its two flags: the parts of the text between the
  -- separators, trimmed if asked, without those that are empty then, if asked.
  pub split_texts_lem :
      (s : Bytes) (sep : ℕ) (trims delete_empty : Bool)
      → split_texts boost s sep trims delete_empty ≡ (
          let parts = if trims then map trim (pieces sep s) else pieces sep s in
          if delete_empty then keep_filled parts else parts)
  unfolding split_texts
  split_texts_lem s sep true true =
      keep_ranges-texts s (map (trim_copy s) (iter_split sep s)) (
        All-map_of (Within s) (Within s) (trim_copy s) (trim_within s) (iter_split sep s)
          (iter_split_within sep s))
      ∙ ap keep_filled (trimmed-texts s (iter_split sep s) ∙ ap (map trim) (iter_split_texts sep s))
  split_texts_lem s sep true false =
      trimmed-texts s (iter_split sep s) ∙ ap (map trim) (iter_split_texts sep s)
  split_texts_lem s sep false true =
      keep_ranges-texts s (iter_split sep s) (iter_split_within sep s)
      ∙ ap keep_filled (iter_split_texts sep s)
  split_texts_lem s sep false false = iter_split_texts sep s

keep_ranges-Within :
    (s : Bytes) (rs : List StrRange) → All (Within s) rs → All (Within s) (keep_ranges rs)
unfolding keep_ranges
keep_ranges-Within s [] h = tt
keep_ranges-Within s (r ∷ rs) (h, hs) = elim (Bool-cases (r.len == 0)) [
  | inl e ↦ rw e (keep_ranges-Within s rs hs)
  | inr ne ↦ rw ne (h, keep_ranges-Within s rs hs)
]

-- The parts lie inside the text.
pub split-Within :
    (boost : Splitter) (s : Bytes) (sep : ℕ) (trims delete_empty : Bool)
    → All (Within s) (split boost s sep trims delete_empty)
unfolding split
split-Within boost s sep true true =
    keep_ranges-Within s (map (boost.trim_copy s) (boost.iter_split sep s)) (
      All-map_of (Within s) (Within s) (boost.trim_copy s) (boost.trim_within s)
        (boost.iter_split sep s) (boost.iter_split_within sep s))
split-Within boost s sep true false =
    All-map_of (Within s) (Within s) (boost.trim_copy s) (boost.trim_within s)
      (boost.iter_split sep s) (boost.iter_split_within sep s)
split-Within boost s sep false true =
    keep_ranges-Within s (boost.iter_split sep s) (boost.iter_split_within sep s)
split-Within boost s sep false false = boost.iter_split_within sep s

shifted :
    (part : StrRange) (source : Bytes) (rs : List StrRange)
    → All (λ r. r.start + r.len ≤ part.len) rs
    → map (λ r. slice r source) (map (λ r. record { start = part.start + r.start; len = r.len }) rs)
      ≡ map (λ r. slice r (slice part source)) rs
shifted part source [] h = refl
shifted part source (r ∷ rs) (h, hs) =
    ap₂ (λ x l. x ∷ l)
      (ap (take r.len) (sym (drop-drop r.start part.start source))
        ∙ sym (take-drop-take part.len r.start r.len (drop part.start source) h))
      (shifted part source rs hs)

-- A part of a source is split as its text is.
pub split_part_texts :
    (boost : Splitter) (part : StrRange) (source : Bytes) (sep : ℕ) (trims delete_empty : Bool)
    → Within source part
    → map (λ r. slice r source) (split_part boost part source sep trims delete_empty)
      ≡ split_texts boost (slice part source) sep trims delete_empty
unfolding split_part split_texts
split_part_texts boost part source sep trims delete_empty w =
    shifted part source (split boost (slice part source) sep trims delete_empty) (
      subst
        (λ n.
          All (λ r. r.start + r.len ≤ n) (split boost (slice part source) sep trims delete_empty))
        (length-slice source part w)
        (split-Within boost (slice part source) sep trims delete_empty))
