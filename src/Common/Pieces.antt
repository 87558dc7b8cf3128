-- ===== src/Common/Pieces.antt =====
-- The parts of a text between separators, as an independent description of what splitting gives.
use Prim.Native.Nat.{ℕ}
use mathlib.Core.Path.{◌≡◌, refl, ap, sym, ◌∙◌}
use mathlib.Core.Logic.{◌≢◌, inl, inr}
use mathlib.Core.List.{List, [], ◌∷◌, ◌++◌, append-nil}
use native.Mathlib.Omega.{arith}
use dindexer.Common.Tests.{◌==◌, if◌then◌else◌, Bool-cases, ==→eq}
use dindexer.Common.Lists.{drop, All}
use dindexer.Common.ByteText.{Bytes, Lacks}

abbrev pub cons_head : ℕ → List Bytes → List Bytes
cons_head c [] = (c ∷ []) ∷ []
cons_head c (p ∷ ps) = (c ∷ p) ∷ ps

-- The parts between the separators, empty ones included; an empty text is one empty part.
unfoldable pub pieces : ℕ → Bytes → List Bytes
pieces sep [] = [] ∷ []
pieces sep (c ∷ s) = let ps = pieces sep s in if c == sep then [] ∷ ps else cons_head c ps

-- The parts that are not empty.
abbrev pub keep_filled : List Bytes → List Bytes
keep_filled [] = []
keep_filled ([] ∷ ps) = keep_filled ps
keep_filled ((c ∷ p) ∷ ps) = (c ∷ p) ∷ keep_filled ps

abbrev pub Filled : Bytes → Type 0
Filled p = p ≢ []

-- A separator in front of each part.
abbrev pub separated : ℕ → List Bytes → Bytes
separated sep [] = []
separated sep (p ∷ ps) = sep ∷ (p ++ separated sep ps)

pub pieces-sep :
    (sep : ℕ) (p r : Bytes) → Lacks sep p → pieces sep (p ++ sep ∷ r) ≡ p ∷ pieces sep r
unfolding pieces
pieces-sep sep [] r h = ground arith
pieces-sep sep (c ∷ p) r (hc, h) = ground (arith, pieces-sep sep p r h)

pub pieces_whole : (sep : ℕ) (p : Bytes) → Lacks sep p → pieces sep p ≡ p ∷ []
unfolding pieces
pieces_whole sep [] h = refl
pieces_whole sep (c ∷ p) (hc, h) = ground (arith, pieces_whole sep p h)

-- The pieces of a text are never none, lack the separator and spell the text.
pub pieces-cons : (sep : ℕ) (s : Bytes) → (p : Bytes) × (ps : List Bytes) × (pieces sep s ≡ p ∷ ps)
unfolding pieces
pieces-cons sep [] = ([], [], refl)
pieces-cons sep (c ∷ s) = elim (Bool-cases (c == sep)) [
  | inl e ↦ ([], pieces sep s, rw e)
  | inr ne ↦ let (p, ps, h) = pieces-cons sep s in (c ∷ p, ps, rw (ne, h))
]

cons_head-Lacks :
    (sep c : ℕ) (ps : List Bytes) → c ≢ sep → All (Lacks sep) ps → All (Lacks sep) (cons_head c ps)
cons_head-Lacks sep c [] h a = ((h, tt), tt)
cons_head-Lacks sep c (p ∷ ps) h (a, as') = ((h, a), as')

pub pieces-Lacks : (sep : ℕ) (s : Bytes) → All (Lacks sep) (pieces sep s)
unfolding pieces
pieces-Lacks sep [] = (tt, tt)
pieces-Lacks sep (c ∷ s) = elim (Bool-cases (c == sep)) [
  | inl e ↦ rw e (tt, pieces-Lacks sep s)
  | inr ne ↦ rw ne (cons_head-Lacks sep c (pieces sep s) (ground arith) (pieces-Lacks sep s))
]

pub separated-pieces : (sep : ℕ) (s : Bytes) → separated sep (pieces sep s) ≡ sep ∷ s
unfolding pieces
separated-pieces sep [] = refl
separated-pieces sep (c ∷ s) = elim (Bool-cases (c == sep)) [
  | inl e ↦ rw e (rw (==→eq c sep e) (ap (λ l. sep ∷ l) (separated-pieces sep s)))
  | inr ne ↦
      let (p, ps, h) = pieces-cons sep s in
      let ih : sep ∷ (p ++ separated sep ps) ≡ sep ∷ s =
        ap (separated sep) (sym h) ∙ separated-pieces sep s in
      rw (ne, h) (ap (λ l. sep ∷ c ∷ drop 1 l) ih)
]

pub keep_filled-Filled : (ps : List Bytes) → All Filled (keep_filled ps)
keep_filled-Filled [] = tt
keep_filled-Filled ([] ∷ ps) = keep_filled-Filled ps
keep_filled-Filled ((c ∷ p) ∷ ps) = ((λ e. cc), keep_filled-Filled ps)

pub keep_filled-All {κ} : (P : Bytes → Type κ) (ps : List Bytes) → All P ps → All P (keep_filled ps)
keep_filled-All P [] h = tt
keep_filled-All P ([] ∷ ps) (_, h) = keep_filled-All P ps h
keep_filled-All P ((c ∷ p) ∷ ps) (x, h) = (x, keep_filled-All P ps h)

-- Splitting what separators join gives the parts back.
pub pieces-separated :
    (sep : ℕ) (p : Bytes) (ps : List Bytes)
    → Lacks sep p
    → All (Lacks sep) ps
    → pieces sep (p ++ separated sep ps) ≡ p ∷ ps
pieces-separated sep p [] h hs = ap (pieces sep) (append-nil p) ∙ pieces_whole sep p h
pieces-separated sep p (q ∷ ps) h (hq, hs) =
    pieces-sep sep p (q ++ separated sep ps) h ∙ ap (λ l. p ∷ l) (pieces-separated sep q ps hq hs)

pub keep_filled_id : (ps : List Bytes) → All Filled ps → keep_filled ps ≡ ps
keep_filled_id [] h = refl
keep_filled_id ([] ∷ ps) (x, h) = absurd (x refl)
keep_filled_id ((c ∷ p) ∷ ps) (x, h) = ap (λ l. (c ∷ p) ∷ l) (keep_filled_id ps h)
