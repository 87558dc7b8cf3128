-- ===== src/PathName/Parse.antt =====
-- The constructor: `split_path` finds the parts between the slashes.
use mathlib.Core.Option
use dindexer.Common.{
  ℕ, zero, suc, ◌+◌, ◌≤◌, ◌<◌, ◌≡◌, ◌≢◌, refl, sym, subst, ap, ap₂, ◌∙◌, Bool, true, false, inl,
  inr, Option, none, some, List, [], ◌∷◌, ◌++◌, map, append_assoc, append-nil, map-append, arith,
  Bytes, length, length-drop, take_all, drop-drop, take, drop, ◌==◌, Bool-cases, ==→eq, ==_suc_zero,
  Lacks, All, Option-cases, pieces, pieces_whole, pieces-sep, pieces-separated, keep_filled,
  keep_filled_id, Filled, StrRange, slice, separated,
}
use dindexer.Boost.{StringFind}
use dindexer.StringPool.{empty_pool}
use dindexer.StringPool.Valid.{empty_pool-IsValid}
use dindexer.StringPool.Update.{insert-IsValid, texts-insert}
use dindexer.PathName.{
  PathName, slash, find_byte, push_range, split_loop, split_path, path_name, begins_with_slash,
  path,
}
use dindexer.PathName.Atoms.{atoms_of, HasAtoms}
use dindexer.PathName.Joint.{joined, path-joined}

-- What `find_byte` found.
abbrev FindOutcome : ℕ → Bytes → Option ℕ → Type 0
FindOutcome b s none = Lacks b s
FindOutcome b s (some n) =
    Lacks b (take n s) × (s ≡ take n s ++ b ∷ drop (suc n) s) × (n < length s)

FindOutcome-cons :
    (b c : ℕ) (s : Bytes) (o : Option ℕ)
    → c ≢ b
    → FindOutcome b s o
    → FindOutcome b (c ∷ s) (Option.map suc o)
FindOutcome-cons b c s none h f = (h, f)
FindOutcome-cons b c s (some n) h (l, e, lt) = ((h, l), ap (λ r. c ∷ r) e, omega arith)

find_byte_lem : (b : ℕ) (s : Bytes) → FindOutcome b s (find_byte b s)
unfolding find_byte
find_byte_lem b [] = tt
find_byte_lem b (c ∷ s) = elim (Bool-cases (c == b)) [
  | inl e ↦ rw (e, find_byte) (tt, ap (λ r. r ∷ s) (==→eq c b e), omega arith)
  | inr ne ↦
      rw (ne, find_byte) (FindOutcome-cons b c s (find_byte b s) (ground arith) (find_byte_lem b s))
]

-- The atoms of a text: its parts between slashes that are not empty.
abbrev pub components : Bytes → List Bytes
components s = keep_filled (pieces slash s)

module _ (whole : Bytes) where
  spans : List StrRange → List Bytes
  spans = map (λ r. slice r whole)

spans-push :
    (whole : Bytes) (from n : ℕ) (out : List StrRange)
    → n ≤ length (drop from whole)
    → spans whole (push_range from n out)
      ≡ spans whole out ++ keep_filled (take n (drop from whole) ∷ [])
unfolding spans
spans-push whole from zero out h = sym (append-nil _)
spans-push whole from (suc n) out h = rw (==_suc_zero n) (
    map-append (λ r. slice r whole) out (record { start = from; len = suc n } ∷ [])
    ∙ ap (λ l. spans whole out ++ l) (filled (drop from whole) h))
  where
    filled :
        (s : Bytes) → suc n ≤ length s → take (suc n) s ∷ [] ≡ keep_filled (take (suc n) s ∷ [])
    filled [] h = absurd (omega arith)
    filled (c ∷ s) h = refl

keep_filled-cons :
    (p : Bytes) (ps : List Bytes) → keep_filled (p ∷ ps) ≡ keep_filled (p ∷ []) ++ keep_filled ps
keep_filled-cons [] ps = refl
keep_filled-cons (c ∷ p) ps = refl

components_found :
    (s : Bytes) (n : ℕ)
    → FindOutcome slash s (some n)
    → components s ≡ keep_filled (take n s ∷ []) ++ components (drop (suc n) s)
components_found s n (l, e, lt) =
    ap components e
    ∙ ap keep_filled (pieces-sep slash (take n s) (drop (suc n) s) l)
    ∙ keep_filled-cons (take n s) (pieces slash (drop (suc n) s))

-- With more fuel than bytes left, the loop finds the rest of the components.
split_loop_lem :
    (fuel : ℕ) (whole : Bytes) (from : ℕ) (out : List StrRange)
    → length (drop from whole) < fuel
    → spans whole (split_loop fuel from (drop from whole) out)
      ≡ spans whole out ++ components (drop from whole)
unfolding split_loop
split_loop_lem zero whole from out h = elim h [ ]
split_loop_lem (suc fuel) whole from out h = elim (Option-cases (find_byte slash s)) [
  | inl e ↦
      rw (e, split_loop)
        (spans-push whole from (length s) out (omega arith)
          ∙ ap (λ t. spans whole out ++ keep_filled (t ∷ [])) (take_all s)
          ∙ ap (λ l. spans whole out ++ keep_filled l)
              (sym (pieces_whole slash s (subst (FindOutcome slash s) e (find_byte_lem slash s)))))
  | inr (n, e) ↦
      found (split_loop_lem fuel whole) n e (subst (FindOutcome slash s) e (find_byte_lem slash s))
]
  where
    s : Bytes
    s = drop from whole

    found :
        ((from : ℕ) (out : List StrRange)
          → length (drop from whole) < fuel
          → spans whole (split_loop fuel from (drop from whole) out)
            ≡ spans whole out ++ components (drop from whole))
        → (n : ℕ) → find_byte slash s ≡ some n
        → FindOutcome slash s (some n)
        → spans whole (split_loop (suc fuel) from s out) ≡ spans whole out ++ components s
    found ih n e f =
        let at : from + (n + 1) ≡ from + n + 1 = omega arith in
        let one : n + 1 ≡ suc n = omega arith in
        let more : drop (n + 1) s ≡ drop (from + n + 1) whole =
          drop-drop (n + 1) from whole ∙ ap (λ k. drop k whole) at in
        let tail : drop (from + n + 1) whole ≡ drop (suc n) s = sym more ∙ ap (λ k. drop k s) one in
        rw (e, split_loop, more)
          (ih (from + n + 1) (push_range from n out)
              (omega (arith, ap length more, length-drop (n + 1) s, f.2))
            ∙ ap₂ (λ a b. a ++ components b) (spans-push whole from n out (omega (arith, f.2))) tail
            ∙ append_assoc (spans whole out) _ _
            ∙ ap (λ l. spans whole out ++ l) (sym (components_found s n f)))

-- For every text, the ranges of `split_path` span its parts between slashes that are not empty, in
-- order. The fuel is enough for that.
pub split_path-components : (s : Bytes) → map (λ r. slice r s) (split_path s) ≡ components s
unfolding split_path spans
split_path-components s = split_loop_lem (suc (length s)) s 0 [] (omega arith)

module _ (find : StringFind) where
  pub path_name-HasAtoms : (s : Bytes) → HasAtoms (path_name find s)
  unfolding path_name
  path_name-HasAtoms [] = empty_pool-IsValid
  path_name-HasAtoms (c ∷ s) =
      insert-IsValid find empty_pool (split_path (c ∷ s)) (c ∷ s) empty_pool-IsValid

  -- The atoms of a path are the parts of the text between slashes that are not empty, and it is
  -- absolute exactly when the text begins with a slash.
  pub path_name-components :
      (s : Bytes)
      → (atoms_of (path_name find s) ≡ components s)
        × ((path_name find s).absolute ≡ begins_with_slash s)
  unfolding path_name pieces
  path_name-components [] = (refl, refl)
  path_name-components (c ∷ s) = (
    texts-insert find empty_pool (split_path (c ∷ s)) (c ∷ s) empty_pool-IsValid
        ∙ split_path-components (c ∷ s),
    refl,
  )

  begins-joined :
      (abs : Bool) (as' : List Bytes)
      → All Filled as'
      → All (Lacks slash) as'
      → begins_with_slash (joined abs as') ≡ abs
  begins-joined true [] f l = refl
  begins-joined true (a ∷ as') f l = refl
  begins-joined false [] f l = refl
  begins-joined false ([] ∷ as') (f, _) l = absurd (f refl)
  begins-joined false ((c ∷ a) ∷ as') f ((l, _), _) = ground arith

  components-joined :
      (abs : Bool) (as' : List Bytes)
      → All Filled as'
      → All (Lacks slash) as'
      → components (joined abs as') ≡ as'
  unfolding pieces
  components-joined true [] f l = refl
  components-joined false [] f l = refl
  components-joined true (a ∷ as') f (l, ls) =
      ap keep_filled (
        pieces-sep slash [] (a ++ separated slash as') tt
        ∙ ap (λ ps. [] ∷ ps) (pieces-separated slash a as' l ls))
      ∙ keep_filled_id (a ∷ as') f
  components-joined false (a ∷ as') f (l, ls) =
      ap keep_filled (pieces-separated slash a as' l ls) ∙ keep_filled_id (a ∷ as') f

  -- A path that is written and read again has the same atoms, and is absolute exactly if it was, if
  -- no atom is empty or holds a slash.
  pub path_name-path :
      (p : PathName)
      → All Filled (atoms_of p)
      → All (Lacks slash) (atoms_of p)
      → (atoms_of (path_name find (path p)) ≡ atoms_of p)
        × ((path_name find (path p)).absolute ≡ p.absolute)
  path_name-path p f l =
      let h = path_name-components (path p) in
      (
        h.0 ∙ ap components (path-joined p) ∙ components-joined p.absolute (atoms_of p) f l,
        h.1 ∙ ap begins_with_slash (path-joined p) ∙ begins-joined p.absolute (atoms_of p) f l,
      )
