-- ===== src/EntryPath/Grammar.antt =====
-- What the grammar of entry paths makes of a text without escapes, and that printing a path and
-- reading it again gives the path.
use dindexer.Common.{
  ℕ, arith, ◌≡◌, ◌≢◌, refl, ap, sym, ◌∙◌, inl, inr, some, List, [], ◌∷◌, ◌++◌, Bytes, All,
  All-append, Lacks, ◌==◌, ==→eq, Bool-cases, pieces, keep_filled, cons_head, pieces-separated,
  keep_filled_id, Filled, separated,
}
use dindexer.EntryPath.{
  EntryPath, Items, closed, with_chara, items_from, parse, push_piece, to_string, infix_slash,
}
use dindexer.EntryPath.Stack.{IsName, push_piece-appends}

-- The first of the pieces, and those of the others that are not empty.
abbrev split_head : List Bytes → Items
split_head [] = ([], [])
split_head (p ∷ ps) = (p, keep_filled ps)

closed-split_head : (ps : List Bytes) → closed (split_head ps) ≡ keep_filled ps
closed-split_head [] = refl
closed-split_head ([] ∷ ps) = refl
closed-split_head ((c ∷ p) ∷ ps) = refl

split_head-cons_head :
    (c : ℕ) (ps : List Bytes) → split_head (cons_head c ps) ≡ with_chara c (split_head ps)
split_head-cons_head c [] = refl
split_head-cons_head c (p ∷ ps) = refl

items_from-pieces : (s : Bytes) → Lacks b'\\' s → items_from 0 s ≡ split_head (pieces b'/' s)
unfolding items_from pieces
items_from-pieces [] h = refl
items_from-pieces (c ∷ s) (n, h) = elim (Bool-cases (c == b'/')) [
  | inl e ↦ rw (e) (
      ap (λ i. ([], closed i)) (items_from-pieces s h)
      ∙ ap (λ l. ([], l)) (closed-split_head (pieces b'/' s)))
  | inr ne ↦ elim (Bool-cases (c == b'\\')) [
    | inl e ↦ absurd (n (==→eq c b'\\' e))
    | inr ne' ↦
        rw (ne, ne')
          (ap (with_chara c) (items_from-pieces s h) ∙ sym (split_head-cons_head c (pieces b'/' s)))
  ]
]

-- A text without backslashes is cut into the parts between its slashes that are not empty.
pub parse-pieces : (s : Bytes) → Lacks b'\\' s → parse s ≡ some (keep_filled (pieces b'/' s))
unfolding parse
parse-pieces s h =
    ap (λ i. some (closed i)) (items_from-pieces s h) ∙ ap some (closed-split_head (pieces b'/' s))

-- An element of a stack that its text shows as it is.
abbrev pub IsPlain : Bytes → Type 0
IsPlain i = IsName i × Filled i × Lacks b'/' i × Lacks b'\\' i

abbrev pub Plain : EntryPath → Type 0
Plain p = All IsPlain p.stack

Lacks-append : (b : ℕ) (s t : Bytes) → Lacks b s → Lacks b t → Lacks b (s ++ t)
Lacks-append b s t = All-append (λ c. c ≢ b) s t

separated-Lacks : (ps : List Bytes) → All IsPlain ps → Lacks b'\\' (separated b'/' ps)
separated-Lacks [] h = tt
separated-Lacks (p ∷ ps) ((_, _, _, n), h) =
    (omega arith, Lacks-append b'\\' p (separated b'/' ps) n (separated-Lacks ps h))

parts_Plain :
    (ps : List Bytes) → All IsPlain ps → All IsName ps × All Filled ps × All (Lacks b'/') ps
parts_Plain [] h = (tt, tt, tt)
parts_Plain (p ∷ ps) ((n, f, l, _), h) =
    let (ns, fs, ls) = parts_Plain ps h in ((n, ns), (f, fs), (l, ls))

closed_items : (ps : List Bytes) → All IsPlain ps → closed (items_from 0 (separated b'/' ps)) ≡ ps
unfolding pieces
closed_items ps h =
    let (_, fs, ls) = parts_Plain ps h in
    ap closed (items_from-pieces (separated b'/' ps) (separated-Lacks ps h))
    ∙ closed-split_head (pieces b'/' (separated b'/' ps))
    ∙ kept ps fs ls
  where
    kept :
        (ps : List Bytes)
        → All Filled ps
        → All (Lacks b'/') ps
        → keep_filled (pieces b'/' (separated b'/' ps)) ≡ ps
    kept [] fs ls = refl
    kept (p ∷ ps) fs (l, ls) =
        ap keep_filled (pieces-separated b'/' p ps l ls) ∙ keep_filled_id (p ∷ ps) fs

to_string-items :
    (ps : List Bytes) → All IsPlain ps → closed (items_from 0 (b'/' ∷ infix_slash ps)) ≡ ps
unfolding items_from
to_string-items [] h = refl
to_string-items (p ∷ ps) h = closed_items (p ∷ ps) h

-- Pushing the text of an entry path onto any entry path gives the path back, if no element of its
-- stack is empty, is "." or "..", or has a slash or a backslash.
pub push_piece-to_string : (q p : EntryPath) → Plain p → push_piece q (to_string p) ≡ p
unfolding to_string
push_piece-to_string q p h =
    ap (λ l. record { stack = l })
      (push_piece-appends q (to_string p) p.stack (to_string-items p.stack h)
        (parts_Plain p.stack h).0)
