-- ===== src/Tests/Boost.antt =====
-- Plain versions of the text operations that the program takes from Boost, with the laws that the
-- interfaces ask for.
use dindexer.Common.{
  ℕ, zero, suc, ◌+◌, ◌≤◌, ◌≡◌, refl, ap, sym, ◌∙◌, subst, inl, inr, true, Option, some, none, List,
  [], ◌∷◌, ◌++◌, map, arith, Bytes, substr, length, take, drop, All, StrRange, slice, pieces,
  separated, keep_filled, separated-pieces, bytes_eq, bytes_eq→eq, length-take, length-drop,
  length-append, drop-drop, take-drop-take, take-append_length, drop-append_length, if◌then◌else◌,
  ◌==◌, ◌&&◌, Bool-cases, Option-cases,
}
use mathlib.Core.Option
use dindexer.Boost.{StringFind, Splitter, Within}
use dindexer.Split.{split_texts, split_texts_lem}

unfoldable pub find_text : Bytes → Bytes → Option ℕ
find_text [] t = if bytes_eq [] t then some 0 else none
find_text (c ∷ s) t =
    let rest = Option.map suc (find_text s t) in
    if bytes_eq (take (length t) (c ∷ s)) t then some 0 else rest

-- An occurrence at an index, inside the text.
pub record Occurs (s t : Bytes) (i : ℕ) : Type 0 where
  pub inside : i + length t ≤ length s
  pub same : substr i (length t) s ≡ t

Occurs-front : (s t : Bytes) → bytes_eq (take (length t) s) t ≡ true → Occurs s t 0
Occurs-front s t h =
    let e : take (length t) s ≡ t = bytes_eq→eq (take (length t) s) t h in
    record { inside = omega (arith, length-take (length t) s, ap length e); same = e }

Occurs-later : (c : ℕ) (s t : Bytes) (i : ℕ) → Occurs s t i → Occurs (c ∷ s) t (suc i)
Occurs-later c s t i o = record { inside = omega (arith, o.inside); same = o.same }

some_injective : (i j : ℕ) → some i ≡ some j → i ≡ j
some_injective i j h = cc

pub find_text-Occurs : (s t : Bytes) (i : ℕ) → find_text s t ≡ some i → Occurs s t i
unfolding find_text
find_text-Occurs [] t i h = elim (Bool-cases (bytes_eq [] t)) [
  | inl e ↦
      let z : 0 ≡ i = some_injective 0 i (rw e at h) in
      subst (Occurs [] t) z (record {
        inside = omega (arith, ap length (bytes_eq→eq [] t e));
        same = empty_part (length t) ∙ bytes_eq→eq [] t e;
      })
  | inr ne ↦ cc (rw ne at h)
]
  where
    empty_part : (n : ℕ) → substr 0 n [] ≡ []
    empty_part zero = refl
    empty_part (suc n) = refl
find_text-Occurs (c ∷ s) t i h = elim (Bool-cases (bytes_eq (take (length t) (c ∷ s)) t)) [
  | inl e ↦
      let z : 0 ≡ i = some_injective 0 i (rw e at h) in
      subst (Occurs (c ∷ s) t) z (Occurs-front (c ∷ s) t e)
  | inr ne ↦ elim (Option-cases (find_text s t)) [
    | inl n ↦ cc (rw (ne, n) at h)
    | inr (j, e) ↦
        let z : suc j ≡ i = some_injective (suc j) i (rw (ne, e) at h) in
        subst (Occurs (c ∷ s) t) z (Occurs-later c s t j (find_text-Occurs s t j e))
  ]
]

abbrev pub string_find : StringFind
string_find = record {
  find = find_text;
  find_within = λ s t i h. (find_text-Occurs s t i h).inside;
  find_occurs = λ s t i h. (find_text-Occurs s t i h).same;
}

-- The ranges of parts that begin at an offset, with a separator between them.
ranges_from : ℕ → List Bytes → List StrRange
ranges_from k [] = []
ranges_from k (p ∷ ps) = record { start = k; len = length p } ∷ ranges_from (k + length p + 1) ps

record Spans (s : Bytes) (rs : List StrRange) (ps : List Bytes) : Type 0 where
  within : All (Within s) rs
  parts : map (λ r. slice r s) rs ≡ ps

ranges_from-Spans :
    (sep : ℕ) (s : Bytes) (k : ℕ) (ps : List Bytes)
    → drop k (sep ∷ s) ≡ separated sep ps
    → Spans s (ranges_from k ps) ps
unfolding ranges_from
ranges_from-Spans sep s k [] h = record { within = tt; parts = refl }
ranges_from-Spans sep s k (p ∷ ps) h =
    let rest : drop k s ≡ p ++ separated sep ps =
      sym (drop-drop 1 k (sep ∷ s) ∙ ap (λ n. drop n (sep ∷ s)) (plus_one k)) ∙ ap (drop 1) h in
    let ih : Spans s (ranges_from (k + length p + 1) ps) ps =
      ranges_from-Spans sep s (k + length p + 1) ps (next rest) in
    record {
      within = (
        omega (
          arith,
          length-drop k s,
          length-drop k (sep ∷ s),
          ap length rest,
          length-append p (separated sep ps),
          ap length h,
        ),
        ih.within,
      );
      parts =
          rw (ih.parts) (
            ap (λ q. q ∷ ps) (ap (take (length p)) rest ∙ take-append_length p (separated sep ps)));
    }
  where
    plus_one : (n : ℕ) → n + 1 ≡ suc n
    plus_one n = omega arith

    next : drop k s ≡ p ++ separated sep ps → drop (k + length p + 1) (sep ∷ s) ≡ separated sep ps
    next rest =
        ap (λ n. drop n (sep ∷ s)) (plus_one (k + length p))
        ∙ sym (drop-drop (length p) k s)
        ∙ ap (drop (length p)) rest
        ∙ drop-append_length p (separated sep ps)

split_ranges : ℕ → Bytes → List StrRange
split_ranges sep s = ranges_from 0 (pieces sep s)

split_ranges-Spans : (sep : ℕ) (s : Bytes) → Spans s (split_ranges sep s) (pieces sep s)
unfolding split_ranges
split_ranges-Spans sep s = ranges_from-Spans sep s 0 (pieces sep s) (sym (separated-pieces sep s))

-- The number of leading blanks, and the length without trailing ones.
unfoldable pub lead : Bytes → ℕ
lead [] = 0
lead (c ∷ s) = let rest = suc (lead s) in if c == b' ' then rest else 0

unfoldable pub kept : Bytes → ℕ
kept [] = 0
kept (c ∷ s) = let rest = kept s in if (rest == 0) && (c == b' ') then 0 else suc rest

kept-le : (s : Bytes) → kept s ≤ length s
unfolding kept
kept-le [] = omega arith
kept-le (c ∷ s) = ground (arith, kept-le s)

lead-le : (s : Bytes) → lead s ≤ length s
unfolding lead
lead-le [] = omega arith
lead-le (c ∷ s) = ground (arith, lead-le s)

unfoldable pub trim_text : Bytes → Bytes
trim_text t = substr (lead t) (kept (drop (lead t) t)) t

trim_range : Bytes → StrRange → StrRange
trim_range s r = record {
  start = r.start + lead (slice r s);
  len = kept (drop (lead (slice r s)) (slice r s));
}

inside_part :
    (s : Bytes) (r : StrRange)
    → lead (slice r s) + kept (drop (lead (slice r s)) (slice r s)) ≤ r.len
inside_part s r = omega (
  arith,
  lead-le (slice r s),
  kept-le (drop (lead (slice r s)) (slice r s)),
  length-drop (lead (slice r s)) (slice r s),
  length-take r.len (drop r.start s),
)

trim_range-Within : (s : Bytes) (r : StrRange) → Within s r → Within s (trim_range s r)
unfolding trim_range
trim_range-Within s r h = omega (arith, h, inside_part s r)

trim_range-text : (s : Bytes) (r : StrRange) → slice (trim_range s r) s ≡ trim_text (slice r s)
unfolding trim_range trim_text
trim_range-text s r =
    let a = lead (slice r s) in
    let b = kept (drop a (slice r s)) in
    ap (take b) (sym (drop-drop a r.start s))
    ∙ sym (take-drop-take r.len a b (drop r.start s) (inside_part s r))

pub splitter : Splitter
splitter = record {
  iter_split = split_ranges;
  iter_split_within = λ sep s. (split_ranges-Spans sep s).within;
  iter_split_texts = λ sep s. (split_ranges-Spans sep s).parts;
  trim_copy = trim_range;
  trim = trim_text;
  trim_within = trim_range-Within;
  trim_texts = trim_range-text;
}

-- The parts that this instance gives.
pub split_texts-splitter :
    (s : Bytes) (sep : ℕ)
    → split_texts splitter s sep true true ≡ keep_filled (map trim_text (pieces sep s))
unfolding splitter
split_texts-splitter s sep = split_texts_lem splitter s sep true true
