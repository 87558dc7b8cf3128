-- ===== src/Launcher/Similar.antt =====
-- The action that is proposed for a misspelled one.
use dindexer.Common.{
  ℕ, zero, suc, arith, ◌+◌, ◌≤◌, ◌≡◌, refl, ap, ap₂, ◌∙◌, Bool, true, some, List, Bytes, All,
  length, leb,
}
use mathlib.Core.Option
use dindexer.Launcher.Utf8.{utf8_advance}
use dindexer.Launcher.Sequences.{Sequence, IsSequence, text_of, utf8_strlen-length}
use dindexer.Launcher.Distance.{
  unit_costs, int_max, characters, distance_of, damerau_levenshtein, damerau_levenshtein_with_size,
  with_lengths, at_most_two, find_similar,
}
use dindexer.Launcher.Rows.{distance_of-length}

length-characters : (n : ℕ) (s : Bytes) → length (characters n s) ≡ n
unfolding characters
length-characters zero s = refl
length-characters (suc n) s = ap suc (length-characters n (utf8_advance s).1)

-- For two texts of well-formed characters, the sum of whose numbers an int holds, `find_similar`
-- has a result, and texts that it takes for similar differ by at most two in their numbers of
-- characters.
pub find_similar-length :
    (qs ps : List Sequence)
    → All IsSequence qs
    → All IsSequence ps
    → length qs + length ps ≤ int_max
    → (b : Bool) × (find_similar (text_of qs) (text_of ps) ≡ some b)
      × (b ≡ true → (length qs ≤ 2 + length ps) × (length ps ≤ 2 + length qs))
unfolding find_similar damerau_levenshtein damerau_levenshtein_with_size
find_similar-length qs ps hq hp small_ =
    let (d, e, f, g) =
      distance_of-length (characters (length qs) (text_of qs)) (characters (length ps) (text_of ps))
        (omega (
          arith,
          length-characters (length qs) (text_of qs),
          length-characters (length ps) (text_of ps),
        )) in
    (
      leb d 2,
      ap₂
            (λ n m. Option.map at_most_two (
              with_lengths n m (λ a b.
                distance_of unit_costs (characters a (text_of qs)) (characters b (text_of ps)))))
            (utf8_strlen-length qs hq) (utf8_strlen-length ps hp)
          ∙ ap (λ o. some (at_most_two o)) e,
      λ small.
          let two : d ≤ 2 = ground arith in
          (
            omega (
              arith,
              two,
              f,
              length-characters (length qs) (text_of qs),
              length-characters (length ps) (text_of ps),
            ),
            omega (
              arith,
              two,
              g,
              length-characters (length qs) (text_of qs),
              length-characters (length ps) (text_of ps),
            ),
          ),
    )
