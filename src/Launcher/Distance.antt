-- ===== src/Launcher/Distance.antt =====
-- src/main/damerau_levenshtein.c and `find_similar` of main.c: how far apart two texts are. The table
-- is a function of its two indices, which the source writes into one; numbers are not negative, and -1
-- for an index, or for costs that the algorithm does not support, is `none`.
use dindexer.Common.{
  ℕ, zero, suc, ◌+◌, ◌-◌, ◌*◌, ◌^◌, min, Bool, true, ◌&&◌, Option, some, none, List, [], ◌∷◌, Bytes,
  length, ltb, leb, ◌==◌, if◌then◌else◌,
}
use mathlib.Core.Option
use dindexer.Launcher.Utf8.{utf8_strlen, utf8_advance}

pub record Costs : Type 0 where
  pub delete : ℕ
  pub insert : ℕ
  pub replace : ℕ
  pub swap : ℕ

abbrev pub Table : Type 0
Table = ℕ → ℕ → ℕ

-- The table with another entry.
abbrev pub put : Table → ℕ → ℕ → ℕ → Table
put table i j v a b = if (a == i) && (b == j) then v else table a b

-- The map from characters to their last index, the newest pair first.
abbrev pub IndexMap : Type 0
IndexMap = List (ℕ × ℕ)

abbrev pub insert_pair : IndexMap → ℕ → ℕ → IndexMap
insert_pair m key v = (key, v) ∷ m

unfoldable pub get_value : IndexMap → ℕ → Option ℕ
get_value [] key = none
get_value ((k, v) ∷ m) key = let rest = get_value m key in if k == key then some v else rest

abbrev pub int_max : ℕ
int_max = 2 ^ 31 - 1

-- A sum as an int. C leaves it open what a greater one is; 0 stands for that.
unfoldable pub as_int : ℕ → ℕ
as_int n = if leb n int_max then n else 0

-- A character that differs costs a replacement.
abbrev pub replaced : Costs → ℕ → ℕ → ℕ
replaced cost a b = if a == b then 0 else cost.replace

module _ (cost : Costs) where
  -- The row of the first target character, for the source characters from an index on.
  unfoldable pub fill_sources : ℕ → ℕ → List ℕ → Table → Table
  fill_sources target_0 i [] table = table
  fill_sources target_0 i (c ∷ cs) table = fill_sources target_0 (suc i) cs (
      put table i 0 (
        min
          (min (as_int (table (i - 1) 0 + cost.delete))
            (as_int ((i + 1) * cost.delete + cost.insert)))
          (as_int (i * cost.delete + replaced cost c target_0))))

  -- The same for the first source character.
  unfoldable pub fill_targets : ℕ → ℕ → List ℕ → Table → Table
  fill_targets source_0 j [] table = table
  fill_targets source_0 j (c ∷ cs) table = fill_targets source_0 (suc j) cs (
      put table 0 j (
        min
          (min (as_int ((j + 1) * cost.insert + cost.delete))
            (as_int (table 0 (j - 1) + cost.insert)))
          (as_int (j * cost.insert + replaced cost source_0 c))))

  abbrev pub pre_swap_cost : Table → ℕ → ℕ → ℕ
  pre_swap_cost table i_swap j_swap =
      if (i_swap == 0) && (j_swap == 0) then 0 else table (i_swap - 1) (j_swap - 1)

  abbrev pub swap_distance : Table → ℕ → ℕ → Option ℕ → Option ℕ → ℕ
  swap_distance table i j (some i_swap) (some j_swap) = as_int (
      pre_swap_cost table i_swap j_swap
      + (i - i_swap - 1) * cost.delete
      + (j - j_swap - 1) * cost.insert
      + cost.swap)
  swap_distance table i j (some i_swap) none = int_max
  swap_distance table i j none j_swap = int_max

  -- One entry: the least of the four distances.
  abbrev pub entry : Table → ℕ → ℕ → ℕ → ℕ → Option ℕ → Option ℕ → ℕ
  entry table i j source_char target_char candidate j_swap =
      min
        (min (min (as_int (table (i - 1) j + cost.delete)) (as_int (table i (j - 1) + cost.insert)))
          (as_int (table (i - 1) (j - 1) + replaced cost source_char target_char)))
        (swap_distance table i j candidate j_swap)

  -- The entries of one source character; the last argument but one is the last index whose target
  -- character was the same.
  unfoldable pub fill_row : ℕ → ℕ → IndexMap → ℕ → List ℕ → Option ℕ → Table → Table
  unfolding get_value
  fill_row i source_char m j [] last_match table = table
  fill_row i source_char m j (c ∷ cs) last_match table =
      fill_row i source_char m (suc j) cs (if source_char == c then some j else last_match)
        (put table i j (entry table i j source_char c (get_value m c) last_match))

  unfoldable pub fill_rows : ℕ → List ℕ → ℕ → List ℕ → IndexMap → Table → Table
  unfolding fill_row
  fill_rows i [] target_0 targets m table = table
  fill_rows i (c ∷ cs) target_0 targets m table =
      fill_rows (suc i) cs target_0 targets (insert_pair m c i)
        (fill_row i c m 1 targets (if c == target_0 then some 0 else none) table)

  -- The first entry, on a table of zeros.
  abbrev pub first_entry : ℕ → ℕ → Table
  first_entry a b =
      put (λ i j. 0) 0 0
        (if a == b then 0 else min cost.replace (as_int (cost.delete + cost.insert)))

  -- The characters of two texts that are not empty.
  unfoldable pub filled_table : ℕ → List ℕ → ℕ → List ℕ → Table
  unfolding fill_sources fill_targets fill_rows
  filled_table a as' b bs =
      fill_rows 1 as' b bs (insert_pair [] a 0)
        (fill_targets a 1 bs (fill_sources b 1 as' (first_entry a b)))

  unfoldable pub distance : List ℕ → List ℕ → ℕ
  unfolding filled_table
  distance [] target = as_int (length target * cost.insert)
  distance (a ∷ as') [] = as_int (suc (length as') * cost.delete)
  distance (a ∷ as') (b ∷ bs) = filled_table a as' b bs (length as') (length bs)

  -- `none` stands for the result -1.
  unfoldable pub distance_of : List ℕ → List ℕ → Option ℕ
  unfolding distance
  distance_of source target =
      if ltb (as_int (2 * cost.swap)) (as_int (cost.insert + cost.delete))
      then none
      else some (distance source target)

-- The first characters of a text, as many as are asked for.
unfoldable pub characters : ℕ → Bytes → List ℕ
unfolding utf8_advance
characters zero s = []
characters (suc n) s = let (c, r) = utf8_advance s in c ∷ characters n r

unfoldable pub damerau_levenshtein_with_size : Costs → Bytes → ℕ → Bytes → ℕ → Option ℕ
unfolding distance_of characters
damerau_levenshtein_with_size cost source n target m =
    distance_of cost (characters n source) (characters m target)

-- What is done with the lengths of the two texts; `none` if a length is none.
abbrev pub with_lengths {ℓ} : {A : Type ℓ} → Option ℕ → Option ℕ → (ℕ → ℕ → A) → Option A
with_lengths (some n) (some m) f = some (f n m)
with_lengths (some n) none f = none
with_lengths none m f = none

unfoldable pub damerau_levenshtein : Costs → Bytes → Bytes → Option (Option ℕ)
unfolding damerau_levenshtein_with_size utf8_strlen
damerau_levenshtein cost source target =
    with_lengths (utf8_strlen source) (utf8_strlen target)
      (λ n m. damerau_levenshtein_with_size cost source n target m)

abbrev pub unit_costs : Costs
unit_costs = record { delete = 1; insert = 1; replace = 1; swap = 1 }

-- -1 is not more than 2.
abbrev pub at_most_two : Option ℕ → Bool
at_most_two none = true
at_most_two (some d) = leb d 2

unfoldable pub find_similar : Bytes → Bytes → Option Bool
unfolding damerau_levenshtein
find_similar input action = Option.map at_most_two (damerau_levenshtein unit_costs input action)
