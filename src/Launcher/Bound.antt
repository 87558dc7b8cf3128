-- ===== src/Launcher/Bound.antt =====
-- Entries of the table are no less than the difference of their indices.
use dindexer.Common.{
  ℕ, suc, arith, ◌+◌, ◌-◌, ◌*◌, ◌≤◌, ◌<◌, ◌≡◌, ◌≢◌, ◌⊎◌, refl, inl, inr, min, ◌&&◌, Option, some,
  none, List, [], ◌∷◌, length, ◌==◌, ==→eq, Bool-cases, leb, true,
}
use dindexer.Launcher.Distance.{
  unit_costs, Table, put, int_max, as_int, replaced, fill_sources, fill_targets, swap_distance,
  entry,
}

-- A value at two indices is no less than their difference.
abbrev pub Low : ℕ → ℕ → ℕ → Type 0
Low a b v = (a ≤ v + b) × (b ≤ v + a)

-- And it is no more than their sum and one.
abbrev pub Far : ℕ → ℕ → ℕ → Type 0
Far a b v = (a ≤ v + b) × (b ≤ v + a) × (v ≤ a + b + 1)

pub as_int-small : (n : ℕ) → n ≤ int_max → as_int n ≡ n
unfolding as_int
as_int-small n h = let small : leb n int_max ≡ true = ground arith in rw small refl

pub put-Far :
    (t : Table) (i j v a b : ℕ)
    → Far i j v
    → ((a ≡ i → b ≡ j → ⊥) → Far a b (t a b))
    → Far a b (put t i j v a b)
put-Far t i j v a b f g = elim (Bool-cases (a == i)) [
  | inr n ↦ rw (n) (g (λ e e'. ground arith))
  | inl e ↦ elim (Bool-cases (b == j)) [
    | inr n ↦ rw (e, n) (g (λ e e'. ground arith))
    | inl e' ↦
        rw (e, e')
          (
            omega (arith, f.0, ==→eq a i e, ==→eq b j e'),
            omega (arith, f.1, ==→eq a i e, ==→eq b j e'),
            omega (arith, f.2, ==→eq a i e, ==→eq b j e'),
          )
  ]
]

min-Far : (a b v w : ℕ) → Far a b v → Far a b w → Far a b (min v w)
min-Far a b v w (f, g, u) (h, k, t) = (omega arith, omega arith, omega arith)

min-Low : (a b v w : ℕ) → Far a b v → Low a b w → Far a b (min v w)
min-Low a b v w (f, g, u) (h, k) = (omega arith, omega arith, omega arith)

replaced_le : (a b : ℕ) → replaced unit_costs a b ≤ 1
replaced_le a b = ground arith

-- The first row.
abbrev pub Sources : ℕ → Table → Type 0
Sources n t = (a : ℕ) → a < n → Far a 0 (t a 0)

pub fill_sources-Far :
    (target_0 i : ℕ) (cs : List ℕ) (t : Table)
    → 1 ≤ i
    → i + length cs < int_max
    → Sources i t
    → Sources (i + length cs) (fill_sources unit_costs target_0 i cs t)
unfolding fill_sources
fill_sources-Far target_0 i [] t pos small h a lt = h a (omega arith)
fill_sources-Far target_0 i (c ∷ cs) t pos small h a lt =
    fill_sources-Far target_0 (suc i) cs _ (omega arith) (omega arith) next a (omega arith)
  where
    v : ℕ
    v =
        min (min (as_int (t (i - 1) 0 + 1)) (as_int ((i + 1) * 1 + 1)))
          (as_int (i * 1 + replaced unit_costs c target_0))

    v-Far : Far i 0 v
    v-Far =
        let before = h (i - 1) (omega arith) in
        let least = replaced_le c target_0 in
        let e = as_int-small (t (i - 1) 0 + 1) (omega (arith, before.2)) in
        let e' = as_int-small ((i + 1) * 1 + 1) (omega arith) in
        let e'' = as_int-small (i * 1 + replaced unit_costs c target_0) (omega arith) in
        (omega (arith, before.0), omega arith, omega (arith, before.2))

    next : Sources (suc i) (put t i 0 v)
    next a lt = put-Far t i 0 v a 0 v-Far (λ n. let ne : a ≢ i = λ e. n e refl in h a (omega arith))

-- The first row and the first column.
abbrev pub Edges : ℕ → ℕ → Table → Type 0
Edges n m t = Sources n t × ((b : ℕ) → b < m → Far 0 b (t 0 b))

pub fill_targets-Far :
    (source_0 j n : ℕ) (cs : List ℕ) (t : Table)
    → 1 ≤ j
    → j + length cs < int_max
    → Edges n j t
    → Edges n (j + length cs) (fill_targets unit_costs source_0 j cs t)
unfolding fill_targets
fill_targets-Far source_0 j n [] t pos small (h, k) = (h, λ b lt. k b (omega arith))
fill_targets-Far source_0 j n (c ∷ cs) t pos small (h, k) =
    let (h', k') =
      fill_targets-Far source_0 (suc j) n cs _ (omega arith) (omega arith) (sources, next) in
    (h', λ b lt. k' b (omega arith))
  where
    v : ℕ
    v =
        min (min (as_int ((j + 1) * 1 + 1)) (as_int (t 0 (j - 1) + 1)))
          (as_int (j * 1 + replaced unit_costs source_0 c))

    v-Far : Far 0 j v
    v-Far =
        let before = k (j - 1) (omega arith) in
        let least = replaced_le source_0 c in
        let e = as_int-small ((j + 1) * 1 + 1) (omega arith) in
        let e' = as_int-small (t 0 (j - 1) + 1) (omega (arith, before.2)) in
        let e'' = as_int-small (j * 1 + replaced unit_costs source_0 c) (omega arith) in
        (omega arith, omega (arith, before.1), omega (arith, before.2))

    sources : Sources n (put t 0 j v)
    sources a lt = put-Far t 0 j v a 0 v-Far (λ n. h a lt)

    next : (b : ℕ) → b < suc j → Far 0 b (put t 0 j v 0 b)
    next b lt = put-Far t 0 j v 0 b v-Far (λ n. let ne : b ≢ j = n refl in k b (omega arith))

-- The entries that are there when the one at two indices is next: the rows before, the row so far,
-- and the first of each row.
abbrev pub There : ℕ → ℕ → ℕ → ℕ → ℕ → ℕ → Type 0
There n m i j a b = ((a < i) × (b < m)) ⊎ (((a ≡ i) × (a < n) × (b < j)) ⊎ ((a < n) × (b ≡ 0)))

abbrev pub FilledTo : ℕ → ℕ → ℕ → ℕ → Table → Type 0
FilledTo n m i j t = (a b : ℕ) → There n m i j a b → Far a b (t a b)

-- An index below another, if there is one.
abbrev pub Below : ℕ → Option ℕ → Type 0
Below n none = Unit
Below n (some k) = k < n

-- The sum of a swap: the cost before it, and what is deleted and inserted since.
swap_sum-Low :
    (i j i_swap j_swap pre : ℕ)
    → i_swap < i
    → j_swap < j
    → i + j ≤ int_max
    → Far (i_swap - 1) (j_swap - 1) pre
    → Low i j (as_int (pre + (i - i_swap - 1) * 1 + (j - j_swap - 1) * 1 + 1))
swap_sum-Low i j i_swap j_swap pre a b small (f, g, u) =
    let e = as_int-small (pre + (i - i_swap - 1) * 1 + (j - j_swap - 1) * 1 + 1) (omega arith) in
    (omega arith, omega arith)

swap_distance-Low :
    (n m i j : ℕ) (t : Table) (candidate last_match : Option ℕ)
    → 1 ≤ i
    → i < n
    → 1 ≤ j
    → j < m
    → n + m ≤ int_max
    → FilledTo n m i j t
    → Below i candidate
    → Below j last_match
    → Low i j (swap_distance unit_costs t i j candidate last_match)
swap_distance-Low n m i j t none l pi ni pj mj hn h c d = (omega arith, omega arith)
swap_distance-Low n m i j t (some i_swap) none pi ni pj mj hn h c d = (omega arith, omega arith)
swap_distance-Low n m i j t (some i_swap) (some j_swap) pi ni pj mj hn h c d =
    elim (Bool-cases ((i_swap == 0) && (j_swap == 0))) [
      | inl y ↦ rw (y) (
          swap_sum-Low i j i_swap j_swap 0 c d (omega arith)
            (ground arith, ground arith, omega arith))
      | inr no' ↦ rw (no') (
          swap_sum-Low i j i_swap j_swap (t (i_swap - 1) (j_swap - 1)) c d (omega arith)
            (h (i_swap - 1) (j_swap - 1) (inl (omega arith, omega arith))))
    ]

pub entry-Far :
    (n m i j : ℕ) (t : Table) (a b : ℕ) (candidate last_match : Option ℕ)
    → 1 ≤ i
    → i < n
    → 1 ≤ j
    → j < m
    → n + m ≤ int_max
    → FilledTo n m i j t
    → Below i candidate
    → Below j last_match
    → Far i j (entry unit_costs t i j a b candidate last_match)
entry-Far n m i j t a b candidate last_match pi ni pj mj hn h c d =
    let up = h (i - 1) j (inl (omega arith, omega arith)) in
    let left = h i (j - 1) (inr (inl (refl, ni, omega arith))) in
    let both = h (i - 1) (j - 1) (inl (omega arith, omega arith)) in
    let least = replaced_le a b in
    let e = as_int-small (t (i - 1) j + 1) (omega (arith, up.2)) in
    let e' = as_int-small (t i (j - 1) + 1) (omega (arith, left.2)) in
    let e'' = as_int-small (t (i - 1) (j - 1) + replaced unit_costs a b) (omega (arith, both.2)) in
    min-Low i j
      (min (min (as_int (t (i - 1) j + 1)) (as_int (t i (j - 1) + 1)))
        (as_int (t (i - 1) (j - 1) + replaced unit_costs a b)))
      (swap_distance unit_costs t i j candidate last_match)
      (min-Far i j (min (as_int (t (i - 1) j + 1)) (as_int (t i (j - 1) + 1)))
        (as_int (t (i - 1) (j - 1) + replaced unit_costs a b))
        (min-Far i j (as_int (t (i - 1) j + 1)) (as_int (t i (j - 1) + 1))
          (omega (arith, up.0), omega (arith, up.1), omega (arith, up.2))
          (omega (arith, left.0), omega (arith, left.1), omega (arith, left.2)))
        (omega (arith, both.0), omega (arith, both.1), omega (arith, both.2)))
      (swap_distance-Low n m i j t candidate last_match pi ni pj mj hn h c d)
