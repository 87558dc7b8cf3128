-- ===== src/Launcher/Rows.antt =====
-- Texts whose lengths differ are at least that far apart.
use dindexer.Common.{
  ℕ, suc, arith, ◌+◌, ◌≤◌, ◌*◌, ◌<◌, ◌≡◌, ◌≢◌, ◌⊎◌, refl, sym, subst, inl, inr, Option, some, none,
  List, [], ◌∷◌, length, ◌==◌, ==→eq, if◌then◌else◌, Bool-cases,
}
use dindexer.Launcher.Distance.{
  unit_costs, Table, put, IndexMap, get_value, int_max, as_int, fill_sources, fill_targets, entry,
  fill_row, fill_rows, first_entry, filled_table, distance, distance_of,
}
use dindexer.Launcher.Bound.{
  Far, Sources, Edges, FilledTo, Below, as_int-small, put-Far, fill_sources-Far, fill_targets-Far,
  entry-Far,
}

-- Every index in the map is below a number.
abbrev Indices : ℕ → IndexMap → Type 0
Indices n m = (key : ℕ) → Below n (get_value m key)

fill_row-Far :
    (n m i source_char : ℕ) (map : IndexMap) (j : ℕ) (cs : List ℕ) (last_match : Option ℕ)
    (t : Table)
    → 1 ≤ i
    → i < n
    → 1 ≤ j
    → j + length cs ≡ m
    → n + m ≤ int_max
    → FilledTo n m i j t
    → Indices i map
    → Below j last_match
    → FilledTo n m i m (fill_row unit_costs i source_char map j cs last_match t)
unfolding fill_row
fill_row-Far n m i source_char map j [] last_match t pi ni pj len hn h c d = λ a b there.
    h a b (elim there [
      | inl x ↦ inl x
      | inr x ↦ elim x [ inl y ↦ inr (inl (y.0, y.1, omega (arith, y.2))) | inr y ↦ inr (inr y) ]
    ])
fill_row-Far n m i source_char map j (x ∷ cs) last_match t pi ni pj len hn h c d =
    fill_row-Far n m i source_char map (suc j) cs _ _ pi ni (omega arith) (omega arith) hn next c
      (below_match source_char)
  where
    v : ℕ
    v = entry unit_costs t i j source_char x (get_value map x) last_match

    v-Far : Far i j v
    v-Far =
        entry-Far n m i j t source_char x (get_value map x) last_match pi ni pj (omega arith) hn h
          (c x) d

    next : FilledTo n m i (suc j) (put t i j v)
    next a b there = put-Far t i j v a b v-Far (λ new. h a b (elim there [
      | inl y ↦ inl y
      | inr y ↦ elim y [
        | inl z ↦ inr (inl (z.0, z.1, (let ne : b ≢ j = new z.0 in omega (arith, z.2))))
        | inr z ↦ inr (inr z)
      ]
    ]))

    below_match : (s : ℕ) → Below (suc j) (if s == x then some j else last_match)
    below_match s = elim (Bool-cases (s == x)) [
      | inl e ↦ rw (e) (omega arith)
      | inr e ↦ rw (e) (later last_match d)
    ]
      where
        later : (o : Option ℕ) → Below j o → Below (suc j) o
        later none h = tt
        later (some k) h = omega arith

fill_rows-Far :
    (n m i : ℕ) (cs : List ℕ) (target_0 : ℕ) (targets : List ℕ) (map : IndexMap) (t : Table)
    → 1 ≤ i
    → i + length cs ≡ n
    → 1 + length targets ≡ m
    → n + m ≤ int_max
    → FilledTo n m i 1 t
    → Indices i map
    → FilledTo n m n 1 (fill_rows unit_costs i cs target_0 targets map t)
unfolding fill_rows get_value
fill_rows-Far n m i [] target_0 targets map t pi len width hn h c =
    subst (λ k. FilledTo n m k 1 t) (omega arith) h
fill_rows-Far n m i (x ∷ cs) target_0 targets map t pi len width hn h c =
    fill_rows-Far n m (suc i) cs target_0 targets ((x, i) ∷ map) _ (omega arith) (omega arith) width
      hn below indices
  where
    first : Option ℕ
    first = if x == target_0 then some 0 else none

    first-Below : Below 1 (if x == target_0 then some 0 else none)
    first-Below = elim (Bool-cases (x == target_0)) [
      | inl e ↦ rw (e) (omega arith)
      | inr e ↦ rw (e) tt
    ]

    row :
        FilledTo n m i m
          (fill_row unit_costs i x map 1 targets (if x == target_0 then some 0 else none) t)
    row =
        fill_row-Far n m i x map 1 targets _ t pi (omega arith) (omega arith) width hn h c
          first-Below

    below :
        FilledTo n m
          (suc i)
          1
          (fill_row unit_costs i x map 1 targets (if x == target_0 then some 0 else none) t)
    below a b there = row a b (elim there [
      | inl y ↦ elim (Bool-cases (a == i)) [
        | inl e ↦ inr (inl (==→eq a i e, omega (arith, ==→eq a i e), y.1))
        | inr e ↦ inl (ground arith, y.1)
      ]
      | inr y ↦ elim y [ inl z ↦ inr (inr (z.1, omega (arith, z.2))) | inr z ↦ inr (inr z) ]
    ])

    later : (o : Option ℕ) → Below i o → Below (suc i) o
    later none h = tt
    later (some k) h = omega arith

    indices : Indices (suc i) ((x, i) ∷ map)
    indices key = elim (Bool-cases (x == key)) [
      | inl e ↦ rw (e) (omega arith)
      | inr e ↦ rw (e) (later (get_value map key) (c key))
    ]

edge-Far :
    (n m : ℕ) (t : Table)
    → Edges n m t
    → (i j : ℕ) → ((i ≡ 0) × (j < m)) ⊎ ((j ≡ 0) × (i < n))
    → Far i j (t i j)
edge-Far n m t (h, k) i j at = elim at [
  | inl x ↦ subst (λ a. Far a j (t a j)) (sym x.0) (k j x.1)
  | inr x ↦ subst (λ b. Far i b (t i b)) (sym x.0) (h i x.1)
]

filled_table-Far :
    (a : ℕ) (as' : List ℕ) (b : ℕ) (bs : List ℕ)
    → suc (length as') + suc (length bs) ≤ int_max
    → Far (length as') (length bs) (filled_table unit_costs a as' b bs (length as') (length bs))
unfolding filled_table get_value
filled_table-Far a as' b bs hn =
    fill_rows-Far (suc (length as')) (suc (length bs)) 1 as' b bs ((a, 0) ∷ []) _ (omega arith)
      (omega arith) (omega arith) hn edges indices (length as') (length bs)
      (inl (omega arith, omega arith))
  where
    corner : Table
    corner = first_entry unit_costs a b

    row : Table
    row = fill_sources unit_costs b 1 as' corner

    corner-small : (k : ℕ) → corner k 0 ≤ k + 0 + 1
    corner-small k = elim (Bool-cases (k == 0)) [
      | inr no' ↦ rw (no') (omega arith)
      | inl y ↦ rw (y) (elim (Bool-cases (a == b)) [
        | inl e ↦ rw (e) (omega arith)
        | inr e ↦ rw (e) (omega arith)
      ])
    ]

    row-Far : Sources (1 + length as') row
    row-Far =
        fill_sources-Far b 1 as' corner (omega arith) (omega arith)
          (λ k lt. (omega arith, omega arith, corner-small k))

    column-Far : Edges (1 + length as') (1 + length bs) (fill_targets unit_costs a 1 bs row)
    column-Far =
        fill_targets-Far a 1 (1 + length as') bs row (omega arith) (omega arith)
          (row-Far, λ k lt. subst (λ k. Far 0 k (row 0 k)) (omega arith) (row-Far 0 (omega arith)))

    edges : FilledTo (suc (length as')) (suc (length bs)) 1 1 (fill_targets unit_costs a 1 bs row)
    edges i j there = elim there [
      | inl x ↦
          edge-Far (1 + length as') (1 + length bs) (fill_targets unit_costs a 1 bs row) column-Far
            i j (inl (omega (arith, x.0), omega (arith, x.1)))
      | inr x ↦ elim x [
        | inl y ↦
            edge-Far (1 + length as') (1 + length bs) (fill_targets unit_costs a 1 bs row)
              column-Far i j (inr (omega (arith, y.2), omega (arith, y.1)))
        | inr y ↦
            edge-Far (1 + length as') (1 + length bs) (fill_targets unit_costs a 1 bs row)
              column-Far i j (inr (y.1, omega (arith, y.0)))
      ]
    ]

    indices : Indices 1 ((a, 0) ∷ [])
    indices key = elim (Bool-cases (a == key)) [ inl e ↦ rw (e) (omega arith) | inr e ↦ rw (e) tt ]

-- With unit costs, the distance of two texts is defined, and no less than the difference of their
-- numbers of characters, if an int holds the sum of these.
pub distance_of-length :
    (source target : List ℕ)
    → length source + length target ≤ int_max
    → (d : ℕ) × (distance_of unit_costs source target ≡ some d)
      × (length source ≤ d + length target)
      × (length target ≤ d + length source)
unfolding distance_of distance as_int
distance_of-length [] target hn =
    let e = as_int-small (length target * 1) (omega arith) in
    (_, refl, omega arith, omega (arith, e))
distance_of-length (a ∷ as') [] hn =
    let e = as_int-small (suc (length as') * 1) (omega arith) in
    (_, refl, omega (arith, e), omega arith)
distance_of-length (a ∷ as') (b ∷ bs) hn =
    let h = filled_table-Far a as' b bs hn in (_, refl, omega (arith, h.0), omega (arith, h.1))
