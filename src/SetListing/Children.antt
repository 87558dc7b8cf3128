-- ===== src/SetListing/Children.antt =====
-- Iterating over a sorted listing visits exactly the direct children of the base path.
use dindexer.Common.{
  ℕ, zero, suc, ◌+◌, ◌≤◌, ◌<◌, ◌≡◌, ◌⊎◌, refl, sym, ap, ◌∙◌, inl, inr, true, false, ◌&&◌, ◌||◌,
  some, List, [], ◌∷◌, ◌++◌, arith, length, take, All, ◌==◌, if◌then◌else◌, Bool-cases, ==→eq,
}
use dindexer.Boost.{StringFind}
use dindexer.RecordData.{FileRecordData}
use dindexer.PathName.{PathName, atom_count}
use dindexer.SetListing.{
  DirIterator, file_record_data_lt, is_elsewhere, seek, skip, visit, dir_iterator,
}
use dindexer.SetListing.Order.{IsSorted, NotBefore}

-- A sorted list goes by levels.
pub NotBefore-level : (a b : FileRecordData) → NotBefore a b → a.level ≤ b.level
unfolding file_record_data_lt
NotBefore-level a b h = ground arith

-- The records that the iterators stand on.
abbrev pub records : List DirIterator → List FileRecordData
records [] = []
records (it ∷ its) = take 1 it.rest ++ records its

module _ (find : StringFind) (base : PathName) (offset : ℕ) where
  -- The direct children of the base path.
  unfoldable pub children : List FileRecordData → List FileRecordData
  children [] = []
  children (r ∷ rs) = let rest = children rs in if is_elsewhere find base r then rest else r ∷ rest

  -- The level of each child is the one below that of the base path.
  abbrev pub Leveled : List FileRecordData → Type 0
  Leveled = All (λ r. is_elsewhere find base r ≡ false → r.level + offset ≡ atom_count base + 1)

  -- Where the iterator stops: at the end, at a child, or behind the level of the children.
  abbrev pub Stopped : List FileRecordData → Type 0
  Stopped [] = Unit {0}
  Stopped (r ∷ rs) = (is_elsewhere find base r ≡ false) ⊎ (atom_count base + 1 < r.level + offset)

  module _ (P : List FileRecordData → Type 0)
      (tail : (r : FileRecordData) (rs : List FileRecordData) → P (r ∷ rs) → P rs) where
    pub skip-suffix : (rs : List FileRecordData) → P rs → P (skip find base offset rs)
    unfolding skip
    skip-suffix [] p = p
    skip-suffix (r ∷ rs) p =
        elim (Bool-cases ((r.level + offset == atom_count base + 1) && is_elsewhere find base r)) [
          | inl e ↦ rw e (skip-suffix rs (tail r rs p))
          | inr ne ↦ rw ne p
        ]

    pub seek-suffix : (rs : List FileRecordData) → P rs → P (seek find base offset rs)
    unfolding seek
    seek-suffix [] p = p
    seek-suffix (r ∷ rs) p =
        elim (Bool-cases ((r.level + offset == atom_count base) || is_elsewhere find base r)) [
          | inl e ↦ rw e (seek-suffix rs (tail r rs p))
          | inr ne ↦ rw ne p
        ]

  children-skip : (rs : List FileRecordData) → children (skip find base offset rs) ≡ children rs
  unfolding skip children
  children-skip [] = refl
  children-skip (r ∷ rs) = ground (arith, children-skip rs)

  pub children-seek :
      (rs : List FileRecordData) → Leveled rs → children (seek find base offset rs) ≡ children rs
  unfolding seek children
  children-seek [] l = refl
  children-seek (r ∷ rs) (l, ls) = ground (arith, children-seek rs ls)

  Stopped-skip :
      (rs : List FileRecordData) (n : ℕ)
      → n + offset ≡ atom_count base + 1
      → All (λ r. n ≤ r.level) rs
      → Stopped (skip find base offset rs)
  unfolding skip
  Stopped-skip [] n e h = tt
  Stopped-skip (r ∷ rs) n e (h, hs) = elim (Bool-cases (r.level + offset == atom_count base + 1)) [
    | inl at ↦ elim (Bool-cases (is_elsewhere find base r)) [
      | inl else_ ↦ rw (at, else_) (Stopped-skip rs n e hs)
      | inr child ↦ rw (at, child) (inl child)
    ]
    | inr off ↦ rw off (inr (ground arith))
  ]

  pub Stopped-seek : (rs : List FileRecordData) → Stopped (seek find base offset rs)
  unfolding seek
  Stopped-seek [] = tt
  Stopped-seek (r ∷ rs) =
      elim (Bool-cases ((r.level + offset == atom_count base) || is_elsewhere find base r)) [
        | inl e ↦ rw e (Stopped-seek rs)
        | inr ne ↦ rw ne (inl (ground arith))
      ]

  no_children :
      (rs : List FileRecordData) (n : ℕ)
      → atom_count base + 1 < n + offset
      → All (λ r. n ≤ r.level) rs
      → Leveled rs
      → children rs ≡ []
  unfolding children
  no_children [] n h a l = refl
  no_children (r ∷ rs) n h (a, as') (l, ls) = elim (Bool-cases (is_elsewhere find base r)) [
    | inl e ↦ rw e (no_children rs n h as' ls)
    | inr ne ↦ absurd (omega (arith, l ne))
  ]

  levels :
      (r : FileRecordData) (rs : List FileRecordData)
      → All (NotBefore r) rs
      → All (λ x. r.level ≤ x.level) rs
  levels r [] h = tt
  levels r (x ∷ rs) (h, hs) = (NotBefore-level r x h, levels r rs hs)

  abbrev pub iterator_at : List FileRecordData → DirIterator
  iterator_at rs = record { rest = rs; base_path = some base; level_offset = offset }

  pub visit-children :
      (fuel : ℕ) (rs : List FileRecordData)
      → length rs ≤ fuel
      → IsSorted rs
      → Leveled rs
      → Stopped rs
      → records (visit find fuel (iterator_at rs)) ≡ children rs
  unfolding visit children
  visit-children zero [] h s l st = refl
  visit-children zero (r ∷ rs) h s l st = absurd (omega arith)
  visit-children (suc fuel) [] h s l st = refl
  visit-children (suc fuel) (r ∷ rs) h (s, ss) (l, ls) st =
      elim (Bool-cases (r.level + offset == atom_count base + 1)) [
        | inl at ↦
            rw (at, at_child at st)
              (ap (λ l. r ∷ l)
                (visit-children fuel (skip find base offset rs)
                    (skip-suffix (λ l. length l ≤ fuel) (λ x xs k. omega arith) rs (omega arith))
                    (skip-suffix IsSorted (λ x xs k. k.1) rs ss)
                    (skip-suffix Leveled (λ x xs k. k.1) rs ls)
                    (Stopped-skip rs r.level (==→eq _ _ at) (levels r rs s))
                  ∙ children-skip rs))
        | inr off ↦ rw off (
            sym (no_children (r ∷ rs) r.level (behind off st) (omega arith, levels r rs s) (l, ls)))
      ]
    where
      at_child :
          (r.level + offset == atom_count base + 1) ≡ true
          → Stopped (r ∷ rs)
          → is_elsewhere find base r ≡ false
      at_child at (inl c) = c
      at_child at (inr c) = ground arith

      behind :
          (r.level + offset == atom_count base + 1) ≡ false
          → Stopped (r ∷ rs)
          → atom_count base + 1 < r.level + offset
      behind off (inl c) = absurd (ground (arith, l c))
      behind off (inr c) = c

  -- A loop from the begin of a view to its end visits exactly the direct children of the base path,
  -- in the order of the list, if the list is sorted and each child has the level below that of the
  -- base path. The length of the list is fuel enough.
  pub records-visit :
      (rs : List FileRecordData)
      → IsSorted rs
      → Leveled rs
      → records (visit find (length rs) (dir_iterator find rs (some base) offset)) ≡ children rs
  unfolding dir_iterator
  records-visit rs s l =
      visit-children (length rs) (seek find base offset rs)
        (seek-suffix (λ l. length l ≤ length rs) (λ x xs k. omega arith) rs (omega arith))
        (seek-suffix IsSorted (λ x xs k. k.1) rs s) (seek-suffix Leveled (λ x xs k. k.1) rs l)
        (Stopped-seek rs)
      ∙ children-seek rs l
