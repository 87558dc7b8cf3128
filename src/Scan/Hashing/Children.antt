-- ===== src/Scan/Hashing/Children.antt =====
-- The direct children of a directory in a sorted list, wherever the directory stands in it.
use dindexer.Common.{
  ◌+◌, ◌≤◌, ◌<◌, ◌≡◌, refl, ap, ◌∙◌, inl, inr, arith, true, false, List, [], ◌∷◌, ◌++◌, drop, All,
  ◌==◌, Bool-cases,
}
use dindexer.RecordData.{FileRecordData}
use dindexer.PathName.{atom_count}
use dindexer.SetListing.{is_elsewhere, file_record_data_lt}
use dindexer.SetListing.Order.{IsSorted, NotBefore}
use dindexer.SetListing.Children.{children, Leveled, NotBefore-level}
use dindexer.SetListing.Depth.{Deep}
use dindexer.Scan.Hashing.{Hasher}
use dindexer.Scan.Hashing.Reference.{path_of, is_child, children_of}

-- After a file come only files.
abbrev pub FilesLast : List FileRecordData → Type 0
FilesLast [] = Unit {0}
FilesLast (r ∷ rs) = (r.is_directory ≡ false → All (λ x. x.is_directory ≡ false) rs) × FilesLast rs

module _ (env : Hasher) where
  open env use {find}

  -- A sorted list in which the level of each record is the depth of its path, and no record but the
  -- first is at level 0.
  pub record IsListing (list : List FileRecordData) : Type 0 where
    pub sorted : IsSorted list
    pub deep : Deep find 0 list
    pub below : All (λ r. 0 < r.level) (drop 1 list)

  pub IsListing-tail :
      (r : FileRecordData) (rs : List FileRecordData) → IsListing (r ∷ rs) → IsListing rs
  IsListing-tail r [] h = record { sorted = tt; deep = tt; below = tt }
  IsListing-tail r (x ∷ rs) h = record { sorted = h.sorted.1; deep = h.deep.1; below = h.below.1 }

  pub IsListing-suffix : (pre rs : List FileRecordData) → IsListing (pre ++ rs) → IsListing rs
  IsListing-suffix [] rs h = h
  IsListing-suffix (r ∷ pre) rs h = IsListing-suffix pre rs (IsListing-tail r (pre ++ rs) h)

  not-child-level :
      (d r : FileRecordData) → (r.level == d.level + 1) ≡ false → is_child env d r ≡ false
  not-child-level d r h = rw h refl

  children_of-cons :
      (d r : FileRecordData) (rs : List FileRecordData)
      → r.level ≤ d.level
      → children_of env d (r ∷ rs) ≡ children_of env d rs
  unfolding children_of
  children_of-cons d r rs h = rw (not-child-level d r (ground arith)) refl

  -- What stands in front of a directory in a sorted list is none of its children.
  pub children_of-suffix :
      (pre : List FileRecordData) (d : FileRecordData) (rs : List FileRecordData)
      → IsSorted (pre ++ d ∷ rs)
      → children_of env d (pre ++ d ∷ rs) ≡ children_of env d rs
  children_of-suffix [] d rs h = children_of-cons d d rs (omega arith)
  children_of-suffix (r ∷ pre) d rs (a, h) =
      children_of-cons d r (pre ++ d ∷ rs) (NotBefore-level r d (middle pre a))
      ∙ children_of-suffix pre d rs h
    where
      middle : (pre : List FileRecordData) → All (NotBefore r) (pre ++ d ∷ rs) → NotBefore r d
      middle [] a = a.0
      middle (x ∷ pre) a = middle pre a.1

  pub children-children_of :
      (d : FileRecordData) (rs : List FileRecordData)
      → Leveled find (path_of env d) 0 rs
      → d.level ≡ atom_count (path_of env d)
      → children find (path_of env d) 0 rs ≡ children_of env d rs
  unfolding children children_of
  children-children_of d [] l e = refl
  children-children_of d (r ∷ rs) (l, ls) e =
      elim (Bool-cases (is_elsewhere find (path_of env d) r)) [
        | inl away ↦ elim (Bool-cases (r.level == d.level + 1)) [
          | inl y ↦ rw (away, y) (children-children_of d rs ls e)
          | inr n ↦ rw (away, n) (children-children_of d rs ls e)
        ]
        | inr here ↦
            let at : (r.level == d.level + 1) ≡ true = ground (arith, l here) in
            rw (here, at) (ap (λ k. r ∷ k) (children-children_of d rs ls e))
      ]

  -- Behind a file, a record of its level is no directory.
  later :
      (r x : FileRecordData)
      → NotBefore r x
      → r.level ≡ x.level
      → r.is_directory ≡ false
      → x.is_directory ≡ false
  unfolding file_record_data_lt
  later r x n e f = elim (Bool-cases x.is_directory) [
    | inl y ↦ absurd (ground (arith, n, e, f, y))
    | inr z ↦ z
  ]

  child-level : (d r : FileRecordData) → is_child env d r ≡ true → r.level ≡ d.level + 1
  child-level d r y = ground arith

  only_files :
      (d r : FileRecordData) (rs : List FileRecordData)
      → r.is_directory ≡ false
      → r.level ≡ d.level + 1
      → All (NotBefore r) rs
      → All (λ x. x.is_directory ≡ false) (children_of env d rs)
  unfolding children_of
  only_files d r [] f e a = tt
  only_files d r (x ∷ rs) f e (n, a) = elim (Bool-cases (is_child env d x)) [
    | inl y ↦
        let same : r.level ≡ x.level = omega (arith, child-level d x y) in
        rw y (later r x n same f, only_files d r rs f e a)
    | inr no_child ↦ rw no_child (only_files d r rs f e a)
  ]

  -- Children of one directory have one level, at which files come last.
  pub children_of-FilesLast :
      (d : FileRecordData) (rs : List FileRecordData)
      → IsSorted rs
      → FilesLast (children_of env d rs)
  unfolding children_of
  children_of-FilesLast d [] h = tt
  children_of-FilesLast d (r ∷ rs) (a, h) = elim (Bool-cases (is_child env d r)) [
    | inl y ↦ rw y ((λ f. only_files d r rs f (child-level d r y) a), children_of-FilesLast d rs h)
    | inr n ↦ rw n (children_of-FilesLast d rs h)
  ]
