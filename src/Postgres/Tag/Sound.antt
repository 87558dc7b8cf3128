-- ===== src/Postgres/Tag/Sound.antt =====
-- Which operations on tags send a query that a server can run, and one that stays inside the set.
use dindexer.Common.{
  ℕ, ◌≡◌, ◌≢◌, refl, inl, inr, arith, Bool, true, false, not, ◌&&◌, List, [], ◌∷◌, Bytes, length,
  ◌==◌, some, none, ltb, if◌then◌else◌, Bool-cases,
}
use dindexer.Postgres.{Query}
use dindexer.Postgres.Prepared.{is_prepared, is_typed, confined_to}
use dindexer.Redis.Tag.{invalid_group_id}
use dindexer.Postgres.Tag.{
  has_set, tag_files_by_id, tag_files_by_regex, delete_tags_by_id, delete_tags_by_regex,
  delete_all_tags_by_id, delete_all_tags_by_regex,
}

-- A query that uses exactly its parameters, each for what it is.
abbrev pub is_sound : Query → Bool
is_sound q = is_prepared q && is_typed q

tag_files_by_id_sound :
    (files : List ℕ) (tags : List Bytes) (set : ℕ)
    → is_sound (tag_files_by_id files tags set) ≡ true
unfolding is_prepared is_typed tag_files_by_id
tag_files_by_id_sound files tags set = elim (Bool-cases (has_set set)) [
  | inl y ↦ rw y refl
  | inr n ↦ rw n refl
]

delete_tags_by_id_sound :
    (files : List ℕ) (tags : List Bytes) (set : ℕ)
    → is_sound (delete_tags_by_id files tags set) ≡ true
unfolding is_prepared is_typed delete_tags_by_id
delete_tags_by_id_sound files tags set = elim (Bool-cases (length tags == 1)) [
  | inl x ↦ elim (Bool-cases (has_set set)) [ inl y ↦ rw (x, y) refl | inr y ↦ rw (x, y) refl ]
  | inr x ↦ elim (Bool-cases (has_set set)) [ inl y ↦ rw (x, y) refl | inr y ↦ rw (x, y) refl ]
]

delete_tags_by_regex_sound :
    (regexes : List Bytes) (tags : List Bytes) (set : ℕ)
    → is_sound (delete_tags_by_regex regexes tags set) ≡ not ((length tags == 1) && has_set set)
unfolding is_prepared is_typed delete_tags_by_regex
delete_tags_by_regex_sound regexes tags set = elim (Bool-cases (length tags == 1)) [
  | inl x ↦ elim (Bool-cases (has_set set)) [ inl y ↦ rw (x, y) refl | inr y ↦ rw (x, y) refl ]
  | inr x ↦ elim (Bool-cases (has_set set)) [ inl y ↦ rw (x, y) refl | inr y ↦ rw (x, y) refl ]
]

delete_all_tags_by_id_sound :
    (files : List ℕ) (set : ℕ) → is_sound (delete_all_tags_by_id files set) ≡ true
unfolding is_prepared is_typed delete_all_tags_by_id
delete_all_tags_by_id_sound files set = elim (Bool-cases (has_set set)) [
  | inl y ↦ rw y refl
  | inr n ↦ rw n refl
]

delete_all_tags_by_regex_sound :
    (regexes : List Bytes) (set : ℕ) → is_sound (delete_all_tags_by_regex regexes set) ≡ has_set set
unfolding is_prepared is_typed delete_all_tags_by_regex
delete_all_tags_by_regex_sound regexes set = elim (Bool-cases (has_set set)) [
  | inl y ↦ rw y refl
  | inr n ↦ rw n refl
]

tag_files_by_regex_sound :
    (regexes : List Bytes) (tags : List Bytes) (set : ℕ)
    → is_sound (tag_files_by_regex regexes tags set) ≡ true
unfolding is_prepared is_typed tag_files_by_regex
tag_files_by_regex_sound regexes tags set = elim (Bool-cases (has_set set)) [
  | inl x ↦ elim (Bool-cases (length regexes == 1)) [
    | inl y ↦ rw (x, y) refl
    | inr y ↦ elim (Bool-cases (ltb 1 (length regexes))) [
      | inl z ↦ rw (x, y, z) refl
      | inr z ↦ rw (x, y, z) refl
    ]
  ]
  | inr x ↦ elim (Bool-cases (length regexes == 1)) [
    | inl y ↦ rw (x, y) refl
    | inr y ↦ elim (Bool-cases (ltb 1 (length regexes))) [
      | inl z ↦ rw (x, y, z) refl
      | inr z ↦ rw (x, y, z) refl
    ]
  ]
]

-- The query of an operation on tags uses each of its parameters and no other, lists as lists,
-- except in two cases: a single tag deleted by regular expressions within a set, and all tags
-- deleted by regular expressions without a set.
pub tag_queries_sound :
    (files : List ℕ) (regexes tags : List Bytes) (set : ℕ)
    → (is_sound (tag_files_by_id files tags set) ≡ true)
      × (is_sound (tag_files_by_regex regexes tags set) ≡ true)
      × (is_sound (delete_tags_by_id files tags set) ≡ true)
      × (is_sound (delete_tags_by_regex regexes tags set) ≡ not ((length tags == 1) && has_set set))
      × (is_sound (delete_all_tags_by_id files set) ≡ true)
      × (is_sound (delete_all_tags_by_regex regexes set) ≡ has_set set)
tag_queries_sound files regexes tags set = (
  tag_files_by_id_sound files tags set,
  tag_files_by_regex_sound regexes tags set,
  delete_tags_by_id_sound files tags set,
  delete_tags_by_regex_sound regexes tags set,
  delete_all_tags_by_id_sound files set,
  delete_all_tags_by_regex_sound regexes set,
)

known : (set : ℕ) → set ≢ invalid_group_id → has_set set ≡ true
known set h = ground arith

tag_files_by_id_confined :
    (files : List ℕ) (tags : List Bytes) (set : ℕ)
    → has_set set ≡ true
    → confined_to (tag_files_by_id files tags set) ≡ some set
unfolding confined_to tag_files_by_id
tag_files_by_id_confined files tags set h = rw h refl

delete_tags_by_id_confined :
    (files : List ℕ) (tags : List Bytes) (set : ℕ)
    → has_set set ≡ true
    → confined_to (delete_tags_by_id files tags set) ≡ some set
unfolding confined_to delete_tags_by_id
delete_tags_by_id_confined files tags set h = elim (Bool-cases (length tags == 1)) [
  | inl y ↦ rw (h, y) refl
  | inr y ↦ rw (h, y) refl
]

delete_tags_by_regex_confined :
    (regexes : List Bytes) (tags : List Bytes) (set : ℕ)
    → has_set set ≡ true
    → confined_to (delete_tags_by_regex regexes tags set)
      ≡ (if length tags == 1 then none else some set)
unfolding confined_to delete_tags_by_regex
delete_tags_by_regex_confined regexes tags set h = elim (Bool-cases (length tags == 1)) [
  | inl y ↦ rw (h, y) refl
  | inr y ↦ rw (h, y) refl
]

delete_all_tags_by_id_confined :
    (files : List ℕ) (set : ℕ)
    → has_set set ≡ true
    → confined_to (delete_all_tags_by_id files set) ≡ some set
unfolding confined_to delete_all_tags_by_id
delete_all_tags_by_id_confined files set h = rw h refl

delete_all_tags_by_regex_confined :
    (regexes : List Bytes) (set : ℕ)
    → has_set set ≡ true
    → confined_to (delete_all_tags_by_regex regexes set) ≡ some set
unfolding confined_to delete_all_tags_by_regex
delete_all_tags_by_regex_confined regexes set h = rw h refl

tag_files_by_regex_confined :
    (regexes tags : List Bytes) (set : ℕ)
    → has_set set ≡ true
    → confined_to (tag_files_by_regex regexes tags set)
      ≡ (if length regexes == 0 then none else some set)
unfolding confined_to tag_files_by_regex
tag_files_by_regex_confined [] tags set h = rw h refl
tag_files_by_regex_confined (r ∷ []) tags set h = rw h refl
tag_files_by_regex_confined (r ∷ q ∷ regexes) tags set h =
    let more : (length (r ∷ q ∷ regexes) == 1) ≡ false = ground arith in
    let many : ltb 1 (length (r ∷ q ∷ regexes)) ≡ true = ground arith in
    let some_ : (length (r ∷ q ∷ regexes) == 0) ≡ false = ground arith in
    rw (h, more, many, some_) refl

-- With a set, the condition of each query on tags compares the group with the number of that set,
-- outside of parentheses and with no alternative to it, except in two cases: files tagged by no
-- regular expression, where nothing outside of parentheses is a condition, and a single tag deleted
-- by regular expressions, where the group is compared with something else.
pub tag_queries_confined :
    (files : List ℕ) (regexes tags : List Bytes) (set : ℕ)
    → set ≢ invalid_group_id
    → (confined_to (tag_files_by_id files tags set) ≡ some set)
      × (confined_to (tag_files_by_regex regexes tags set)
          ≡ (if length regexes == 0 then none else some set))
      × (confined_to (delete_tags_by_id files tags set) ≡ some set)
      × (confined_to (delete_tags_by_regex regexes tags set)
          ≡ (if length tags == 1 then none else some set))
      × (confined_to (delete_all_tags_by_id files set) ≡ some set)
      × (confined_to (delete_all_tags_by_regex regexes set) ≡ some set)
tag_queries_confined files regexes tags set h =
    let k = known set h in
    (
      tag_files_by_id_confined files tags set k,
      tag_files_by_regex_confined regexes tags set k,
      delete_tags_by_id_confined files tags set k,
      delete_tags_by_regex_confined regexes tags set k,
      delete_all_tags_by_id_confined files set k,
      delete_all_tags_by_regex_confined regexes set k,
    )
