-- ===== src/SetListing/Helpers.antt =====
-- include/dindexer-machinery/set_listing_helpers.hpp, and `first_file` of set_listing.hpp: counting
-- and flattening what a view shows. Recursion into the directories is on fuel.
use dindexer.Common.{
  ℕ, zero, suc, ◌+◌, ◌<◌, ◌≡◌, refl, inl, inr, Bool, true, false, not, Option, some, none, List, [],
  ◌∷◌, ◌++◌, arith, length, length-append, length-take, All, if◌then◌else◌, Bool-cases, take,
}
use dindexer.Boost.{StringFind}
use dindexer.RecordData.{FileRecordData}
use dindexer.PathName.{PathName}
use dindexer.SetListing.{
  DirIterator, SetListingView, is_end_at, is_end, increment, visit, view_begin, view_end, view_at,
}

abbrev pub front_is : (FileRecordData → Bool) → List FileRecordData → Bool
front_is test [] = false
front_is test (r ∷ rs) = test r

-- The iterators of a loop over a view, from `begin` to `end`.
abbrev pub each : StringFind → SetListingView → List DirIterator
each find v = visit find (length v.range) (view_begin find v)

pub count_where : (FileRecordData → Bool) → List DirIterator → ℕ
count_where test [] = 0
count_where test (it ∷ its) = (if front_is test it.rest then 1 else 0) + count_where test its

module _ (find : StringFind) where
  pub count_listing_dirs : SetListingView → ℕ
  unfolding count_where
  count_listing_dirs v = count_where (λ r. r.is_directory) (each find v)

  pub count_listing_files : SetListingView → ℕ
  unfolding count_where
  count_listing_files v = count_where (λ r. not r.is_directory) (each find v)

  pub count_listing_items : SetListingView → ℕ
  unfolding count_where
  count_listing_items v = count_where (λ r. true) (each find v)

  -- One round for each iterator, with the recursive call as an argument.
  pub count_each : (SetListingView → ℕ) → List DirIterator → ℕ
  count_each rec [] = 0
  count_each rec (it ∷ its) =
      let inner = rec (view_at find it) in
      ((if front_is (λ r. r.is_directory) it.rest then inner else 0) + 1) + count_each rec its

  pub count_listing_items_recursive : ℕ → SetListingView → ℕ
  unfolding count_each
  count_listing_items_recursive zero v = 0
  count_listing_items_recursive (suc fuel) v =
      count_each (count_listing_items_recursive fuel) (each find v)

  unfoldable pub flatten_each :
      (SetListingView → List FileRecordData) → List DirIterator → List FileRecordData
  flatten_each rec [] = []
  flatten_each rec (it ∷ its) =
      let inner = rec (view_at find it) in
      take 1 it.rest
      ++ ((if front_is (λ r. r.is_directory) it.rest then inner else []) ++ flatten_each rec its)

  unfoldable pub flattened_listing : ℕ → SetListingView → List FileRecordData
  unfolding flatten_each
  flattened_listing zero v = []
  flattened_listing (suc fuel) v = flatten_each (flattened_listing fuel) (each find v)

  unfoldable pub first_file_of : SetListingView → List DirIterator → DirIterator
  first_file_of v [] = view_end find v
  first_file_of v (it ∷ its) =
      let rest = first_file_of v its in
      if front_is (λ r. not r.is_directory) it.rest then it else rest

  unfoldable pub first_file : SetListingView → DirIterator
  unfolding first_file_of
  first_file v = first_file_of v (each find v)

  -- Each iterator of a loop stands on a record.
  abbrev pub HasFront : DirIterator → Type 0
  HasFront it = 0 < length it.rest

  pub visit-HasFront : (fuel : ℕ) (it : DirIterator) → All HasFront (visit find fuel it)
  unfolding visit
  visit-HasFront zero it = tt
  visit-HasFront (suc fuel) it = elim (Bool-cases (is_end find it)) [
    | inl e ↦ rw e tt
    | inr ne ↦
        rw ne
          (not_end it.base_path it.level_offset it.rest ne, visit-HasFront fuel (increment find it))
  ]
    where
      not_end :
          (b : Option PathName) (offset : ℕ) (rs : List FileRecordData)
          → is_end_at find b offset rs ≡ false
          → 0 < length rs
      not_end none offset rs e = cc
      not_end (some b) offset [] e = cc
      not_end (some b) offset (r ∷ rs) e = omega arith

  count_each-flatten_each :
      (c : SetListingView → ℕ) (f : SetListingView → List FileRecordData)
      → ((v : SetListingView) → c v ≡ length (f v))
      → (its : List DirIterator) → All HasFront its
      → count_each c its ≡ length (flatten_each f its)
  unfolding count_each flatten_each
  count_each-flatten_each c f h [] a = refl
  count_each-flatten_each c f h (it ∷ its) (a, as') =
      let ih : count_each c its ≡ length (flatten_each f its) =
        count_each-flatten_each c f h its as' in
      elim (Bool-cases (front_is (λ r. r.is_directory) it.rest)) [
        | inl e ↦ rw e (
            omega (
              arith,
              h (view_at find it),
              ih,
              one,
              length-append (take 1 it.rest) (f (view_at find it) ++ flatten_each f its),
              length-append (f (view_at find it)) (flatten_each f its),
            ))
        | inr ne ↦
            rw ne (omega (arith, ih, one, length-append (take 1 it.rest) (flatten_each f its)))
      ]
    where
      one : length (take 1 it.rest) ≡ 1
      one = omega (arith, length-take 1 it.rest)

  -- Counting recursively gives the number of records that flattening lists, with the same fuel.
  pub count-flattened_listing :
      (fuel : ℕ) (v : SetListingView)
      → count_listing_items_recursive fuel v ≡ length (flattened_listing fuel v)
  unfolding count_listing_items_recursive flattened_listing
  count-flattened_listing zero v = refl
  count-flattened_listing (suc fuel) v =
      count_each-flatten_each (count_listing_items_recursive fuel) (flattened_listing fuel)
        (count-flattened_listing fuel) (each find v)
        (visit-HasFront (length v.range) (view_begin find v))
