-- ===== src/SetListing/FirstFile.antt =====
-- Loops over a view that start at its first file, and what every iterator of a loop has in common.
use dindexer.Common.{
  ℕ, zero, suc, ◌-◌, ◌≤◌, ◌≡◌, refl, sym, ap, ◌∙◌, inl, inr, arith, false, not, Option, some, none,
  List, [], ◌∷◌, length, length-drop, drop, All, if◌then◌else◌, Bool-cases,
}
use dindexer.Boost.{StringFind}
use dindexer.RecordData.{FileRecordData}
use dindexer.PathName.{PathName}
use dindexer.SetListing.{
  DirIterator, SetListingView, skip_from, is_end, increment, visit, view_begin, view_end,
}
use dindexer.SetListing.Children.{skip-suffix}
use dindexer.SetListing.Depth.{visit-nil}
use dindexer.SetListing.Helpers.{each, front_is, first_file_of, first_file}

-- The iterators from the first that stands on a file.
abbrev pub from_file : List DirIterator → List DirIterator
from_file [] = []
from_file (it ∷ its) =
    let rest = from_file its in
    if front_is (λ r. not r.is_directory) it.rest then it ∷ its else rest

module _ (find : StringFind) where
  -- What holds of a list and of its tails holds of what is left at each iterator.
  module _ (P : List FileRecordData → Type 0)
      (tail : (r : FileRecordData) (rs : List FileRecordData) → P (r ∷ rs) → P rs) where
    drop_one : (rs : List FileRecordData) → P rs → P (drop 1 rs)
    drop_one [] p = p
    drop_one (r ∷ rs) p = tail r rs p

    skip_from-suffix :
        (b : Option PathName) (o : ℕ) (rs : List FileRecordData) → P rs → P (skip_from find b o rs)
    skip_from-suffix none o rs p = p
    skip_from-suffix (some b) o rs p = skip-suffix find b o P tail rs p

    pub increment-suffix : (it : DirIterator) → P it.rest → P (increment find it).rest
    unfolding increment
    increment-suffix it p =
        skip_from-suffix it.base_path it.level_offset (drop 1 it.rest) (drop_one it.rest p)

    pub visit-suffix :
        (fuel o : ℕ) (it : DirIterator)
        → P it.rest
        → it.level_offset ≡ o
        → All (λ j. P j.rest × (j.level_offset ≡ o)) (visit find fuel it)
    unfolding visit
    visit-suffix zero o it p e = tt
    visit-suffix (suc fuel) o it p e = elim (Bool-cases (is_end find it)) [
      | inl y ↦ rw y tt
      | inr n ↦
          rw n ((p, e), visit-suffix fuel o (increment find it) (increment-suffix it p) (same e))
    ]
      where
        same : it.level_offset ≡ o → (increment find it).level_offset ≡ o
        same e = e

  increment-shorter : (it : DirIterator) → length (increment find it).rest ≤ length it.rest - 1
  unfolding increment
  increment-shorter it =
      skip_from-suffix (λ l. length l ≤ length it.rest - 1) (λ r rs h. omega arith) it.base_path
        it.level_offset (drop 1 it.rest) (omega (arith, length-drop 1 it.rest))

  -- More rounds than records change nothing.
  visit_fuel :
      (m n : ℕ) (it : DirIterator)
      → length it.rest ≤ m
      → length it.rest ≤ n
      → visit find m it ≡ visit find n it
  unfolding visit
  visit_fuel zero n it h k = sym (visit-nil find 0 n it h)
  visit_fuel (suc m) zero it h k = visit-nil find 0 (suc m) it k
  visit_fuel (suc m) (suc n) it h k = elim (Bool-cases (is_end find it)) [
    | inl y ↦ rw y refl
    | inr no_end ↦ rw no_end (
        ap (λ l. it ∷ l)
          (visit_fuel m n (increment find it) (omega (arith, increment-shorter it))
            (omega (arith, increment-shorter it))))
  ]

  first-from_file :
      (v : SetListingView) (fuel : ℕ) (it : DirIterator)
      → length it.rest ≤ fuel
      → (let first = first_file_of find v (visit find fuel it) in
          visit find (length first.rest) first ≡ from_file (visit find fuel it))
  unfolding visit first_file_of view_end
  first-from_file v zero it h = refl
  first-from_file v (suc fuel) it h = elim (Bool-cases (is_end find it)) [
    | inl y ↦ rw y refl
    | inr no_end ↦ elim (Bool-cases (front_is (λ r. not r.is_directory) it.rest)) [
      | inl file ↦
          rw (no_end, file)
            (visit_fuel (length it.rest) (suc fuel) it (omega arith) h ∙ next no_end)
      | inr dir ↦
          rw (no_end, dir)
            (first-from_file v fuel (increment find it) (omega (arith, increment-shorter it)))
    ]
  ]
    where
      next :
          is_end find it ≡ false
          → visit find (suc fuel) it ≡ it ∷ visit find fuel (increment find it)
      next e = rw e refl

  -- A loop from the first file of a view goes over the iterators of the whole loop from there on.
  pub first_file-from_file :
      (v : SetListingView)
      → length (view_begin find v).rest ≤ length v.range
      → (let first = first_file find v in
          visit find (length first.rest) first ≡ from_file (each find v))
  unfolding first_file
  first_file-from_file v h = first-from_file v (length v.range) (view_begin find v) h
