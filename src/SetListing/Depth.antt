-- ===== src/SetListing/Depth.antt =====
-- Enough fuel for the recursion of the helpers: the length of the listing.
use dindexer.Common.{
  ℕ, zero, suc, ◌+◌, ◌≤◌, ◌<◌, ◌≡◌, refl, ap₂, inl, inr, true, Option, some, none, List, [], ◌∷◌,
  ◌++◌, arith, length, All, ==_refl, if◌then◌else◌, Bool-cases, drop, take,
}
use dindexer.Boost.{StringFind}
use dindexer.RecordData.{FileRecordData, rel_path}
use dindexer.PathName.{PathName, atom_count, path_name}
use dindexer.SetListing.{
  DirIterator, SetListingView, seek, seek_from, skip_from, base_of, is_end_at, is_end, increment,
  visit, dir_iterator, view_begin, view_at,
}
use dindexer.SetListing.Children.{skip-suffix, seek-suffix}
use dindexer.SetListing.Helpers.{each, flatten_each, flattened_listing, front_is}

module _ (find : StringFind) (offset : ℕ) where
  -- The level of each record is the depth of its path, less the offset.
  abbrev pub Deep : List FileRecordData → Type 0
  Deep = All (λ r. r.level + offset ≡ atom_count (path_name find (rel_path r)))

  -- What is kept of a list that is shortened from the front.
  abbrev Shorter : ℕ → List FileRecordData → Type 0
  Shorter n rs = (length rs ≤ n) × Deep rs

  Shorter-tail :
      (n : ℕ) (r : FileRecordData) (rs : List FileRecordData) → Shorter n (r ∷ rs) → Shorter n rs
  Shorter-tail n r rs (h, d) = (omega arith, d.1)

  abbrev Keeps : ℕ → DirIterator → Type 0
  Keeps n it = Shorter n it.rest × (it.level_offset ≡ offset)

  skip_base :
      (n : ℕ) (b : Option PathName) (o : ℕ) (rs : List FileRecordData)
      → Shorter n rs
      → Shorter n (skip_from find b o rs)
  skip_base n none o rs h = h
  skip_base n (some b) o rs h = skip-suffix find b o (Shorter n) (Shorter-tail n) rs h

  drop-Shorter : (n : ℕ) (rs : List FileRecordData) → Shorter n rs → Shorter n (drop 1 rs)
  drop-Shorter n [] h = h
  drop-Shorter n (r ∷ rs) h = Shorter-tail n r rs h

  visit-Keeps : (fuel n : ℕ) (it : DirIterator) → Keeps n it → All (Keeps n) (visit find fuel it)
  unfolding visit increment
  visit-Keeps zero n it k = tt
  visit-Keeps (suc fuel) n it (k, o) = elim (Bool-cases (is_end find it)) [
    | inl e ↦ rw e tt
    | inr ne ↦ rw ne (
      (k, o),
      visit-Keeps fuel n (increment find it)
          (skip_base n it.base_path it.level_offset (drop 1 it.rest) (drop-Shorter n it.rest k), o),
    )
  ]

  -- A directory's own view begins behind the directory.
  view_at-Shorter :
      (n : ℕ) (it : DirIterator)
      → Keeps (suc n) it
      → Shorter n (view_begin find (view_at find it)).rest
  unfolding view_begin view_at dir_iterator seek
  view_at-Shorter n it (k, o) = rw o (go it.rest k)
    where
      go :
          (rs : List FileRecordData)
          → Shorter (suc n) rs
          → Shorter n (seek_from find (base_of find rs) offset rs)
      go [] k = (omega arith, tt)
      go (r ∷ rs) (h, d) =
          rw (d.0, ==_refl (atom_count (path_name find (rel_path r))))
            (seek-suffix find (path_name find (rel_path r)) offset (Shorter n) (Shorter-tail n) rs
              (omega arith, d.1))

  pub visit-nil : (fuel : ℕ) (it : DirIterator) → length it.rest ≤ 0 → visit find fuel it ≡ []
  unfolding visit is_end is_end_at
  visit-nil zero it h = refl
  visit-nil (suc fuel) it h = rw (ended it.base_path it.rest h)
    where
      ended :
          (b : Option PathName) (rs : List FileRecordData)
          → length rs ≤ 0
          → is_end_at find b it.level_offset rs ≡ true
      ended none rs h = refl
      ended (some b) [] h = refl
      ended (some b) (r ∷ rs) h = absurd (omega arith)

  flatten_each-eq :
      (f g : SetListingView → List FileRecordData) (n : ℕ) (its : List DirIterator)
      → ((it : DirIterator) → Keeps n it → f (view_at find it) ≡ g (view_at find it))
      → All (Keeps n) its
      → flatten_each find f its ≡ flatten_each find g its
  unfolding flatten_each
  flatten_each-eq f g n [] h a = refl
  flatten_each-eq f g n (it ∷ its) h (a, as') =
      ap₂
        (λ x y. take 1 it.rest ++ ((if front_is (λ r. r.is_directory) it.rest then x else []) ++ y))
        (h it a) (flatten_each-eq f g n its h as')

  -- Flattening a view ends by itself: more fuel than the list behind its begin is long changes
  -- nothing, if the level of each record there is the depth of its path, less the view's offset.
  pub flattened_listing_fuel :
      (fuel n : ℕ) (v : SetListingView)
      → n < fuel
      → length (view_begin find v).rest ≤ n
      → Deep (view_begin find v).rest
      → v.level_offset ≡ offset
      → flattened_listing find (suc fuel) v ≡ flattened_listing find fuel v
  unfolding flattened_listing flatten_each view_at view_begin dir_iterator
  flattened_listing_fuel zero n v h l d o = absurd (omega arith)
  flattened_listing_fuel (suc fuel) zero v h l d o =
      rw (visit-nil (length v.range) (view_begin find v) l)
  flattened_listing_fuel (suc fuel) (suc n) v h l d o =
      flatten_each-eq (flattened_listing find (suc fuel)) (flattened_listing find fuel) (suc n)
        (each find v)
        (λ it k.
          let s = view_at-Shorter n it k in
          flattened_listing_fuel fuel n (view_at find it) (omega arith) s.0 s.1 k.1)
        (visit-Keeps (length v.range) (suc n) (view_begin find v) ((l, d), o))
