-- ===== src/SetListing.antt =====
-- src/machinery/set_listing.cpp, include/dindexer-machinery/set_listing.hpp and
-- set_listing_helpers.hpp: the sorted list of records of a scan, and iteration over the direct
-- children of a directory in it. An iterator is what is left of the list from `m_current` to `m_end`.
pub mod Helpers
pub mod Depth
pub mod Order
pub mod Children
pub mod FirstFile
use dindexer.Common.{
  ℕ, zero, suc, ◌+◌, ◌-◌, ◌≡◌, Bool, true, false, not, ◌&&◌, ◌||◌, Option, none, some, List, [],
  ◌∷◌, ◌++◌, Bytes, length, take, drop, ◌==◌, ltb, if◌then◌else◌,
}
use dindexer.Boost.{StringFind}
use dindexer.RecordData.{FileRecordData, rel_path}
use dindexer.PathName.{PathName, path_name, path_ne, pop_right, atom_count}

-- `operator<` of texts.
unfoldable pub bytes_lt : Bytes → Bytes → Bool
bytes_lt s [] = false
bytes_lt [] (d ∷ t) = true
bytes_lt (c ∷ s) (d ∷ t) = ltb c d || ((c == d) && bytes_lt s t)

-- `FileRecordDataForSearch`: what the order looks at.
pub record SearchKey : Type 0 where
  pub abs_path : Bytes
  pub level : ℕ
  pub is_directory : Bool

abbrev pub key : FileRecordData → SearchKey
key r = record { abs_path = r.abs_path; level = r.level; is_directory = r.is_directory }

abbrev pub bool_eq : Bool → Bool → Bool
bool_eq true b = b
bool_eq false b = not b

unfoldable pub file_record_data_lt : SearchKey → SearchKey → Bool
unfolding bytes_lt
file_record_data_lt l r =
    ltb l.level r.level
    || (((l.level == r.level) && (l.is_directory && not r.is_directory))
        || ((l.level == r.level)
            && (bool_eq l.is_directory r.is_directory && bytes_lt l.abs_path r.abs_path)))

-- `std::lower_bound` in a sorted list: how many elements stand before the first that is not less.
pub lower_bound : List FileRecordData → SearchKey → ℕ
unfolding file_record_data_lt
lower_bound [] k = 0
lower_bound (r ∷ rs) k =
    let rest = suc (lower_bound rs k) in if file_record_data_lt (key r) k then rest else 0

-- `insert` in front of the position that `lower_bound` gives.
pub insert_sorted : List FileRecordData → FileRecordData → List FileRecordData
unfolding lower_bound
insert_sorted rs r = let n = lower_bound rs (key r) in take n rs ++ r ∷ drop n rs

-- `sort_list`, as an insertion sort.
pub sort_list : List FileRecordData → List FileRecordData
unfolding insert_sorted
sort_list [] = []
sort_list (r ∷ rs) = insert_sorted (sort_list rs) r

pub record DirIterator : Type 0 where
  pub rest : List FileRecordData
  pub base_path : Option PathName
  pub level_offset : ℕ

pub record SetListingView : Type 0 where
  pub range : List FileRecordData
  pub base_path : Option PathName
  pub level_offset : ℕ

pub files_count : List FileRecordData → ℕ
files_count [] = 0
files_count (r ∷ rs) = (if not r.is_directory then 1 else 0) + files_count rs

pub dir_count : List FileRecordData → ℕ
dir_count [] = 0
dir_count (r ∷ rs) = (if r.is_directory then 1 else 0) + dir_count rs

module _ (find : StringFind) where
  -- `*m_base_path != PathName(r.path()).pop_right()`.
  unfoldable pub is_elsewhere : PathName → FileRecordData → Bool
  is_elsewhere base r = path_ne base (pop_right (path_name find (rel_path r)))

  -- The loop of the constructor: up to where the children of the base path start.
  unfoldable pub seek : PathName → ℕ → List FileRecordData → List FileRecordData
  unfolding is_elsewhere
  seek base offset [] = []
  seek base offset (r ∷ rs) =
      if (r.level + offset == atom_count base) || is_elsewhere base r
      then seek base offset rs
      else r ∷ rs

  -- The loop of `increment`, behind its first step.
  pub skip : PathName → ℕ → List FileRecordData → List FileRecordData
  unfolding is_elsewhere
  skip base offset [] = []
  skip base offset (r ∷ rs) =
      if (r.level + offset == atom_count base + 1) && is_elsewhere base r
      then skip base offset rs
      else r ∷ rs

  abbrev pub seek_from : Option PathName → ℕ → List FileRecordData → List FileRecordData
  seek_from none offset rs = rs
  seek_from (some base) offset rs = seek base offset rs

  -- The constructor from a range; with no base path the range is empty.
  unfoldable pub dir_iterator : List FileRecordData → Option PathName → ℕ → DirIterator
  unfolding seek
  dir_iterator rs base offset = record {
    rest = seek_from base offset rs;
    base_path = base;
    level_offset = offset;
  }

  abbrev pub skip_from : Option PathName → ℕ → List FileRecordData → List FileRecordData
  skip_from none offset rs = rs
  skip_from (some base) offset rs = skip base offset rs

  pub increment : DirIterator → DirIterator
  unfolding skip
  increment it = record it { rest = skip_from it.base_path it.level_offset (drop 1 it.rest) }

  unfoldable pub is_end_at : Option PathName → ℕ → List FileRecordData → Bool
  is_end_at none offset rs = true
  is_end_at (some base) offset [] = true
  is_end_at (some base) offset (r ∷ rs) = not (r.level + offset == atom_count base + 1)

  unfoldable pub is_end : DirIterator → Bool
  unfolding is_end_at
  is_end it = is_end_at it.base_path it.level_offset it.rest

  -- `equal`, for two iterators into the same list: at the same place, or both at the end.
  pub iterator_eq : DirIterator → DirIterator → Bool
  unfolding is_end
  iterator_eq a b = (length a.rest == length b.rest) || (is_end a && is_end b)

  -- `SetListingView` from an iterator, and `begin` and `end` of a view.
  abbrev pub base_of : List FileRecordData → Option PathName
  base_of [] = none
  base_of (r ∷ rs) = some (path_name find (rel_path r))

  unfoldable pub view_at : DirIterator → SetListingView
  view_at it = record {
    range = it.rest;
    base_path = base_of it.rest;
    level_offset = it.level_offset;
  }

  -- `make_view` of a list.
  pub make_view : List FileRecordData → SetListingView
  make_view rs = record {
    range = rs;
    base_path = base_of rs;
    level_offset = elim (base_of rs) [ none ↦ 0 | some p ↦ atom_count p ];
  }

  unfoldable pub view_begin : SetListingView → DirIterator
  unfolding dir_iterator
  view_begin v = dir_iterator v.range v.base_path v.level_offset

  pub view_end : SetListingView → DirIterator
  view_end v = record { rest = []; base_path = v.base_path; level_offset = v.level_offset }

  -- A loop over the records from an iterator to the end, on fuel for its rounds.
  pub visit : ℕ → DirIterator → List DirIterator
  unfolding is_end increment
  visit zero it = []
  visit (suc fuel) it = let more = it ∷ visit fuel (increment it) in if is_end it then [] else more
