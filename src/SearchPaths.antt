-- ===== src/SearchPaths.antt =====
-- src/core/searchpaths.cpp: a list of directories without repetitions, and the search for an entry in
-- them. The directory listings of Boost.Filesystem are a parameter.
pub mod Hits
use dindexer.Common.{
  ℕ, suc, ◌+◌, ◌≡◌, ◌≢◌, ◌⊎◌, refl, ap, sym, ◌∙◌, inl, inr, Bool, true, false, not, ◌&&◌, ◌||◌,
  Option, some, none, List, [], ◌∷◌, ◌++◌, arith, Bytes, All, All-append, length, drop, bytes_eq,
  bytes_eq→eq, bytes_eq_refl, if◌then◌else◌, Bool-cases,
}

pub record DirectoryEntry : Type 0 where
  pub path : Bytes
  pub is_directory : Bool

pub data SearchType : Type 0 where
  any file directory : SearchType

abbrev pub Listing : Type 0
Listing = Bytes → List DirectoryEntry

-- The test on the kind of an entry.
pub of_type : SearchType → DirectoryEntry → Bool
of_type any e = true
of_type file e = not e.is_directory
of_type directory e = e.is_directory

abbrev pub Predicate : Type 0
Predicate = Bytes → Bytes → Bool

-- The inner loop of `first_hit_impl`: `none` when it ends without a hit.
pub hit_in : Predicate → SearchType → Bytes → List DirectoryEntry → Option Bytes
unfolding of_type
hit_in predicate type dir [] = none
hit_in predicate type dir (e ∷ es) =
    let rest = hit_in predicate type dir es in
    if of_type type e && predicate dir e.path then some e.path else rest

abbrev pub hit_or : Option Bytes → Bytes → Bytes
hit_or (some p) rest = p
hit_or none rest = rest

-- `first_hit_impl`: the empty text when there is no hit.
pub first_hit : Listing → List Bytes → Predicate → SearchType → Bytes
unfolding hit_in
first_hit listing [] predicate type = []
first_hit listing (dir ∷ dirs) predicate type =
    let rest = first_hit listing dirs predicate type in
    hit_or (hit_in predicate type dir (listing dir)) rest

-- The path is the directory, a separator and the file name.
pub is_same_filename : Bytes → Predicate
is_same_filename name base_dir full_path = bytes_eq (drop (length base_dir + 1) full_path) name

unfoldable pub contains_path : List Bytes → Bytes → Bool
contains_path [] p = false
contains_path (q ∷ qs) p = bytes_eq q p || contains_path qs p

pub add_path : List Bytes → Bytes → List Bytes
unfolding contains_path
add_path paths p = if contains_path paths p then paths else paths ++ p ∷ []
