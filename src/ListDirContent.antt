-- ===== src/ListDirContent.antt =====
-- src/navigate/listdircontent.cpp: the listings that the navigator shows, with the small cache of
-- the last ones. The database's answers are parameters. A result is `none` where the code throws,
-- reads out of range, or has reached the branch that is not implemented.
pub mod Cache
use dindexer.Common.{
  ℕ, ◌+◌, ◌-◌, ◌%◌, ◌^◌, Option, some, none, List, [], ◌∷◌, ◌++◌, map, Bytes, length, drop,
  get_elem?, leb, bytes_eq, if◌then◌else◌, separated,
}
use dindexer.EntryPath.{
  EntryPath, push_piece, entry_path, to_string, level, group_id, file_path, points_to_group,
}

-- What the navigator asks of a database.
pub record Backend : Type 0 where
  pub find_all_sets : List ℕ
  pub find_set_details : List ℕ → List (List Bytes)
  pub find_file_details : ℕ → ℕ → Bytes → List (List Bytes)
  pub find_paths_starting_by : ℕ → ℕ → Bytes → List Bytes

-- The cached listings, the oldest first.
abbrev pub Cache : Type 0
Cache = List (Bytes × List Bytes)

abbrev pub max_cached_lists : ℕ
max_cached_lists = 4

-- `push_back` of a circular buffer, which drops the oldest element when it is full.
unfoldable pub push_back : Cache → Bytes × List Bytes → Cache
push_back cache x = (if leb max_cached_lists (length cache) then drop 1 cache else cache) ++ x ∷ []

-- A row is its columns with tabs between them.
abbrev pub infix_tab : List Bytes → Bytes
infix_tab [] = []
infix_tab (c ∷ cs) = c ++ separated b'\t' cs

pub db_result_to_vec : List (List Bytes) → List Bytes
db_result_to_vec rows = map infix_tab rows

abbrev pub keep_first :
    Bytes × List Bytes → Option (List Bytes × Cache) → Option (List Bytes × Cache)
keep_first x none = none
keep_first x (some (l, rest)) = some (l, x ∷ rest)

-- The first listing with a path, and the others.
unfoldable pub take_out : Cache → Bytes → Option (List Bytes × Cache)
take_out [] path = none
take_out ((p, l) ∷ cache) path =
    let rest = keep_first (p, l) (take_out cache path) in
    if bytes_eq p path then some (l, cache) else rest

abbrev pub put_last : Bytes → Option (List Bytes × Cache) → Option (List Bytes × Cache)
put_last path none = none
put_last path (some (l, rest)) = some (l, rest ++ (path, l) ∷ [])

unfoldable pub find_and_refresh_in_cache : Cache → Bytes → Option (List Bytes × Cache)
unfolding take_out
find_and_refresh_in_cache cache path = put_last path (take_out cache path)

-- The listing that is cached, or else the one that the database gives, which is cached then.
abbrev pub cached_or :
    Option (List Bytes × Cache) → Bytes → Option (List Bytes) → Cache → Option (List Bytes) × Cache
cached_or (some (l, refreshed)) path asked cache = (some l, refreshed)
cached_or none path none cache = (none, cache)
cached_or none path (some l) cache = (some l, push_back cache (path, l))

abbrev pub name_at : ℕ → Bytes → Option Bytes
name_at n file_item = get_elem? (entry_path file_item).stack n

abbrev pub and_then : Option Bytes → Option (List Bytes) → Option (List Bytes)
and_then (some x) (some xs) = some (x ∷ xs)
and_then (some x) none = none
and_then none xs = none

unfoldable pub names_at : ℕ → List Bytes → Option (List Bytes)
names_at n [] = some []
names_at n (f ∷ fs) = and_then (name_at n f) (names_at n fs)

module _ (db : Backend) (lexical_cast : Bytes → Option ℕ) where
  -- What the database gives for a directory.
  pub listing : EntryPath → Option (List Bytes)
  unfolding db_result_to_vec
  listing p =
      if points_to_group p
      then some (db_result_to_vec (db.find_set_details db.find_all_sets))
      else elim (group_id lexical_cast p) [
        | none ↦ none
        | some id ↦
            some (db_result_to_vec (db.find_file_details id ((level p + 1) % 2 ^ 16) (file_path p)))
      ]

  pub ls : EntryPath → Cache → Option (List Bytes) × Cache
  unfolding find_and_refresh_in_cache listing push_back
  ls p cache =
      cached_or (find_and_refresh_in_cache cache (to_string p)) (to_string p) (listing p) cache

  -- What the database gives for a path that a directory and the start of a name make.
  unfoldable pub listing_starting_by : ℕ → EntryPath → Option (List Bytes)
  unfolding names_at
  listing_starting_by return_level p =
      if points_to_group p then none else elim (group_id lexical_cast p) [
        | none ↦ none
        | some id ↦ names_at return_level (db.find_paths_starting_by id (level p) (file_path p))
      ]

  unfoldable pub ls_starting_by : EntryPath → Bytes → Cache → Option (List Bytes) × Cache
  unfolding find_and_refresh_in_cache listing_starting_by push_back
  ls_starting_by dir start cache =
      let p = push_piece dir start in
      cached_or (find_and_refresh_in_cache cache (to_string p)) (to_string p)
        (listing_starting_by (level dir) p) cache

  -- A run of listings, one directory after the other.
  pub ls_each : List EntryPath → Cache → List (Option (List Bytes))
  unfolding ls
  ls_each [] cache = []
  ls_each (p ∷ ps) cache = let (l, cache') = ls p cache in l ∷ ls_each ps cache'
