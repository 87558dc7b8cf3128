-- ===== src/Redis/Find/Names.antt =====
-- src/backends/redis/find.cpp: sets by a part of their name, and the details of sets and files. The
-- same parameters as in the parent, and the bounds of the level index.
pub mod Paths
use dindexer.Common.{
  ℕ, ◌≡◌, ◌⊎◌, refl, ap, ap₂, inl, inr, Bool, true, false, ◌&&◌, ◌||◌, Option, some, none, List, [],
  ◌∷◌, ◌++◌, map, Bytes, ◌==◌, bytes_eq, if◌then◌else◌, is_empty, Filled,
}
use dindexer.Boost.{Splitter}
use dindexer.Redis.Find.{
  Row, and_then, locate_in_bursts, LocatedSet, construct_set, id_of_key, prefetch_count,
}

-- The text begins with another, by a test on bytes.
unfoldable pub begins_with : (ℕ → ℕ → Bool) → Bytes → Bytes → Bool
begins_with same s [] = true
begins_with same [] (d ∷ t) = false
begins_with same (c ∷ s) (d ∷ t) = same c d && begins_with same s t

-- `std::search` with a test on bytes: whether it gives a place before the end.
unfoldable pub search_hits : (ℕ → ℕ → Bool) → Bytes → Bytes → Bool
unfolding begins_with
search_hits same [] t = false
search_hits same (c ∷ s) t = begins_with same (c ∷ s) t || search_hits same s t

-- `std::string::find`: whether it gives a place, which may be the end for an empty text.
unfoldable pub find_hits : Bytes → Bytes → Bool
unfolding begins_with
find_hits [] t = begins_with (λ c d. c == d) [] t
find_hits (c ∷ s) t = begins_with (λ c d. c == d) (c ∷ s) t || find_hits s t

-- `std::find` in a list of ids.
unfoldable pub has_id : ℕ → List ℕ → Bool
has_id n [] = false
has_id n (m ∷ ms) = (m == n) || has_id n ms

module _ (lexical_cast : Bytes → Option ℕ) (toupper : ℕ → ℕ) where
  -- No ids are given, or the set is one of them; the id is read only then.
  abbrev pub in_sets : List ℕ → Bytes → Option Bool
  in_sets [] id = some true
  in_sets (s ∷ ss) id = and_then (lexical_cast id) (λ i. some (has_id i (s ∷ ss)))

  abbrev pub if_hit : Bool → Option Bool → Option Bool
  if_hit true rest = rest
  if_hit false rest = some false

  unfoldable pub filter_case_ins : Bytes → List ℕ → Row → Bytes → Option Bool
  unfolding search_hits has_id
  filter_case_ins substring sets r id =
      and_then r.first
        (λ s. if_hit (search_hits (λ c d. toupper c == toupper d) s substring) (in_sets sets id))

  unfoldable pub filter_case_sens : Bytes → List ℕ → Row → Bytes → Option Bool
  unfolding find_hits has_id
  filter_case_sens substring sets r id =
      and_then r.first (λ s. if_hit (find_hits s substring) (in_sets sets id))

  unfoldable pub locate_sets_in_db :
      Splitter → (Bytes → Row) → List Bytes → Bytes → List ℕ → Bool → Option (List LocatedSet)
  unfolding locate_in_bursts filter_case_ins filter_case_sens construct_set id_of_key
  locate_sets_in_db boost hmget keys substring sets case_insensitive =
      locate_in_bursts
        (if case_insensitive
          then filter_case_ins substring sets
          else filter_case_sens substring sets)
        (construct_set lexical_cast) hmget (id_of_key boost) keys

  pub locate_sets_in_db_all :
      Splitter → (Bytes → Row) → List Bytes → Bytes → Bool → Option (List LocatedSet)
  unfolding locate_sets_in_db
  locate_sets_in_db_all boost hmget keys substring case_insensitive =
      locate_sets_in_db boost hmget keys substring [] case_insensitive

-- A set with all of its details: the id, the name, the time of creation and the label.
abbrev pub set_details :
    Bytes → Option Bytes → Option Bytes → Option Bytes → List (List Bytes) → List (List Bytes)
set_details id (some creation) (some name) (some label) rest =
    (id ∷ name ∷ creation ∷ label ∷ []) ∷ rest
set_details id (some creation) (some name) none rest = rest
set_details id (some creation) none label rest = rest
set_details id none name label rest = rest

-- `hmget` of the key of each set, and the text of its id, are parameters.
unfoldable pub find_set_details : (ℕ → Row) → (ℕ → Bytes) → List ℕ → List (List Bytes)
find_set_details hmget id_text [] = []
find_set_details hmget id_text (s ∷ ss) =
    let r = hmget s in
    set_details (id_text s) r.first r.second r.third (find_set_details hmget id_text ss)

-- The paths that begin with a directory.
unfoldable pub paths_below : List (Option Bytes) → Bytes → List (List Bytes)
unfolding begins_with
paths_below [] dir = []
paths_below (none ∷ rs) dir = paths_below rs dir
paths_below (some path ∷ rs) dir =
    let rest = paths_below rs dir in
    if begins_with (λ c d. c == d) path dir then (path ∷ []) ∷ rest else rest

-- The replies to a request for the path of each item of the level that is not nil.
abbrev pub path_replies : (Bytes → Option Bytes) → List (Option Bytes) → List (Option Bytes)
path_replies hget [] = []
path_replies hget (none ∷ xs) = path_replies hget xs
path_replies hget (some k ∷ xs) = hget k ∷ path_replies hget xs

abbrev pub details_below :
    (Bytes → Option Bytes) → Option (List (Option Bytes)) → Bytes → List (List Bytes)
details_below hget none dir = []
details_below hget (some lst) dir = paths_below (path_replies hget lst) dir

-- `zrangebyscore` of the levels of a set, at one level, and `hget` of a path are parameters.
unfoldable pub find_file_details :
    (ℕ → ℕ → Option (List (Option Bytes)))
    → (Bytes → Option Bytes)
    → ℕ
    → ℕ
    → Bytes
    → List (List Bytes)
unfolding paths_below
find_file_details zrangebyscore hget set_id lev dir =
    details_below hget (zrangebyscore set_id lev) dir

abbrev pub fronts : List (List Bytes) → List Bytes
fronts [] = []
fronts ([] ∷ rows) = [] ∷ fronts rows
fronts ((c ∷ cs) ∷ rows) = c ∷ fronts rows

unfoldable pub find_paths_starting_by :
    (ℕ → ℕ → Option (List (Option Bytes))) → (Bytes → Option Bytes) → ℕ → ℕ → Bytes → List Bytes
unfolding find_file_details
find_paths_starting_by zrangebyscore hget group_id lev path =
    fronts (find_file_details zrangebyscore hget group_id lev path)
