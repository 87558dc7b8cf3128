-- ===== src/Postgres/Navigate.antt =====
-- src/backends/postgresql/navigate.hpp and navigate.cpp, and flatinsertin2dlist.inl: columns of sets and
-- files, and the values of a reply put into rows again one by one.
pub mod Rows
use dindexer.Common.{
  ℕ, zero, suc, ◌+◌, Bool, true, false, ◌||◌, Option, some, none, List, [], ◌∷◌, ◌++◌, map, Bytes,
  codes, length, ◌==◌, ltb, if◌then◌else◌,
}
use dindexer.Postgres.{Param, text, number, numbers, Query, query, query_count_limit}

pub data SetDetails : Type 0 where
  desc type creation_date app_name id disk_label fs_uuid : SetDetails

pub data FileDetails : Type 0 where
  file_id path level group_id is_dir is_sym_link size hash is_hash_valid atime mtime unreadable
        mime_type charset :
      FileDetails

abbrev pub set_details_map : SetDetails → Bytes
set_details_map desc = codes "desc"
set_details_map type = codes "type"
set_details_map creation_date = codes "creation"
set_details_map app_name = codes "app_name"
set_details_map id = codes "id"
set_details_map disk_label = codes "disk_label"
set_details_map fs_uuid = codes "fs_uuid"

abbrev pub file_details_map : FileDetails → Bytes
file_details_map file_id = codes "id"
file_details_map path = codes "path"
file_details_map level = codes "level"
file_details_map group_id = codes "group_id"
file_details_map is_dir = codes "is_directory"
file_details_map is_sym_link = codes "is_symlink"
file_details_map size = codes "size"
file_details_map hash = codes "hash"
file_details_map is_hash_valid = codes "is_hash_valid"
file_details_map atime = codes "access_time"
file_details_map mtime = codes "modify_time"
file_details_map unreadable = codes "unreadable"
file_details_map mime_type = codes "mimetype"
file_details_map charset = codes "charset"

-- `operator<<` of columns: each in quotes, with commas between them.
pub print_cols : List Bytes → Bytes
print_cols [] = codes "\"\""
print_cols (c ∷ []) = codes "\"" ++ (c ++ codes "\"")
print_cols (c ∷ d ∷ cols) = codes "\"" ++ (c ++ (codes "\", " ++ print_cols (d ∷ cols)))

unfoldable pub query_no_conditions : List Bytes → Bytes → List ℕ → Query
unfolding print_cols
query_no_conditions cols table ids =
    query
      (codes "SELECT "
        ++ (print_cols cols
            ++ (codes " FROM \""
                ++ (table
                    ++ (codes "\" WHERE \"id\"=ANY($1) ORDER BY \"desc\" ASC LIMIT "
                        ++ (query_count_limit ++ codes ";"))))))
      (numbers ids ∷ [])

unfoldable pub query_files_in_dir : List Bytes → Bytes → ℕ → ℕ → Query
unfolding print_cols
query_files_in_dir cols dir depth group =
    query
      (codes "SELECT "
        ++ (print_cols cols
            ++ (codes
                  " FROM \"files\" WHERE \"level\"=$1 AND \"group_id\"=$2 AND str_begins_with(\"path\", COALESCE($3, '')) ORDER BY \"is_directory\" DESC, \"path\" ASC LIMIT "
                ++ (query_count_limit ++ codes ";"))))
      (number depth ∷ number group ∷ text dir ∷ [])

pub find_paths_starting_by_query : ℕ → ℕ → Bytes → Query
find_paths_starting_by_query group depth start =
    query
      (codes
          "SELECT \"path\" ||\n(SELECT CASE \"is_directory\"\nWHEN TRUE THEN '/'\nELSE ''\nEND) as path FROM \"files\" WHERE \"group_id\"=$1 AND \"level\"=$2 AND str_begins_with(\"path\", COALESCE($3, '')) ORDER BY \"is_directory\" DESC, \"path\" ASC LIMIT "
        ++ (query_count_limit ++ codes ";"))
      (number group ∷ number depth ∷ text start ∷ [])

abbrev pub and_then {ℓ κ} : {A : Type ℓ} {B : Type κ} → Option A → (A → Option B) → Option B
and_then none f = none
and_then (some a) f = f a

-- `FlatInsertIn2DList`, without room that is reserved; no list if the outer list is full.
module _ {A : Type 0} (inner_count outer_count : ℕ) where
  abbrev pub last_size : List (List A) → ℕ
  last_size [] = inner_count
  last_size (r ∷ []) = length r
  last_size (r ∷ q ∷ rs) = last_size (q ∷ rs)

  unfoldable pub expand_array : List (List A) → Option (List (List A))
  expand_array list =
      if last_size list == inner_count
      then if (outer_count == 0) || ltb (length list) outer_count
        then some (list ++ [] ∷ [])
        else none
      else some list

  unfoldable pub push_last : A → List (List A) → List (List A)
  push_last x [] = []
  push_last x (r ∷ []) = (r ++ x ∷ []) ∷ []
  push_last x (r ∷ q ∷ rs) = r ∷ push_last x (q ∷ rs)

  unfoldable pub push_back : A → List (List A) → Option (List (List A))
  unfolding expand_array push_last
  push_back x list = and_then (expand_array list) (λ l. some (push_last x l))

  unfoldable pub push_all : List A → List (List A) → Option (List (List A))
  unfolding push_back
  push_all [] list = some list
  push_all (x ∷ xs) list = and_then (push_back x list) (λ l. push_all xs l)

abbrev pub flatten : List (List Bytes) → List Bytes
flatten [] = []
flatten (r ∷ rs) = r ++ flatten rs

-- `reply` is the rows that the server has for a query, which come back as their values one by one.
pub find_set_details :
    (Query → List (List Bytes)) → List SetDetails → List ℕ → Option (List (List Bytes))
unfolding push_all query_no_conditions
find_set_details reply details ids =
    push_all (length details) 0
      (flatten (reply (query_no_conditions (map set_details_map details) (codes "sets") ids))) []

pub find_file_details :
    (Query → List (List Bytes)) → List FileDetails → ℕ → ℕ → Bytes → Option (List (List Bytes))
unfolding push_all query_files_in_dir
find_file_details reply details set depth dir =
    push_all (length details) 0
      (flatten (reply (query_files_in_dir (map file_details_map details) dir depth set))) []
