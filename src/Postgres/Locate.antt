-- ===== src/Postgres/Locate.antt =====
-- src/backends/postgresql/locate.cpp: the queries that look for files and sets, and what their replies
-- become. `lexical_cast` of a text to a number is a parameter, `none` if it throws.
pub mod Sound
use dindexer.Common.{ℕ, Bool, true, false, Option, some, none, List, [], ◌∷◌, ◌++◌, Bytes, codes}
use dindexer.RecordData.{TigerHash}
use dindexer.Hashing.{tiger_to_string}
use dindexer.Redis.Find.{LocatedItem, LocatedSet}
use dindexer.Postgres.{Param, text, flag, texts, numbers, Query, query, query_count_limit}
use dindexer.Postgres.Navigate.{and_then}

-- A record of a reply, by the names of its columns.
abbrev pub Record : Type 0
Record = Bytes → Bytes

module _ (lexical_cast : Bytes → Option ℕ) where
  abbrev pub located_set : Record → Option LocatedSet
  located_set r = and_then (lexical_cast (r (codes "id"))) λ i.
      and_then (lexical_cast (r (codes "file_count"))) λ files.
        and_then (lexical_cast (r (codes "dir_count"))) λ dirs.
          some (record { desc = r (codes "desc"); id = i; files_count = files; dir_count = dirs })

  abbrev pub located_item : Record → Option LocatedItem
  located_item r = and_then (lexical_cast (r (codes "id"))) λ i.
      and_then (lexical_cast (r (codes "group_id")))
        λ group. some (record { path = r (codes "path"); id = i; group_id = group })

  pub sets_result_to_vec : List Record → Option (List LocatedSet)
  sets_result_to_vec [] = some []
  sets_result_to_vec (r ∷ rs) =
      and_then (located_set r) λ s. and_then (sets_result_to_vec rs) λ l. some (s ∷ l)

  pub file_result_to_vec : List Record → Option (List LocatedItem)
  file_result_to_vec [] = some []
  file_result_to_vec (r ∷ rs) =
      and_then (located_item r) λ i. and_then (file_result_to_vec rs) λ l. some (i ∷ l)

-- The query of files, with a condition on tags if there are any.
pub locate_query : Bytes → Bytes → List Bytes → List Param → Query
locate_query base_query token [] params =
    query (base_query ++ (codes " LIMIT " ++ (query_count_limit ++ codes ";"))) params
locate_query base_query token (t ∷ tags) params =
    query
      (base_query
        ++ (codes " AND \"tags\" @> "
            ++ (token ++ (codes " LIMIT " ++ (query_count_limit ++ codes ";")))))
      (params ++ texts (t ∷ tags) ∷ [])

pub locate_by_path : Bytes → List Bytes → Query
unfolding locate_query
locate_by_path search tags =
    locate_query (codes "SELECT \"path\",\"id\",\"group_id\" FROM \"files\" WHERE \"path\" ~ $1")
      (codes "$2") tags (text search ∷ [])

pub locate_by_hash : TigerHash → List Bytes → Query
unfolding locate_query
locate_by_hash search tags =
    locate_query (codes "SELECT \"path\",\"id\",\"group_id\" FROM \"files\" WHERE \"hash\"=$1")
      (codes "$2") tags (text (tiger_to_string search true) ∷ [])

pub locate_sets : Bytes → Bool → Query
locate_sets search case_insensitive =
    query
      (codes
          "SELECT \"id\", \"desc\", (SELECT COUNT(*) FROM \"files\" WHERE \"group_id\"=\"sets\".\"id\" AND NOT \"is_directory\") as \"file_count\", (SELECT COUNT(*) FROM \"files\" WHERE \"group_id\"=\"sets\".\"id\" AND \"is_directory\") as \"dir_count\" FROM \"sets\" WHERE str_match_partial(\"desc\", $1, $2) LIMIT "
        ++ (query_count_limit ++ codes ";"))
      (text search ∷ flag case_insensitive ∷ [])

pub locate_sets_in : Bytes → List ℕ → Bool → Query
unfolding locate_sets
locate_sets_in search [] case_insensitive = locate_sets search case_insensitive
locate_sets_in search (s ∷ sets) case_insensitive =
    query
      (codes
          "SELECT \"id\", \"desc\", (SELECT COUNT(*) FROM \"files\" WHERE \"group_id\"=\"sets\".\"id\" AND NOT \"is_directory\") as \"file_count\", (SELECT COUNT(*) FROM \"files\" WHERE \"group_id\"=\"sets\".\"id\" AND \"is_directory\") as \"dir_count\" FROM \"sets\" WHERE \"id\" = ANY($1) AND str_match_partial(\"desc\", $3, $2) LIMIT "
        ++ (query_count_limit ++ codes ";"))
      (text search ∷ flag case_insensitive ∷ numbers (s ∷ sets) ∷ [])
