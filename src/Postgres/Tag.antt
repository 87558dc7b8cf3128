-- ===== src/Postgres/Tag.antt =====
-- src/backends/postgresql/tag.cpp: the query of each operation on tags. `_by_id` takes the ids of files,
-- `_by_regex` regular expressions for paths.
pub mod Sound
use dindexer.Common.{
  ℕ, Bool, true, false, not, List, [], ◌∷◌, Bytes, codes, length, ◌==◌, ltb, if◌then◌else◌, get_or,
}
use dindexer.Postgres.{Param, text, number, texts, numbers, Query, query}
use dindexer.Redis.Tag.{invalid_group_id}

-- `InvalidGroupID != parSet`.
abbrev pub has_set : ℕ → Bool
has_set set = not (set == invalid_group_id)

-- `front()`; the callers have tested the size.
abbrev pub front : List Bytes → Bytes
front l = get_or l 0 []

pub tag_files_by_id : List ℕ → List Bytes → ℕ → Query
tag_files_by_id files tags set =
    if has_set set
    then query
        (codes
          "UPDATE \"files\" SET \"tags\" = ARRAY(SELECT DISTINCT UNNEST(\"tags\" || $1) ORDER BY 1) WHERE \"id\"=ANY($2) AND \"group_id\"=$3;")
        (texts tags ∷ numbers files ∷ number set ∷ [])
    else query
        (codes
          "UPDATE \"files\" SET \"tags\" = ARRAY(SELECT DISTINCT UNNEST(\"tags\" || $1) ORDER BY 1) WHERE \"id\"=ANY($2);")
        (texts tags ∷ numbers files ∷ [])

pub tag_files_by_regex : List Bytes → List Bytes → ℕ → Query
tag_files_by_regex regexes tags set =
    if has_set set
    then if length regexes == 1
      then query
          (codes
            "UPDATE \"files\" SET \"tags\" = ARRAY(SELECT DISTINCT UNNEST(\"tags\" || $1) ORDER BY 1) WHERE \"group_id\"=$2 AND \"path\" ~ $3;")
          (texts tags ∷ number set ∷ text (front regexes) ∷ [])
      else if ltb 1 (length regexes)
      then query
          (codes
            "UPDATE \"files\" SET \"tags\" = ARRAY(SELECT DISTINCT UNNEST(\"tags\" || $1) ORDER BY 1) WHERE \"group_id\"=$2 AND \"path\" ~ ANY($3);")
          (texts tags ∷ number set ∷ texts regexes ∷ [])
      else query
          (codes
            "UPDATE \"files\" SET \"tags\" = ARRAY(SELECT DISTINCT UNNEST(\"tags\" || $1) WHERE \"group_id\"=$2 ORDER BY 1);")
          (texts tags ∷ number set ∷ [])
    else if length regexes == 1
    then query
        (codes
          "UPDATE \"files\" SET \"tags\" = ARRAY(SELECT DISTINCT UNNEST(\"tags\" || $1) ORDER BY 1) WHERE \"path\" ~ $2;")
        (texts tags ∷ text (front regexes) ∷ [])
    else if ltb 1 (length regexes)
    then query
        (codes
          "UPDATE \"files\" SET \"tags\" = ARRAY(SELECT DISTINCT UNNEST(\"tags\" || $1) ORDER BY 1) WHERE \"path\" ~ ANY($2);")
        (texts tags ∷ texts regexes ∷ [])
    else query
        (codes
          "UPDATE \"files\" SET \"tags\" = ARRAY(SELECT DISTINCT UNNEST(\"tags\" || $1) ORDER BY 1);")
        (texts tags ∷ [])

pub delete_tags_by_id : List ℕ → List Bytes → ℕ → Query
delete_tags_by_id files tags set =
    if length tags == 1
    then if has_set set
      then query
          (codes
            "UPDATE \"files\" SET \"tags\" = ARRAY_REMOVE(tags, $1) WHERE \"id\" = ANY($2) AND \"group_id\" = $3;")
          (text (front tags) ∷ numbers files ∷ number set ∷ [])
      else query
          (codes "UPDATE \"files\" SET \"tags\" = ARRAY_REMOVE(tags, $1) WHERE \"id\" = ANY($2);")
          (text (front tags) ∷ numbers files ∷ [])
    else if has_set set
    then query
        (codes
          "UPDATE \"files\" SET \"tags\" = ARRAY(SELECT UNNEST(\"tags\") EXCEPT SELECT UNNEST($1)) WHERE \"id\" = ANY($2) AND \"group_id\" = $3;")
        (texts tags ∷ numbers files ∷ number set ∷ [])
    else query
        (codes
          "UPDATE \"files\" SET \"tags\" = ARRAY(SELECT UNNEST(\"tags\") EXCEPT SELECT UNNEST($1)) WHERE \"id\" = ANY($2);")
        (texts tags ∷ numbers files ∷ [])

pub delete_tags_by_regex : List Bytes → List Bytes → ℕ → Query
delete_tags_by_regex regexes tags set =
    if length tags == 1
    then if has_set set
      then query
          (codes
            "UPDATE \"files\" SET \"tags\" = ARRAY_REMOVE(tags, $1) WHERE  \"group_id\" = $3 AND \"path\" ~ ANY($3);")
          (text (front tags) ∷ number set ∷ texts regexes ∷ [])
      else query
          (codes "UPDATE \"files\" SET \"tags\" = ARRAY_REMOVE(tags, $1) WHERE \"path\" ~ ANY($2);")
          (text (front tags) ∷ texts regexes ∷ [])
    else if has_set set
    then query
        (codes
          "UPDATE \"files\" SET \"tags\" = ARRAY(SELECT UNNEST(\"tags\") EXCEPT SELECT UNNEST($1)) WHERE \"group_id\" = $2 AND \"path\" ~ ANY($3);")
        (texts tags ∷ number set ∷ texts regexes ∷ [])
    else query
        (codes
          "UPDATE \"files\" SET \"tags\" = ARRAY(SELECT UNNEST(\"tags\") EXCEPT SELECT UNNEST($1)) WHERE \"path\" = ANY($2);")
        (texts tags ∷ texts regexes ∷ [])

pub delete_all_tags_by_id : List ℕ → ℕ → Query
delete_all_tags_by_id files set =
    if has_set set
    then query
        (codes "UPDATE \"files\" SET \"tags\" = '{}' WHERE \"id\"=ANY($1) AND \"group_id\"=$2;")
        (numbers files ∷ number set ∷ [])
    else query (codes "UPDATE \"files\" SET \"tags\" = '{}' WHERE \"id\"=ANY($1);")
        (numbers files ∷ [])

pub delete_all_tags_by_regex : List Bytes → ℕ → Query
delete_all_tags_by_regex regexes set =
    if has_set set
    then query
        (codes "UPDATE \"files\" SET \"tags\" = '{}' WHERE \"group_id\"=$1 AND \"path\" ~ ANY($2);")
        (number set ∷ texts regexes ∷ [])
    else query (codes "UPDATE \"files\" SET \"tags\" = '{}' WHERE \"path\" ~ ANY($2);")
        (texts regexes ∷ [])
