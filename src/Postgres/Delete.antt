-- ===== src/Postgres/Delete.antt =====
-- src/backends/postgresql/delete.cpp: the query for the sets that exist, and the one that deletes them.
-- How a number is printed is a parameter; a map is a list of pairs.
use dindexer.Common.{ℕ, Bool, List, [], ◌∷◌, ◌++◌, map, Bytes, codes, if◌then◌else◌}
use dindexer.Postgres.{Query, query}

module _ (print : ℕ → Bytes) where
  -- What the infix iterator writes.
  pub infix_ids : Bytes → List ℕ → Bytes
  infix_ids between [] = []
  infix_ids between (i ∷ []) = print i
  infix_ids between (i ∷ j ∷ ids) = print i ++ (between ++ infix_ids between (j ∷ ids))

  pub fetch_query : List ℕ → Query
  unfolding infix_ids
  fetch_query ids =
      query
        (codes "SELECT \"id\",\"desc\" FROM \"sets\" WHERE \"id\"="
          ++ (infix_ids (codes " OR \"id\"=") ids ++ codes ";"))
        []

  pub dele_query : List ℕ → Query
  unfolding infix_ids
  dele_query ids =
      query
        (codes "BEGIN;\nDELETE FROM \"files\" WHERE \"group_id\"="
          ++ (infix_ids (codes " OR \"group_id\"=") ids
              ++ (codes ";\nDELETE FROM \"sets\" WHERE \"id\"="
                  ++ (infix_ids (codes " OR \"id\"=") ids ++ codes ";\nCOMMIT;"))))
        []

  abbrev pub keys : List (ℕ × Bytes) → List ℕ
  keys = map (λ d. d.0)

  -- Sends nothing for no ids, only the first query if the server knows none of them or the deletion is
  -- not confirmed. `reply` is what the server knows of the ids.
  pub delete_group_from_db :
      List ℕ → (List ℕ → List (ℕ × Bytes)) → (List (ℕ × Bytes) → Bool) → List Query
  unfolding fetch_query dele_query
  delete_group_from_db [] reply confirm = []
  delete_group_from_db (i ∷ ids) reply confirm = elim (reply (i ∷ ids)) [
    | [] ↦ fetch_query (i ∷ ids) ∷ []
    | d ∷ ds ↦
        if confirm (d ∷ ds)
        then fetch_query (i ∷ ids) ∷ dele_query (keys (d ∷ ds)) ∷ []
        else fetch_query (i ∷ ids) ∷ []
  ]
