-- ===== src/Redis/Delete.antt =====
-- src/backends/redis/delete.cpp: which keys the deletion of sets sends to the server. The server's
-- replies are parameters; commands are listed in the order in which they join the batch. Ids are taken
-- as numbers that stay below the limit of their 32 bits.
pub mod Chunks
pub mod Sets
use dindexer.Common.{
  ℕ, zero, suc, ◌+◌, ◌-◌, ◌*◌, ◌/◌, ◌≡◌, Bool, true, false, not, ◌&&◌, Option, some, none, List, [],
  ◌∷◌, ◌++◌, map, Bytes, length, ◌==◌, ltb, if◌then◌else◌,
}

-- The ids `from`, `from + 1`, …, of which there are `count`: `counting_iterator`.
pub ids_from : ℕ → ℕ → List ℕ
ids_from from zero = []
ids_from from (suc count) = from ∷ ids_from (suc from) count

-- The second loop of `chunked_run_pvt`: a command for each key from `i` on.
pub run_single : ℕ → ℕ → List (List ℕ)
run_single i zero = []
run_single i (suc rounds) = (i ∷ []) ∷ run_single (suc i) rounds

module _ (chunk : ℕ) where
  -- The first loop of `chunked_run_pvt`: a command for each whole chunk, of `chunk` keys each.
  pub run_chunks : ℕ → ℕ → ℕ → List (List ℕ)
  unfolding ids_from
  run_chunks from zero i = []
  run_chunks from (suc rounds) i =
      ids_from (i * chunk + from) chunk ∷ run_chunks from rounds (suc i)

  -- The ids of the commands that `chunked_run` adds to the batch.
  pub chunked_run : ℕ → ℕ → List (List ℕ)
  unfolding run_chunks run_single
  chunked_run from count =
      let start = ((from + count) / chunk) * chunk in
      run_chunks from (count / chunk) 0 ++ run_single start (from + count - start)

-- The reply to `hmget` of a set's fields, when the set exists.
pub record SetInfo : Type 0 where
  pub base_file_id : ℕ
  pub item_count : ℕ
  pub name : Bytes

-- What the server answers.
pub record Replies : Type 0 where
  pub set_info : ℕ → Option SetInfo
  pub file_hash : ℕ → Bytes

pub record IdRange : Type 0 where
  pub set_id : ℕ
  pub file_base_index : ℕ
  pub file_count : ℕ

-- What is sent to the server, in order: the questions for the fields of a set and for the hash of a file,
-- which change nothing, and what deletes. `delete_all_tags` is the call of tag.cpp.
pub data Effect : Type 0 where
  fetch_set : ℕ → Effect
  fetch_hash : ℕ → Effect
  delete_all_tags : List ℕ → ℕ → Effect
  delete_hash : Bytes → ℕ → ℕ → Effect
  delete_set : ℕ → Effect
  delete_levels : ℕ → Effect
  delete_files : List ℕ → Effect

-- `operator[]` of a `std::map` and an assignment: keys ascend.
pub map_set : ℕ → Bytes → List (ℕ × Bytes) → List (ℕ × Bytes)
map_set k v [] = (k, v) ∷ []
map_set k v ((j, w) ∷ m) =
    let rest = (j, w) ∷ map_set k v m in
    if k == j then (k, v) ∷ m else if ltb k j then (k, v) ∷ (j, w) ∷ m else rest

-- The end of `confirm_dele`: the user is asked if there is anything to delete.
abbrev pub ask : (List (ℕ × Bytes) → Bool) → List (ℕ × Bytes) → Bool × ℕ
ask conf [] = (false, 0)
ask conf (e ∷ m) = (conf (e ∷ m), length (e ∷ m))

module _ (replies : Replies) where
  -- The loop that fills the map of the sets to be deleted.
  pub dele_list : List ℕ → List (ℕ × Bytes) → List (ℕ × Bytes)
  unfolding map_set
  dele_list [] m = m
  dele_list (id ∷ ids) m =
      dele_list ids (elim (replies.set_info id) [ none ↦ m | some info ↦ map_set id info.name m ])

  -- The questions for the sets are in `delete_group_from_db`.
  pub confirm_dele : List ℕ → (List (ℕ × Bytes) → Bool) → Bool × ℕ
  unfolding dele_list
  confirm_dele [] conf = (false, 0)
  confirm_dele (id ∷ ids) conf = ask conf (dele_list (id ∷ ids) [])

  pub ranges_of : List ℕ → List IdRange
  ranges_of [] = []
  ranges_of (id ∷ ids) = elim (replies.set_info id) [
    | none ↦ ranges_of ids
    | some info ↦
        record { set_id = id; file_base_index = info.base_file_id; file_count = info.item_count }
        ∷ ranges_of ids
  ]

  pub hash_effects : IdRange → List ℕ → List Effect
  hash_effects r [] = []
  hash_effects r (i ∷ ids) =
      delete_hash (replies.file_hash i) r.file_base_index r.file_count ∷ hash_effects r ids

  -- What one set adds to the batch.
  pub set_effects : IdRange → List Effect
  unfolding hash_effects chunked_run
  set_effects r =
      map fetch_hash (ids_from r.file_base_index r.file_count)
      ++ (hash_effects r (ids_from r.file_base_index r.file_count)
          ++ delete_set r.set_id
            ∷ delete_levels r.set_id
            ∷ map delete_files (chunked_run 8 r.file_base_index r.file_count))

  pub tag_effects : List IdRange → List Effect
  tag_effects [] = []
  tag_effects (r ∷ rs) =
      delete_all_tags (ids_from r.file_base_index r.file_count) r.set_id ∷ tag_effects rs

  pub batch_effects : List IdRange → List Effect
  unfolding set_effects
  batch_effects [] = []
  batch_effects (r ∷ rs) = set_effects r ++ batch_effects rs

  pub delete_group_from_db : List ℕ → (List (ℕ × Bytes) → Bool) → List Effect
  unfolding confirm_dele ranges_of tag_effects batch_effects
  delete_group_from_db ids conf =
      let after_answer =
        if not (confirm_dele ids conf).0
        then []
        else tag_effects (ranges_of ids) ++ batch_effects (ranges_of ids) in
      map fetch_set ids ++ after_answer
