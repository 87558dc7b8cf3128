-- ===== src/Postgres/Locate/Sound.antt =====
-- Which searches send a query whose parameters are what its text asks for.
use dindexer.Common.{ℕ, ◌≡◌, refl, Bool, true, List, [], ◌∷◌, Bytes, length, ◌==◌, ==_suc_zero}
use dindexer.RecordData.{TigerHash}
use dindexer.Postgres.Prepared.{is_prepared, is_typed}
use dindexer.Postgres.Locate.{locate_by_path, locate_by_hash, locate_sets_in}

locate_by_path_typed :
    (search : Bytes) (tags : List Bytes)
    → (is_prepared (locate_by_path search tags) ≡ true)
      × (is_typed (locate_by_path search tags) ≡ true)
unfolding is_prepared is_typed locate_by_path
locate_by_path_typed search [] = (refl, refl)
locate_by_path_typed search (t ∷ tags) = (refl, refl)

locate_by_hash_typed :
    (search : TigerHash) (tags : List Bytes)
    → (is_prepared (locate_by_hash search tags) ≡ true)
      × (is_typed (locate_by_hash search tags) ≡ true)
unfolding is_prepared is_typed locate_by_hash
locate_by_hash_typed search [] = (refl, refl)
locate_by_hash_typed search (t ∷ tags) = (refl, refl)

locate_sets_in_typed :
    (search : Bytes) (sets : List ℕ) (case_insensitive : Bool)
    → (is_prepared (locate_sets_in search sets case_insensitive) ≡ true)
      × (is_typed (locate_sets_in search sets case_insensitive) ≡ (length sets == 0))
unfolding is_prepared is_typed locate_sets_in
locate_sets_in_typed search [] case_insensitive = (refl, refl)
locate_sets_in_typed search (s ∷ sets) case_insensitive =
    (refl, rw (==_suc_zero (length sets)) refl)

-- The queries that look for files use each of their parameters, lists as lists. So does the one
-- that looks for sets, as far as their number goes; but if it is confined to given sets, a
-- parameter has not the type that the text asks for.
pub locate_queries_typed :
    (search : Bytes) (hash : TigerHash) (tags : List Bytes) (sets : List ℕ)
    (case_insensitive : Bool)
    → (is_typed (locate_by_path search tags) ≡ true)
      × (is_typed (locate_by_hash hash tags) ≡ true)
      × (is_typed (locate_sets_in search sets case_insensitive) ≡ (length sets == 0))
      × (is_prepared (locate_by_path search tags) ≡ true)
      × (is_prepared (locate_by_hash hash tags) ≡ true)
      × (is_prepared (locate_sets_in search sets case_insensitive) ≡ true)
locate_queries_typed search hash tags sets case_insensitive = (
  (locate_by_path_typed search tags).1,
  (locate_by_hash_typed hash tags).1,
  (locate_sets_in_typed search sets case_insensitive).1,
  (locate_by_path_typed search tags).0,
  (locate_by_hash_typed hash tags).0,
  (locate_sets_in_typed search sets case_insensitive).0,
)
