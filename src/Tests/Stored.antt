-- ===== src/Tests/Stored.antt =====
-- Queries at concrete inputs.
use dindexer.Common.{
  ℕ, ◌≡◌, refl, arith, true, false, Option, some, none, List, [], ◌∷◌, Bytes, codes, length, ◌==◌,
  if◌then◌else◌,
}
use dindexer.RecordData.{FileRecordData, file_record, zero_hash}
use dindexer.Scan.Lazy.{SetRecordDataFull}
use dindexer.Postgres.{Query}
use dindexer.Postgres.Prepared.{is_prepared, is_typed, confined_to}
use dindexer.Postgres.Tag.{
  tag_files_by_id, tag_files_by_regex, delete_tags_by_id, delete_tags_by_regex,
  delete_all_tags_by_id, delete_all_tags_by_regex,
}
use dindexer.Postgres.Tag.Sound.{is_sound, tag_queries_sound, tag_queries_confined}
use dindexer.Postgres.Navigate.{
  desc, type, path, find_set_details, find_file_details, query_no_conditions, query_files_in_dir,
}
use dindexer.Postgres.Navigate.Rows.{find_details-rows}
use dindexer.Postgres.Locate.{locate_by_path, locate_by_hash, locate_sets_in}
use dindexer.Postgres.Locate.Sound.{locate_queries_typed}
use dindexer.Postgres.Scan.{file_query, read_item}
use dindexer.Postgres.Scan.Stored.{SameEntry, inserted_row, read_item-inserted_row}

abbrev live : List Bytes
live = codes "live" ∷ []

abbrev flacs : List Bytes
flacs = codes "\\.flac$" ∷ []

tag_queries_sound_example :
    (is_sound (tag_files_by_id (4 ∷ []) live 2) ≡ true)
    × (is_sound (tag_files_by_regex flacs live 2) ≡ true)
    × (is_sound (delete_tags_by_id (4 ∷ []) live 2) ≡ true)
    × (is_sound (delete_tags_by_regex flacs live 2) ≡ false)
    × (is_sound (delete_all_tags_by_id (4 ∷ []) 2) ≡ true)
    × (is_sound (delete_all_tags_by_regex flacs 2) ≡ true)
tag_queries_sound_example = tag_queries_sound (4 ∷ []) flacs live 2

tag_queries_confined_example :
    (confined_to (tag_files_by_id (4 ∷ []) live 2) ≡ some 2)
    × (confined_to (tag_files_by_regex [] live 2) ≡ none)
    × (confined_to (delete_tags_by_id (4 ∷ []) live 2) ≡ some 2)
    × (confined_to (delete_tags_by_regex [] live 2) ≡ none)
    × (confined_to (delete_all_tags_by_id (4 ∷ []) 2) ≡ some 2)
    × (confined_to (delete_all_tags_by_regex [] 2) ≡ some 2)
tag_queries_confined_example = tag_queries_confined (4 ∷ []) [] live 2 (λ e. absurd (omega arith))

locate_queries_typed_example :
    (is_typed (locate_by_path (codes "ogg") live) ≡ true)
    × (is_typed (locate_by_hash zero_hash live) ≡ true)
    × (is_typed (locate_sets_in (codes "ogg") (3 ∷ []) true) ≡ false)
    × (is_prepared (locate_by_path (codes "ogg") live) ≡ true)
    × (is_prepared (locate_by_hash zero_hash live) ≡ true)
    × (is_prepared (locate_sets_in (codes "ogg") (3 ∷ []) true) ≡ true)
locate_queries_typed_example = locate_queries_typed (codes "ogg") zero_hash live (3 ∷ []) true

abbrev set_rows : List (List Bytes)
set_rows = (codes "disc" ∷ codes "V" ∷ []) ∷ (codes "old" ∷ codes "C" ∷ []) ∷ []

abbrev file_rows : List (List Bytes)
file_rows = (codes "a" ∷ []) ∷ (codes "b" ∷ []) ∷ (codes "c" ∷ []) ∷ []

-- The rows of sets for a query of ids, and of files for other queries.
abbrev reply : Query → List (List Bytes)
reply q = if length q.params == 1 then set_rows else file_rows

find_details-rows_example :
    (find_set_details reply (desc ∷ type ∷ []) (3 ∷ 4 ∷ []) ≡ some set_rows)
    × (find_file_details reply (path ∷ []) 3 1 (codes "a") ≡ some file_rows)
unfolding query_no_conditions query_files_in_dir
find_details-rows_example =
    find_details-rows reply (desc ∷ type ∷ []) (path ∷ []) (3 ∷ 4 ∷ []) 3 1 (codes "a")
      (omega arith) (refl, (refl, tt)) (omega arith) (refl, (refl, (refl, tt)))

abbrev stored : FileRecordData
stored = file_record (codes "/mnt/a/b") 5 0 0 2 true false

abbrev set_data : SetRecordDataFull
set_data = record {
  name = codes "disc";
  disk_label = [];
  fs_uuid = [];
  disk_number = 0;
  type = b'V';
  content_type = b'G';
}

-- Numbers as one byte.
abbrev as_byte : ℕ → Bytes
as_byte n = n ∷ []

abbrev of_byte : Bytes → Option ℕ
of_byte [] = none
of_byte (c ∷ s) = some c

read_item-inserted_row_example :
    (q : FileRecordData) × (read_item of_byte
        (inserted_row as_byte (file_query 7 stored))
        zero_hash
        stored
      ≡ some (q, 7))
    × (q.hash ≡ zero_hash)
    × SameEntry q stored
read_item-inserted_row_example =
    read_item-inserted_row of_byte as_byte 7 stored stored zero_hash (λ n. refl) (λ e. cc)
      (omega arith) (omega arith) (omega arith)
