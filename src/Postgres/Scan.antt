-- ===== src/Postgres/Scan.antt =====
-- src/backends/postgresql/scan.cpp: the queries that store a set with its records, and the record that is
-- read back. Times are numbers; the ids that the server gives are a parameter.
pub mod Stored
use dindexer.Common.{
  ℕ, Bool, true, false, not, ◌&&◌, ◌||◌, Option, some, none, List, [], ◌∷◌, ◌++◌, Bytes, codes,
  length, ◌==◌, if◌then◌else◌, bytes_eq, map, ltb, ◌^◌,
}
use dindexer.RecordData.{
  FileRecordData, TigerHash, file_record, rel_path, mime_type, mime_charset, as_uint16,
}
use dindexer.Hashing.{tiger_to_string}
use dindexer.Scan.Lazy.{SetRecordDataFull}
use dindexer.Postgres.{Param, text, number, flag, Query, query}
use dindexer.Postgres.Navigate.{and_then}
use dindexer.Postgres.Locate.{Record}

abbrev pub slash_text : Bytes
slash_text = codes "/"

abbrev pub is_nothing : Bytes → Bool
is_nothing s = length s == 0

-- An empty path is stored as a slash.
abbrev pub stored_path : FileRecordData → Bytes
stored_path r = if is_nothing (rel_path r) then slash_text else rel_path r

pub set_query : Bytes → SetRecordDataFull → Query
set_query signature set =
    query
      (codes
        "INSERT INTO \"sets\" (\"desc\",\"type\",\"app_name\",\"content_type\",\"fs_uuid\",\"disk_label\") VALUES ($1, $2, $3, $4, $5, $6) RETURNING \"id\";")
      (text set.name
        ∷ text (set.type ∷ [])
        ∷ text signature
        ∷ text (set.content_type ∷ [])
        ∷ text set.fs_uuid
        ∷ text set.disk_label
        ∷ [])

pub file_query : ℕ → FileRecordData → Query
file_query new_group_id r =
    query
      (codes
        "INSERT INTO \"files\" (path, hash, level, group_id, is_directory, is_symlink, size, access_time, modify_time, is_hash_valid, unreadable, mimetype, charset) VALUES ($1, $2, $3, $4, $5, $6, $7, $8, $9, $10, $11, $12, $13);")
      (text (stored_path r)
        ∷ text (tiger_to_string r.hash false)
        ∷ number r.level
        ∷ number new_group_id
        ∷ flag r.is_directory
        ∷ flag r.is_symlink
        ∷ number r.size
        ∷ number r.atime
        ∷ number r.mtime
        ∷ flag r.hash_valid
        ∷ flag r.unreadable
        ∷ text (mime_type r)
        ∷ text (mime_charset r)
        ∷ [])

-- Nothing for no records; the id of the set is what the server replies to its query.
pub write_to_db : ℕ → List FileRecordData → SetRecordDataFull → Bytes → List Query
unfolding set_query file_query
write_to_db new_group_id [] set signature = []
write_to_db new_group_id (r ∷ rs) set signature =
    query (codes "BEGIN;") []
    ∷ set_query signature set
    ∷ (map (file_query new_group_id) (r ∷ rs) ++ query (codes "COMMIT;") [] ∷ [])

module _ (lexical_cast : Bytes → Option ℕ) where
  abbrev pub read_path : Bytes → Bytes
  read_path path =
      if not (length path == 1) || not (bytes_eq path slash_text) then slash_text ++ path else path

  -- `lexical_cast` to an unsigned type, which throws for a number that the type does not hold.
  abbrev pub cast_below : ℕ → Bytes → Option ℕ
  cast_below limit t = and_then (lexical_cast t) λ n. if ltb n limit then some n else none

  -- The record of a row, and the id of its set.
  pub read_item : Record → TigerHash → FileRecordData → Option (FileRecordData × ℕ)
  read_item row hash item = and_then (cast_below (2 ^ 16) (row (codes "level"))) λ level.
      and_then (cast_below (2 ^ 64) (row (codes "size"))) λ size.
        and_then (cast_below (2 ^ 32) (row (codes "group_id"))) λ group. some (
          record item {
            abs_path = read_path (row (codes "path"));
            hash = hash;
            level = level;
            size = size;
            is_directory = bytes_eq (row (codes "is_directory")) (codes "t");
            is_symlink = bytes_eq (row (codes "is_symlink")) (codes "t");
            path_offset = 1;
          },
          group,
        )
