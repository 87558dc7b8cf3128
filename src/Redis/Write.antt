-- ===== src/Redis/Write.antt =====
-- src/backends/redis/backend_redis.cpp, write_files: which commands store a set and its files. The text
-- of a number and the time are parameters; a count is not more than an int holds.
pub mod Files
pub mod Located
use dindexer.Common.{
  ℕ, suc, ◌+◌, ◌-◌, Bool, true, false, List, [], ◌∷◌, ◌++◌, Bytes, codes, length, if◌then◌else◌,
}
use dindexer.RecordData.{FileRecordData, rel_path, mime_type, mime_charset}
use dindexer.Scan.Lazy.{SetRecordDataFull}
use dindexer.Hashing.{tiger_to_string}

-- The counters of the key "indices": how many ids of sets and of files are taken.
pub record Indices : Type 0 where
  pub set : ℕ
  pub files : ℕ

-- A command to the server, with the fields and values of a hash, the member of a set, or the score and
-- the member of a sorted set.
pub data WriteCommand : Type 0 where
  hmset : Bytes → List (Bytes × Bytes) → WriteCommand
  sadd : Bytes → Bytes → WriteCommand
  zadd : Bytes → ℕ → Bytes → WriteCommand

abbrev pub flag : Bool → Bytes
flag b = if b then codes "1" else codes "0"

abbrev pub count_dirs : List FileRecordData → ℕ
count_dirs [] = 0
count_dirs (r ∷ rs) = let rest = count_dirs rs in if r.is_directory then suc rest else rest

module _ (text : ℕ → Bytes) where
  abbrev pub set_fields :
      SetRecordDataFull → List FileRecordData → ℕ → ℕ → Bytes → List (Bytes × Bytes)
  set_fields d rs base_file_id now signature =
      (codes "name", d.name)
      ∷ (codes "disk_label", d.disk_label)
      ∷ (codes "fs_uuid", d.fs_uuid)
      ∷ (codes "type", d.type ∷ [])
      ∷ (codes "content_type", d.content_type ∷ [])
      ∷ (codes "base_file_id", text base_file_id)
      ∷ (codes "item_count", text (length rs))
      ∷ (codes "dir_count", text (count_dirs rs))
      ∷ (codes "creation", text now)
      ∷ (codes "app_name", signature)
      ∷ []

  unfoldable pub file_fields : Bytes → FileRecordData → List (Bytes × Bytes)
  unfolding mime_type mime_charset tiger_to_string
  file_fields group_id r =
      (codes "hash", tiger_to_string r.hash false)
      ∷ (codes "path", rel_path r)
      ∷ (codes "size", text r.size)
      ∷ (codes "level", text r.level)
      ∷ (codes "mime_type", mime_type r)
      ∷ (codes "mime_charset", mime_charset r)
      ∷ (codes "is_directory", flag r.is_directory)
      ∷ (codes "is_symlink", flag r.is_symlink)
      ∷ (codes "unreadable", flag r.unreadable)
      ∷ (codes "hash_valid", flag r.hash_valid)
      ∷ (codes "group_id", group_id)
      ∷ (codes "atime", text r.atime)
      ∷ (codes "mtime", text r.mtime)
      ∷ []

  abbrev pub file_key : ℕ → Bytes
  file_key z = codes "dindexer:file:" ++ text z

  -- The loop over the ids of the files.
  pub file_commands : Bytes → ℕ → List FileRecordData → List WriteCommand
  unfolding file_fields tiger_to_string
  file_commands group_id z [] = []
  file_commands group_id z (r ∷ rs) =
      hmset (file_key z) (file_fields group_id r)
      ∷ sadd (codes "dindexer:hash:" ++ tiger_to_string r.hash false) (text z)
      ∷ zadd (codes "dindexer:levels:" ++ group_id) r.level (file_key z)
      ∷ file_commands group_id (suc z) rs

  -- The two `hincrby` take the ids; the set's key is written first.
  pub write_files :
      List FileRecordData → SetRecordDataFull → Bytes → ℕ → Indices → Indices × List WriteCommand
  unfolding file_commands
  write_files rs d signature now ix =
      let group_id_int = ix.set + 1 in
      let file_id_int = ix.files + length rs in
      let base_file_id = file_id_int - length rs + 1 in
      (
        record { set = group_id_int; files = file_id_int },
        hmset (codes "dindexer:set:" ++ text group_id_int)
              (set_fields d rs base_file_id now signature)
            ∷ file_commands (text group_id_int) base_file_id rs,
      )

-- What is stored by one call.
pub record Stored : Type 0 where
  pub records : List FileRecordData
  pub set_data : SetRecordDataFull
  pub signature : Bytes
  pub now : ℕ

-- The commands of calls one after the other.
pub write_each : (ℕ → Bytes) → List Stored → Indices → List WriteCommand
unfolding write_files
write_each text [] ix = []
write_each text (s ∷ ss) ix =
    let (ix', commands) = write_files text s.records s.set_data s.signature s.now ix in
    commands ++ write_each text ss ix'
