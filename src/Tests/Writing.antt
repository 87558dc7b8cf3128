-- ===== src/Tests/Writing.antt =====
-- Storing sets at concrete inputs.
use dindexer.Common.{List, map, ℕ, ◌≡◌, Option, none, [], ◌∷◌, Bytes, codes, false}
use dindexer.RecordData.{FileRecordData, file_record}
use dindexer.Scan.Lazy.{SetRecordDataFull}
use dindexer.Redis.Find.{Row}
use dindexer.Redis.Write.{Indices, Stored, set_fields, write_each}
use dindexer.Redis.Write.Files.{
  files_in, hashes_in, levels_in, entry, hash_member, level_member, all_numbered,
  files_in-write_each,
}
use dindexer.Redis.Write.Located.{set_row}

abbrev text : ℕ → Bytes
text n = n ∷ []

abbrev file : FileRecordData
file = file_record (codes "/m/a") 3 0 0 1 false false

abbrev a_set : SetRecordDataFull
a_set = record {
  name = codes "music";
  disk_label = [];
  fs_uuid = [];
  disk_number = 0;
  type = b'D';
  content_type = b'O';
}

abbrev two_files : Stored
two_files = record { records = file ∷ file ∷ []; set_data = a_set; signature = []; now = 0 }

abbrev one_file : Stored
one_file = record { records = file ∷ []; set_data = a_set; signature = []; now = 0 }

abbrev calls : List Stored
calls = two_files ∷ one_file ∷ []

abbrev no_ids : Indices
no_ids = record { set = 0; files = 0 }

files_in-write_each_example :
    (files_in (write_each text calls no_ids) ≡ map (entry text) (all_numbered 1 1 calls))
    × (hashes_in (write_each text calls no_ids) ≡ map (hash_member text) (all_numbered 1 1 calls))
    × (levels_in (write_each text calls no_ids) ≡ map (level_member text) (all_numbered 1 1 calls))
files_in-write_each_example = files_in-write_each text calls no_ids

abbrev reply : Bytes → Row
reply key = set_row (set_fields text a_set (file ∷ []) 1 0 [])

abbrev no_number : Bytes → Option ℕ
no_number s = none
