-- ===== src/Tests/Scans.antt =====
-- The search, the directory task, lazy tasks and tags at concrete inputs.
use dindexer.Common.{
  ℕ, ◌≡◌, true, false, some, List, [], ◌∷◌, ◌++◌, map, Bytes, codes, bytes_eq, All, refl,
}
use mathlib.Core.List.{Perm}
use dindexer.FileSearcher.{Entry, directory, file, broken_link, Callback}
use dindexer.FileSearcher.Calls.{calls}
use dindexer.SetListing.Order.{IsSorted}
use dindexer.PathName.{path_name}
use dindexer.Scan.DirTree.{record_of, on_data_create, on_data_create-IsSorted}
use dindexer.Scan.Lazy.{Task, SetRecordDataFull, get_or_create, set_basic_create}
use dindexer.Redis.Tag.{ScannedFile, RegexSearch, delete_all_tags_by_regex}
use dindexer.Redis.Tag.Runs.{HasFields, delete_all_tags_by_regex-nil}
use dindexer.Tests.Boost.{string_find, splitter}

abbrev entries : List Entry
entries =
    record {
      path = codes "/mnt";
      base = 1;
      level = 0;
      atime = 1;
      mtime = 1;
      size = 0;
      type = directory;
      is_link = false;
    }
    ∷ record {
      path = codes "/mnt/b.txt";
      base = 5;
      level = 1;
      atime = 1;
      mtime = 1;
      size = 7;
      type = file;
      is_link = false;
    }
    ∷ record {
      path = codes "/mnt/gone";
      base = 5;
      level = 1;
      atime = 1;
      mtime = 1;
      size = 0;
      type = broken_link;
      is_link = true;
    }
    ∷ record {
      path = codes "/mnt/a";
      base = 5;
      level = 1;
      atime = 1;
      mtime = 1;
      size = 0;
      type = directory;
      is_link = false;
    }
    ∷ []

-- Collects the paths up to the first file.
abbrev up_to_a_file : Callback (List Bytes)
up_to_a_file seen path st = (seen ++ path ∷ [], st.is_dir)

on_data_create-IsSorted_example :
    IsSorted (on_data_create string_find splitter (codes "/mnt") entries)
    × Perm (on_data_create string_find splitter (codes "/mnt") entries) (
        map
          (λ c. record_of string_find splitter (path_name string_find (codes "/mnt")) c.0 c.1)
          (calls [] entries))
on_data_create-IsSorted_example =
    on_data_create-IsSorted string_find splitter (codes "/mnt") entries

abbrev unnamed : SetRecordDataFull
unnamed = record {
  name = [];
  disk_label = codes "X";
  fs_uuid = [];
  disk_number = 0;
  type = b'D';
  content_type = b'G';
}

abbrev fresh_task : Task SetRecordDataFull
fresh_task = record { data_created = false; stored = unnamed }

abbrev named_task : Task SetRecordDataFull
named_task = (get_or_create (set_basic_create (codes "music")) fresh_task).0

abbrev tags_of : ℕ → Bytes
tags_of id = codes "rock, live"

abbrev same_path : RegexSearch
same_path path regex = bytes_eq path regex

abbrev scanned : List ScannedFile
scanned =
    record { id = 4; path = some (codes "a.ogg"); tags = some (codes "rock"); group_id = 1 } ∷ []

scanned-HasFields : All (HasFields splitter) scanned
scanned-HasFields = (((codes "a.ogg", refl), (codes "rock", refl)), tt)

delete_all_tags_by_regex-nil_example :
    delete_all_tags_by_regex splitter same_path scanned (codes "a.ogg" ∷ []) 1 ≡ some []
delete_all_tags_by_regex-nil_example =
    delete_all_tags_by_regex-nil splitter same_path scanned (codes "a.ogg" ∷ []) 1 scanned-HasFields
