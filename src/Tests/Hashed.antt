-- ===== src/Tests/Hashed.antt =====
-- Hashing a small tree: a directory with a directory and two files, one of which cannot be read.
use dindexer.Common.{
  ℕ, ◌≡◌, refl, arith, true, false, List, [], ◌∷◌, Bytes, codes, length, bytes_eq, if◌then◌else◌,
}
use dindexer.RecordData.{FileRecordData, file_record, zero_hash}
use dindexer.StringPool.{clone_first, update_one, update, insert}
use dindexer.PathName.{path_name, split_path, split_loop, find_byte}
use dindexer.SetListing.{file_record_data_lt, bytes_lt}
use dindexer.Scan.Hashing.{Hasher, Filled, FileRead, content, failure, on_data_fill}
use dindexer.Scan.Hashing.Children.{IsListing}
use dindexer.Scan.Hashing.Ending.{on_data_fill-ends}
use dindexer.Tests.Boost.{string_find, find_text}
use dindexer.Tests.Hashes.{counting}

abbrev root : FileRecordData
root = file_record [] 0 0 0 0 true false

abbrev songs : FileRecordData
songs = file_record (codes "a") 0 0 0 1 true false

abbrev notes : FileRecordData
notes = file_record (codes "f") 0 0 0 1 false false

abbrev song : FileRecordData
song = file_record (codes "a/g") 0 0 0 2 false false

abbrev inside : List FileRecordData
inside = songs ∷ notes ∷ song ∷ []

-- The file that is read has two bytes.
abbrev read_test : Bytes → FileRead
read_test path = if bytes_eq path (codes "f") then failure zero_hash else content (1 ∷ 2 ∷ [])

abbrev forgiving : Hasher
forgiving = record {
  find = string_find;
  blocks = counting;
  tiger_data = λ b. record { part_a = length b; part_b = 0; part_c = 0 };
  files = read_test;
  ignore_errors = true;
}

abbrev unfilled : ℕ → Filled
unfilled a = record { hash = zero_hash; size = 0; hash_valid = false; unreadable = false }

tree-IsListing : IsListing forgiving (root ∷ inside)
unfolding file_record_data_lt bytes_lt path_name split_path split_loop find_byte insert update
    update_one clone_first find_text bytes_eq
tree-IsListing = record {
  sorted = ((refl, (refl, (refl, tt))), ((refl, (refl, tt)), ((refl, tt), (tt, tt))));
  deep = (refl, (refl, (refl, (refl, tt))));
  below = omega arith;
}

on_data_fill-ends_example : (on_data_fill forgiving (root ∷ inside) unfilled).1 ≡ true
unfolding bytes_eq
on_data_fill-ends_example =
    on_data_fill-ends forgiving root inside unfilled tree-IsListing refl
      (tt, (tt, (refl, (tt, tt))))
