-- ===== src/Scan/Hashing.antt =====
-- src/machinery/scantask/hashing.cpp: the task that hashes the files of a listing, and each directory
-- from its name, its directories' hashes and its files. A record's address is how many records there
-- are from it to the end of the list; the fields that hashing writes are kept by address.
pub mod Reference
pub mod Files
pub mod Children
pub mod Agreement
pub mod Ending
use dindexer.Common.{
  ℕ, zero, suc, ◌+◌, ◌%◌, ◌^◌, Bool, true, false, Option, some, none, List, [], ◌∷◌, ◌++◌, Bytes,
  length, ◌==◌, if◌then◌else◌,
}
use dindexer.Boost.{StringFind}
use dindexer.RecordData.{FileRecordData, TigerHash, zero_hash, byte_data, rel_path}
use dindexer.PathName.{path_name, basename}
use dindexer.SetListing.{DirIterator, SetListingView, visit, view_at, base_of}
use dindexer.SetListing.Helpers.{each, first_file, front_is}
use dindexer.Hashing.File.{Blocks, tiger_file}

-- What tiger_file gets to read: the content of a file; or a read error, which is an exception, with what
-- it leaves in the hash of the file; or nothing, if the file cannot be opened. That sets the failbit only
-- and throws nothing: the size is then -1, of which -64 bytes are hashed as whole blocks, far out of the
-- bounds of the buffer.
pub data FileRead : Type 0 where
  content : Bytes → FileRead
  failure : TigerHash → FileRead
  unopened : FileRead

-- The fields of a record that hashing writes.
pub record Filled : Type 0 where
  pub hash : TigerHash
  pub size : ℕ
  pub hash_valid : Bool
  pub unreadable : Bool

pub record ProgressInfo : Type 0 where
  pub curr_path : Bytes
  pub file_bytes_read : ℕ
  pub total_bytes_read : ℕ
  pub file_num : ℕ

-- The records, the progress, and the calls of the callback so far.
pub record HashState : Type 0 where
  pub fields : ℕ → Filled
  pub progress : ProgressInfo
  pub notified : List ProgressInfo

abbrev pub write : ℕ → (Filled → Filled) → HashState → HashState
write a f s = record s { fields = λ b. if b == a then f (s.fields b) else s.fields b }

abbrev pub set_hash : ℕ → TigerHash → HashState → HashState
set_hash a h = write a (λ r. record r { hash = h })

abbrev pub set_valid : ℕ → HashState → HashState
set_valid a = write a (λ r. record r { hash_valid = true })

-- What the task stands on: text search, the block functions, the hash of a text, and the files.
pub record Hasher : Type 0 where
  pub find : StringFind
  pub blocks : Blocks
  pub tiger_data : Bytes → TigerHash
  pub files : Bytes → FileRead
  pub ignore_errors : Bool

module _ (env : Hasher) where
  open env use {find, blocks, tiger_data, files, ignore_errors}

  abbrev pub basename_of : FileRecordData → Bytes
  basename_of r = basename (path_name find (rel_path r))

  abbrev pub front_name : List FileRecordData → Bytes
  front_name [] = []
  front_name (r ∷ rs) = basename_of r

  -- A call of hash_dir with the address of the directory and its view: false if it does not return,
  -- for an exception or a file that cannot be opened.
  abbrev pub HashDir : Type 0
  HashDir = ℕ → SetListingView → HashState → HashState × Bool

  -- What a child adds to the blob; a directory is hashed for that.
  pub append_entry : HashDir → DirIterator → HashState → Bytes × HashState × Bool
  append_entry rec it s =
      let inner = rec (length it.rest) (view_at find it) s in
      if front_is (λ r. r.is_directory) it.rest
      then (
        byte_data (inner.0.fields (length it.rest)).hash ++ front_name it.rest,
        inner.0,
        inner.1,
      )
      else (front_name it.rest, s, true)

  pub make_blob : HashDir → List DirIterator → Bytes → HashState → Bytes × HashState × Bool
  unfolding append_entry
  make_blob rec [] dir_blob s = (dir_blob, s, true)
  make_blob rec (it ∷ its) dir_blob s =
      let entry = append_entry rec it s in
      let more = make_blob rec its (dir_blob ++ entry.0) entry.1 in
      if entry.2 then more else (dir_blob, entry.1, false)

  abbrev pub notify : Bytes → HashState → HashState
  notify path s =
      let p = record s.progress {
        curr_path = path;
        file_num = (s.progress.file_num + 1) % 2 ^ 32;
      } in
      record s { progress = p; notified = s.notified ++ p ∷ [] }

  abbrev pub add_bytes : ℕ → HashState → HashState
  add_bytes size s = record s {
    progress = record s.progress {
      total_bytes_read = (s.progress.total_bytes_read + size) % 2 ^ 64;
    };
  }

  -- What tiger_file and the handlers leave in the record of the file at `a`; the hash of the
  -- directory at `dir` takes the content in.
  pub read_into : FileRead → ℕ → ℕ → HashState → HashState × Bool
  read_into (content c) dir a s =
      let t = tiger_file blocks c (byte_data (s.fields dir).hash) in
      (
        add_bytes t.1 (
            write a (λ r. record r { hash = t.0.file; size = t.1; hash_valid = true })
              (set_hash dir t.0.dir s)),
        true,
      )
  read_into (failure h) dir a s =
      if ignore_errors
      then (write a (λ r. record r { hash = zero_hash; unreadable = true }) s, true)
      else (set_hash a h s, false)
  read_into unopened dir a s = (s, false)

  pub hash_file : ℕ → List FileRecordData → HashState → HashState × Bool
  unfolding read_into
  hash_file dir [] s = (s, true)
  hash_file dir (r ∷ rs) s =
      read_into (files r.abs_path) dir (length (r ∷ rs)) (notify r.abs_path s)

  pub hash_files : ℕ → List DirIterator → HashState → HashState × Bool
  unfolding hash_file
  hash_files dir [] s = (s, true)
  hash_files dir (it ∷ its) s =
      let now = hash_file dir it.rest s in
      let more = hash_files dir its now.0 in if now.1 then more else now

  abbrev pub finish : ℕ → HashState × Bool → HashState × Bool
  finish dir (s, true) = (set_valid dir s, true)
  finish dir (s, false) = (s, false)

  -- The iterators from the first file of a view to its end.
  abbrev pub from_first_file : SetListingView → List DirIterator
  from_first_file v = let first = first_file find v in visit find (length first.rest) first

  -- The depth of the recursion is on fuel.
  pub hash_dir : ℕ → HashDir
  unfolding make_blob hash_files
  hash_dir zero dir v s = (s, false)
  hash_dir (suc fuel) dir v s =
      let b = make_blob (hash_dir fuel) (each find v) [] s in
      let f = hash_files dir (from_first_file v) (set_hash dir (tiger_data b.0) b.1) in
      if b.2 then finish dir f else (b.1, false)

  -- A view from a range of the list.
  abbrev pub range_view : List FileRecordData → ℕ → SetListingView
  range_view rs offset = record { range = rs; base_path = base_of find rs; level_offset = offset }

  abbrev pub no_progress : ProgressInfo
  no_progress = record { curr_path = []; file_bytes_read = 0; total_bytes_read = 0; file_num = 0 }

  -- A set of one file: its record is the front of the list, and the hash of no directory is written.
  abbrev pub read_single : FileRead → ℕ → HashState → HashState × Bool
  read_single (content c) a s =
      let t = tiger_file blocks c (byte_data zero_hash) in
      (write a (λ r. record r { hash = t.0.file; size = t.1; hash_valid = true }) s, true)
  read_single (failure h) a s =
      if ignore_errors
      then (write a (λ r. record r { hash = zero_hash; unreadable = true }) s, true)
      else (set_hash a h s, false)
  read_single unopened a s = (s, false)

  pub fill_from : List FileRecordData → HashState → HashState × Bool
  unfolding hash_dir
  fill_from [] s = (s, true)
  fill_from (r ∷ rs) s =
      if r.is_directory
      then hash_dir (length (r ∷ rs)) (length (r ∷ rs)) (range_view (r ∷ rs) 0) s
      else read_single (files r.abs_path) (length (r ∷ rs)) s

  pub on_data_fill : List FileRecordData → (ℕ → Filled) → HashState × Bool
  unfolding fill_from
  on_data_fill list fields =
      fill_from list (record { fields = fields; progress = no_progress; notified = [] })
