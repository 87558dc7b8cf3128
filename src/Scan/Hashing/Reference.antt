-- ===== src/Scan/Hashing/Reference.antt =====
-- The hash of a directory, described on the records alone: no views, no addresses, no state.
use dindexer.Common.{
  ℕ, zero, suc, ◌+◌, Bool, not, ◌&&◌, Option, some, none, List, [], ◌∷◌, ◌++◌, Bytes, ◌==◌,
  if◌then◌else◌,
}
use mathlib.Core.Option
use dindexer.RecordData.{FileRecordData, TigerHash, byte_data, rel_path}
use dindexer.PathName.{PathName, path_name}
use dindexer.SetListing.{is_elsewhere}
use dindexer.Hashing.File.{tiger_file}
use dindexer.Scan.Hashing.{FileRead, content, failure, unopened, Hasher, basename_of}

-- The direct children of a directory.
module _ (env : Hasher) where
  open env use {find, blocks, tiger_data, files, ignore_errors}

  abbrev pub path_of : FileRecordData → PathName
  path_of r = path_name find (rel_path r)

  abbrev pub is_child : FileRecordData → FileRecordData → Bool
  is_child d r = (r.level == d.level + 1) && not (is_elsewhere find (path_of d) r)

  unfoldable pub children_of : FileRecordData → List FileRecordData → List FileRecordData
  children_of d [] = []
  children_of d (r ∷ rs) = let rest = children_of d rs in if is_child d r then r ∷ rest else rest

  -- A directory's part of the text that is hashed first: its hash and its name; a file's: its name.
  abbrev pub piece : (FileRecordData → Option TigerHash) → FileRecordData → Option Bytes
  piece rec r =
      if r.is_directory
      then Option.map (λ h. byte_data h ++ basename_of env r) (rec r)
      else some (basename_of env r)

  abbrev pub pieces :
      (FileRecordData → Option TigerHash) → List FileRecordData → Bytes → Option Bytes
  pieces rec [] blob = some blob
  pieces rec (r ∷ rs) blob = elim (piece rec r) [ none ↦ none | some b ↦ pieces rec rs (blob ++ b) ]

  -- A file with a read error leaves the hash as it is, or there is none.
  abbrev pub take_in : FileRead → TigerHash → Option TigerHash
  take_in (content c) h = some (tiger_file blocks c (byte_data h)).0.dir
  take_in (failure g) h = if ignore_errors then some h else none
  take_in unopened h = none

  abbrev pub take_file : FileRecordData → TigerHash → Option TigerHash
  take_file r h = if r.is_directory then some h else take_in (files r.abs_path) h

  abbrev pub take_files : List FileRecordData → TigerHash → Option TigerHash
  take_files [] h = some h
  take_files (r ∷ rs) h = elim (take_file r h) [ none ↦ none | some g ↦ take_files rs g ]

  unfoldable pub dir_hash : ℕ → List FileRecordData → FileRecordData → Option TigerHash
  unfolding children_of
  dir_hash zero list d = none
  dir_hash (suc n) list d =
      let kids = children_of d list in
      elim (pieces (dir_hash n list) kids []) [
        | none ↦ none
        | some b ↦ take_files kids (tiger_data b)
      ]
