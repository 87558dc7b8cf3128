-- ===== src/Scan/Files.antt =====
-- src/machinery/scantask/singlefile.cpp and mime.cpp: the list of a single file, and the task that fills in
-- MIME types. stat(), libmagic and `split_mime`, whose grammar stands on Boost.Spirit, are parameters.
use dindexer.Common.{ℕ, true, false, Option, some, none, List, [], ◌∷◌, Bytes, StrRange, map}
use dindexer.RecordData.{FileRecordData, file_record, set_mime_parts}
use dindexer.Scan.Lazy.{Creator}

-- The times of access and modification that stat() gives.
abbrev pub Times : Type 0
Times = ℕ × ℕ

-- The times that the task was made with, or else those that are found.
abbrev pub stat_to_use : Option Times → Option Times → Option Times
stat_to_use (some t) found = some t
stat_to_use none found = found

abbrev pub single_record : Bytes → Times → FileRecordData
single_record path t = file_record path 0 t.0 t.1 0 false false

-- The list is left as it was when the file cannot be accessed.
pub single_file_create :
    (Bytes → Option Times) → Bytes → Option Times → Creator (List FileRecordData)
single_file_create stat path given list = elim (stat_to_use given (stat path)) [
  | none ↦ (list, false)
  | some t ↦ (single_record path t ∷ [], true)
]

abbrev pub single_file_destroy : List FileRecordData → List FileRecordData
single_file_destroy list = []

-- A text that `split_mime` does not parse has no ranges inside it; `split` says which offsets come of that.
module _ (analyze : Bytes → Option Bytes) (split : Bytes → StrRange × StrRange) where
  pub analyze_record : FileRecordData → FileRecordData
  analyze_record r = elim (analyze r.abs_path) [
    | none ↦ record r { mime_full = [] }
    | some full ↦ set_mime_parts (split full).0 (split full).1 (record r { mime_full = full })
  ]

  pub fill_mime : List FileRecordData → List FileRecordData
  unfolding analyze_record
  fill_mime = map analyze_record
