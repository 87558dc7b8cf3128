-- ===== src/Scan/DirTree.antt =====
-- src/machinery/scantask/dirtree.cpp: the task that walks a directory and keeps a record for each entry
-- in a list that is sorted at all times.
use dindexer.Common.{
  ℕ, ◌+◌, ◌-◌, ◌%◌, ◌^◌, ◌≡◌, sym, subst, true, List, [], ◌∷◌, ◌++◌, map, Bytes, append-nil,
}
use mathlib.Core.List.{Perm, perm_middle}
use mathlib.Core.List.Perm
use dindexer.Boost.{StringFind, Splitter}
use dindexer.RecordData.{FileRecordData, file_record}
use dindexer.PathName.{PathName, path_name, make_relative_path, str_path_size}
use dindexer.SetListing.{insert_sorted}
use dindexer.SetListing.Order.{IsSorted, insert_sorted-IsSorted, insert_sorted-perm}
use dindexer.FileSearcher.{FileStats, Entry, Callback, search}
use dindexer.FileSearcher.Calls.{Call, calls, run_calls, search-run_calls}

-- `-` of two `std::size_t`.
abbrev pub size_minus : ℕ → ℕ → ℕ
size_minus a b = (a + 2 ^ 64 - b) % 2 ^ 64

module _ (find : StringFind) (boost : Splitter) where
  pub calc_rel_path_offs : PathName → Bytes → ℕ
  calc_rel_path_offs root path =
      size_minus (str_path_size (path_name find path))
        (str_path_size (make_relative_path find boost root (path_name find path)))

  -- The record of an entry; the offset and the level are 16-bit numbers.
  pub record_of : PathName → Bytes → FileStats → FileRecordData
  unfolding calc_rel_path_offs
  record_of root path st =
      file_record path (calc_rel_path_offs root path % 2 ^ 16) st.atime st.mtime (st.level % 2 ^ 16)
        st.is_dir st.is_symlink

  -- The callback: the record goes where `lower_bound` says.
  pub add_path : PathName → Callback (List FileRecordData)
  unfolding record_of
  add_path root out path st = (insert_sorted out (record_of root path st), true)

  pub on_data_create : Bytes → List Entry → List FileRecordData
  unfolding add_path
  on_data_create root entries = search (add_path (path_name find root)) [] [] [] entries

  abbrev records_of : PathName → List Call → List FileRecordData
  records_of root cs = map (λ c. record_of root c.0 c.1) cs

  filled-IsSorted :
      (root : PathName) (out : List FileRecordData) (cs : List Call)
      → IsSorted out
      → IsSorted (run_calls (add_path root) out cs)
  unfolding add_path
  filled-IsSorted root out [] h = h
  filled-IsSorted root out (c ∷ cs) h =
      filled-IsSorted root (insert_sorted out (record_of root c.0 c.1)) cs
        (insert_sorted-IsSorted out (record_of root c.0 c.1) h)

  filled-Perm :
      (root : PathName) (out : List FileRecordData) (cs : List Call)
      → Perm (run_calls (add_path root) out cs) (records_of root cs ++ out)
  unfolding add_path
  filled-Perm root out [] = Perm.refl out
  filled-Perm root out (c ∷ cs) =
      let r = record_of root c.0 c.1 in
      Perm.trans (filled-Perm root (insert_sorted out r) cs) (
        Perm.trans (Perm.append_left (records_of root cs) (insert_sorted-perm out r))
          (perm_middle (records_of root cs) out))

  -- The walk of a directory leaves a sorted list, and its records are one for each entry that the
  -- search reports.
  pub on_data_create-IsSorted :
      (root : Bytes) (entries : List Entry)
      → IsSorted (on_data_create root entries)
        × Perm
            (on_data_create root entries)
            (map (λ c. record_of (path_name find root) c.0 c.1) (calls [] entries))
  unfolding on_data_create
  on_data_create-IsSorted root entries =
      let at = path_name find root in
      let e : on_data_create root entries ≡ run_calls (add_path at) [] (calls [] entries) =
        search-run_calls (add_path at) [] [] [] entries in
      (
        subst IsSorted (sym e) (filled-IsSorted at [] (calls [] entries) tt),
        subst (λ l. Perm l (records_of at (calls [] entries))) (sym e)
            (subst (Perm (run_calls (add_path at) [] (calls [] entries)))
              (append-nil (records_of at (calls [] entries)))
              (filled-Perm at [] (calls [] entries))),
      )
