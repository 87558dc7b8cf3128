-- ===== src/RecordTree.antt =====
-- src/machinery/make_filerecord_tree.cpp: the tree of the records of a listing. A node has a number: 0 is
-- `retval`, and each call of `emplace_back` makes the next; a node is kept as its parent and its
-- index. Pointers are numbers of nodes. The index of `retval` is never written: the path that is found at
-- it is a parameter.
pub mod Parents
pub mod Stray
pub mod Misplaced
use dindexer.Common.{
  ℕ, zero, suc, ◌+◌, Bool, true, false, ◌||◌, Option, some, none, List, [], ◌∷◌, ◌++◌, Bytes,
  length, get_elem?, ◌==◌, if◌then◌else◌,
}
use dindexer.Boost.{StringFind}
use dindexer.RecordData.{FileRecordData, rel_path}
use dindexer.PathName.{PathName, path_name, is_ancestor, are_siblings}
use dindexer.SetListing.{bytes_lt}

pub record FileRecordNode : Type 0 where
  pub parent : ℕ
  pub index : ℕ

pub record TreeState : Type 0 where
  pub nodes : List FileRecordNode
  pub curr_node : ℕ
  pub node_stack : List ℕ
  pub prev_dir : PathName

-- The indices with the records in the order of the list.
abbrev pub Indexed : Type 0
Indexed = List (ℕ × FileRecordData)

abbrev pub generate : ℕ → List FileRecordData → Indexed
generate n [] = []
generate n (r ∷ rs) = (n, r) ∷ generate (suc n) rs

-- `std::sort` by the path; indices of equal paths stand in any order there.
unfoldable pub insert_index : ℕ × FileRecordData → Indexed → Indexed
insert_index x [] = x ∷ []
insert_index x (y ∷ ys) =
    let rest = y ∷ insert_index x ys in
    if bytes_lt (rel_path y.1) (rel_path x.1) then rest else x ∷ y ∷ ys

unfoldable pub sort_indices : Indexed → Indexed
unfolding insert_index
sort_indices [] = []
sort_indices (x ∷ xs) = insert_index x (sort_indices xs)

-- The nodes under a node, by the order in which they came.
pub children_from : ℕ → ℕ → List FileRecordNode → List ℕ
children_from p n [] = []
children_from p n (e ∷ es) =
    let rest = children_from p (suc n) es in if e.parent == p then n ∷ rest else rest

module _ (find : StringFind) (records : List FileRecordData) (stray : PathName) where
  abbrev pub path_at : ℕ → PathName
  path_at i = elim (get_elem? records i) [ none ↦ stray | some r ↦ path_name find (rel_path r) ]

  -- `PathName(parRecords[curr_node->index].path())`.
  abbrev pub node_path : List FileRecordNode → ℕ → PathName
  node_path nodes zero = stray
  node_path nodes (suc k) = elim (get_elem? nodes k) [ none ↦ stray | some e ↦ path_at e.index ]

  -- The loop that takes nodes from the stack, and the nodes that it leaves there.
  unfoldable pub unwind :
      List FileRecordNode → PathName → List ℕ → ℕ → PathName → ℕ × List ℕ × PathName
  unwind nodes path [] curr prev = (curr, [], prev)
  unwind nodes path (top ∷ stack) curr prev =
      let more = unwind nodes path stack top prev in
      let test = node_path nodes top in
      if are_siblings test path || is_ancestor test path 0 then (top, stack, test) else more

  -- Where the record goes.
  unfoldable pub place : TreeState → PathName → ℕ × List ℕ × PathName
  unfolding unwind
  place st path =
      if is_ancestor st.prev_dir path 0
      then (st.curr_node, st.node_stack, st.prev_dir)
      else unwind st.nodes path st.node_stack st.curr_node st.prev_dir

  -- The new node, which is the current one from then on if it is a directory.
  abbrev pub emplace : List FileRecordNode → ℕ → Bool → PathName → ℕ × List ℕ × PathName → TreeState
  emplace nodes idx true path (curr, stack, prev) = record {
    nodes = nodes ++ (record { parent = curr; index = idx }) ∷ [];
    curr_node = suc (length nodes);
    node_stack = curr ∷ stack;
    prev_dir = path;
  }
  emplace nodes idx false path (curr, stack, prev) = record {
    nodes = nodes ++ (record { parent = curr; index = idx }) ∷ [];
    curr_node = curr;
    node_stack = stack;
    prev_dir = prev;
  }

  unfoldable pub add_record : ℕ × FileRecordData → TreeState → TreeState
  unfolding place
  add_record (idx, r) st =
      let path = path_name find (rel_path r) in
      emplace st.nodes idx r.is_directory path (place st path)

  unfoldable pub add_records : Indexed → TreeState → TreeState
  unfolding add_record
  add_records [] st = st
  add_records (x ∷ xs) st = add_records xs (add_record x st)

  abbrev pub empty_tree : TreeState
  empty_tree = record { nodes = []; curr_node = 0; node_stack = []; prev_dir = path_name find [] }

  unfoldable pub make_filerecord_tree : List FileRecordNode
  unfolding add_records sort_indices
  make_filerecord_tree = (add_records (sort_indices (generate 0 records)) empty_tree).nodes
