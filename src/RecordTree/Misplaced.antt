-- ===== src/RecordTree/Misplaced.antt =====
-- A record that stands beside a directory can end up under it.
use dindexer.Common.{
  ℕ, ◌≡◌, refl, sym, subst, ap, ◌∙◌, true, false, some, List, [], ◌∷◌, ◌++◌, get_elem?,
  get_elem?-append_some, All,
}
use dindexer.Boost.{StringFind}
use dindexer.RecordData.{FileRecordData, rel_path}
use dindexer.PathName.{PathName, path_name, atom_count, is_ancestor, are_siblings}
use dindexer.RecordTree.{
  FileRecordNode, TreeState, Indexed, generate, sort_indices, path_at, node_path, unwind, place,
  emplace, add_record, add_records, empty_tree, make_filerecord_tree,
}
use dindexer.RecordTree.Parents.{nodes-emplace, All-sort_indices, generate-Indexes}
use dindexer.RecordTree.Stray.{empty-is_ancestor, first_state, add_record-first}

module _ (find : StringFind) (records : List FileRecordData) (stray : PathName) where
  abbrev path_of : FileRecordData → PathName
  path_of r = path_name find (rel_path r)

  -- Nodes stay as they are.
  add_records-keeps :
      (xs : Indexed) (st : TreeState) (k : ℕ) {e : FileRecordNode}
      → get_elem? st.nodes k ≡ some e
      → get_elem? (add_records find records stray xs st).nodes k ≡ some e
  unfolding add_records add_record
  add_records-keeps [] st k h = h
  add_records-keeps ((i, r) ∷ xs) st k h =
      add_records-keeps xs (add_record find records stray (i, r) st) k (
        ap (λ l. get_elem? l k)
          (nodes-emplace find records stray st.nodes i r.is_directory (path_of r)
            (place find records stray st (path_of r)))
        ∙ get_elem?-append_some st.nodes _ k h)

  place-below :
      (st : TreeState) (path : PathName)
      → is_ancestor st.prev_dir path 0 ≡ true
      → place find records stray st path ≡ (st.curr_node, st.node_stack, st.prev_dir)
  unfolding place
  place-below st path e = rw e refl

  -- A directory below the last one.
  add_record-below :
      (i : ℕ) (r : FileRecordData) (st : TreeState)
      → r.is_directory ≡ true
      → is_ancestor st.prev_dir (path_of r) 0 ≡ true
      → add_record find records stray (i, r) st
        ≡ emplace find records stray st.nodes i true
            (path_of r)
            (st.curr_node, st.node_stack, st.prev_dir)
  unfolding add_record
  add_record-below i r st d e =
      ap
        (λ b.
          emplace find records stray st.nodes i b (path_of r)
            (place find records stray st (path_of r)))
        d
      ∙ ap (λ w. emplace find records stray st.nodes i true (path_of r) w)
          (place-below st (path_of r) e)

  place-beside :
      (st : TreeState) (path : PathName) (top : ℕ) (stack : List ℕ)
      → is_ancestor st.prev_dir path 0 ≡ false
      → st.node_stack ≡ top ∷ stack
      → are_siblings (node_path find records stray st.nodes top) path ≡ true
      → (place find records stray st path).0 ≡ top
  unfolding place unwind
  place-beside st path top stack e s b = rw e (
      subst (λ l. (unwind find records stray st.nodes path l st.curr_node st.prev_dir).0 ≡ top)
        (sym s) (rw b refl))

  -- A record that is not below the last directory, but beside the one on the stack.
  add_record-beside :
      (i : ℕ) (r : FileRecordData) (st : TreeState) (top : ℕ) (stack : List ℕ)
      → is_ancestor st.prev_dir (path_of r) 0 ≡ false
      → st.node_stack ≡ top ∷ stack
      → are_siblings (node_path find records stray st.nodes top) (path_of r) ≡ true
      → (add_record find records stray (i, r) st).nodes
        ≡ st.nodes ++ (record { parent = top; index = i }) ∷ []
  unfolding add_record
  add_record-beside i r st top stack e s b =
      nodes-emplace find records stray st.nodes i r.is_directory (path_of r)
        (place find records stray st (path_of r))
      ∙ ap (λ p. st.nodes ++ (record { parent = p; index = i }) ∷ [])
          (place-beside st (path_of r) top stack e s b)

  module _ (i k l : ℕ) (top outer inner : FileRecordData) where
    -- The states behind a directory in the scanned directory, and one in that.
    abbrev second_state : TreeState
    second_state =
        emplace find records stray (first_state find records stray stray i top).nodes k true
          (path_of outer) (1, 0 ∷ [], path_of top)

    abbrev third_state : TreeState
    third_state =
        emplace find records stray second_state.nodes l true (path_of inner)
          (2, 1 ∷ 0 ∷ [], path_of outer)

    three_records :
        top.is_directory ≡ true
        → atom_count (path_of top) ≡ 0
        → outer.is_directory ≡ true
        → inner.is_directory ≡ true
        → is_ancestor (path_of outer) (path_of inner) 0 ≡ true
        → add_records find records stray
            ((i, top) ∷ (k, outer) ∷ (l, inner) ∷ [])
            (empty_tree find records stray)
          ≡ third_state
    unfolding add_records
    three_records d z do_ di below =
        let first = first_state find records stray stray i top in
        ap
          (λ st.
            add_record find records stray (l, inner) (add_record find records stray (k, outer) st))
          (add_record-first find records stray stray stray i top d)
        ∙ ap (λ st. add_record find records stray (l, inner) st)
            (add_record-below k outer first do_ (empty-is_ancestor (path_of top) (path_of outer) z))
        ∙ add_record-below l inner second_state di below

    -- When the sorted records are the scanned directory, a directory, a directory below that, and
    -- then a record that is beside the outer directory and not below the inner one, that record's
    -- node stands under node 2, which is the outer directory's: under its sibling.
    pub make_filerecord_tree-misplaced :
        (m : ℕ) (beside : FileRecordData) (xs : Indexed)
        → sort_indices (generate 0 records) ≡ (i, top) ∷ (k, outer) ∷ (l, inner) ∷ (m, beside) ∷ xs
        → top.is_directory ≡ true
        → atom_count (path_of top) ≡ 0
        → outer.is_directory ≡ true
        → inner.is_directory ≡ true
        → is_ancestor (path_of outer) (path_of inner) 0 ≡ true
        → is_ancestor (path_of inner) (path_of beside) 0 ≡ false
        → are_siblings (path_of outer) (path_of beside) ≡ true
        → (get_elem? (make_filerecord_tree find records stray) 1
            ≡ some (record { parent = 1; index = k }))
          × (get_elem? (make_filerecord_tree find records stray) 3
              ≡ some (record { parent = 2; index = m }))
    unfolding make_filerecord_tree add_records
    make_filerecord_tree-misplaced m beside xs e d z do_ di below apart siblings =
        let at =
          subst (λ l. All (λ x. get_elem? records x.0 ≡ some x.1) l) e
            (All-sort_indices _ (generate 0 records) (generate-Indexes [] records)) in
        let outer_path : node_path find records stray third_state.nodes 2 ≡ path_of outer =
          rw (at.1.0, path_at) refl in
        let last =
          add_record-beside m beside third_state 2 (1 ∷ 0 ∷ []) apart refl
            (rw outer_path siblings) in
        let end = add_record find records stray (m, beside) third_state in
        let all : make_filerecord_tree find records stray
            ≡ (add_records find records stray xs end).nodes =
          ap (λ l. (add_records find records stray l (empty_tree find records stray)).nodes) e
          ∙ ap
              (λ st.
                (add_records find records stray xs
                  (add_record find records stray (m, beside) st)).nodes)
              (three_records d z do_ di below) in
        (
          ap (λ l. get_elem? l 1) all ∙ add_records-keeps xs end 1 (ap (λ l. get_elem? l 1) last),
          ap (λ l. get_elem? l 3) all ∙ add_records-keeps xs end 3 (ap (λ l. get_elem? l 3) last),
        )
