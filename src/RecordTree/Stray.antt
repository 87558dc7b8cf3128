-- ===== src/RecordTree/Stray.antt =====
-- The index of `retval` is not read when the scanned directory itself is the first record.
use dindexer.Common.{
  ℕ, suc, ◌≡◌, ◌⊎◌, refl, sym, subst, ap, ◌∙◌, inl, inr, arith, Bool, true, false, ◌||◌, Option,
  some, none, List, [], ◌∷◌, length, get_elem?, get_elem?-append_some, All, Bool-cases,
}
use dindexer.Boost.{StringFind}
use dindexer.RecordData.{FileRecordData, rel_path}
use dindexer.PathName.{PathName, path_name, atom_count, is_ancestor, are_siblings, same_atoms}
use dindexer.RecordTree.{
  FileRecordNode, TreeState, Indexed, generate, sort_indices, path_at, node_path, unwind, place,
  emplace, add_record, add_records, empty_tree, make_filerecord_tree,
}
use dindexer.RecordTree.Parents.{
  IsParent, IsTree, is_dir_at, add_record-IsTree, nodes-emplace, All-sort_indices, generate-Indexes,
}

pub empty-is_ancestor : (a c : PathName) → atom_count a ≡ 0 → is_ancestor a c 0 ≡ true
unfolding is_ancestor same_atoms
empty-is_ancestor a c e = ground arith

or-true : (a b : Bool) → b ≡ true → (a || b) ≡ true
or-true a b h = ground arith

first_place :
    (find : StringFind) (records : List FileRecordData) (s path : PathName)
    → place find records s (empty_tree find records s) path ≡ (0, [], path_name find [])
unfolding place unwind
first_place find records s path = elim (Bool-cases (is_ancestor (path_name find []) path 0)) [
  | inl y ↦ rw y refl
  | inr y ↦ rw y refl
]

module _ (find : StringFind) (records : List FileRecordData) (s t : PathName) where
  -- The nodes on the stack, down to the first node and `retval`.
  abbrev Rooted : List ℕ → Type 0
  Rooted [] = ⊥
  Rooted (n ∷ stack) = ((n ≡ 1) × (stack ≡ 0 ∷ [])) ⊎ (((k : ℕ) × (n ≡ suc k)) × Rooted stack)

  -- Either the first node is the current one and all paths are below it, or it is on the stack.
  OnRoot : ℕ → List ℕ → PathName → Type 0
  OnRoot curr stack prev =
      ((curr ≡ 1) × (stack ≡ 0 ∷ []) × (atom_count prev ≡ 0))
      ⊎ (((k : ℕ) × (curr ≡ suc k)) × Rooted stack)

  node_path-eq :
      (nodes : List FileRecordNode) (k : ℕ)
      → IsParent find records s nodes (suc k)
      → node_path find records s nodes (suc k) ≡ node_path find records t nodes (suc k)
  node_path-eq nodes k (e, at, d) = rw (at, node_path) (go (get_elem? records e.index) d)
    where
      go :
          (o : Option FileRecordData)
          → elim o [ none ↦ false | some r ↦ r.is_directory ] ≡ true
          → elim o [ none ↦ s | some r ↦ path_name find (rel_path r) ]
            ≡ elim o [ none ↦ t | some r ↦ path_name find (rel_path r) ]
      go none d = cc
      go (some r) d = refl

  node-eq :
      (nodes : List FileRecordNode) (n k : ℕ)
      → n ≡ suc k
      → IsParent find records s nodes n
      → node_path find records s nodes n ≡ node_path find records t nodes n
  node-eq nodes n k e p =
      subst (λ n. node_path find records s nodes n ≡ node_path find records t nodes n) (sym e)
        (node_path-eq nodes k (subst (λ n. IsParent find records s nodes n) e p))

  -- The path of the first node has no atoms.
  abbrev IsRootFirst : List FileRecordNode → Type 0
  IsRootFirst nodes = atom_count (node_path find records s nodes 1) ≡ 0

  unwind-stray :
      (nodes : List FileRecordNode) (path : PathName) (stack : List ℕ) (curr : ℕ) (prev : PathName)
      → IsRootFirst nodes
      → All (IsParent find records s nodes) stack
      → Rooted stack
      → (let w = unwind find records s nodes path stack curr prev in
          (w ≡ unwind find records t nodes path stack curr prev) × OnRoot w.0 w.1 w.2)
  unfolding unwind OnRoot
  unwind-stray nodes path [] curr prev root a h = absurd h
  unwind-stray nodes path (n ∷ stack) curr prev root (a, as') (inl (one, end)) =
      let q = node-eq nodes n 0 one a in
      let rooted : atom_count (node_path find records s nodes n) ≡ 0 =
        ap (λ k. atom_count (node_path find records s nodes k)) one ∙ root in
      let found =
        or-true (are_siblings (node_path find records s nodes n) path) _
          (empty-is_ancestor (node_path find records s nodes n) path rooted) in
      rw (← q, found) (refl, inl (one, end, rooted))
  unwind-stray nodes path (n ∷ stack) curr prev root (a, as') (inr ((k, e), h)) =
      let test = node_path find records s nodes n in
      let q = node-eq nodes n k e a in
      elim (Bool-cases (are_siblings test path || is_ancestor test path 0)) [
        | inl y ↦ rw (← q, y) (refl, inr ((k, e), h))
        | inr y ↦ rw (← q, y) (unwind-stray nodes path stack n prev root as' h)
      ]

  place-stray :
      (st : TreeState) (path : PathName)
      → IsRootFirst st.nodes
      → IsTree find records s st
      → OnRoot st.curr_node st.node_stack st.prev_dir
      → (let w = place find records s st path in
          (w ≡ place find records t st path) × OnRoot w.0 w.1 w.2)
  unfolding place OnRoot
  place-stray st path root h (inl (one, end, zero_atoms)) =
      rw (empty-is_ancestor st.prev_dir path zero_atoms) (refl, inl (one, end, zero_atoms))
  place-stray st path root h (inr (c, r)) = elim (Bool-cases (is_ancestor st.prev_dir path 0)) [
    | inl y ↦ rw y (refl, inr (c, r))
    | inr y ↦
        rw y (unwind-stray st.nodes path st.node_stack st.curr_node st.prev_dir root h.stack r)
  ]

  -- What every state after the first record has.
  record IsRooted (st : TreeState) : Type 0 where
    tree : IsTree find records s st
    on_root : OnRoot st.curr_node st.node_stack st.prev_dir
    first :
        (e : FileRecordNode) × (get_elem? st.nodes 0 ≡ some e)
        × (atom_count (path_at find records s e.index) ≡ 0)

  first-IsRootFirst :
      (nodes : List FileRecordNode) (e : FileRecordNode)
      → get_elem? nodes 0 ≡ some e
      → atom_count (path_at find records s e.index) ≡ 0
      → IsRootFirst nodes
  first-IsRootFirst nodes e at h = rw (at, node_path) h

  OnRoot-Rooted :
      (curr : ℕ) (stack : List ℕ) (prev : PathName) → OnRoot curr stack prev → Rooted (curr ∷ stack)
  unfolding OnRoot
  OnRoot-Rooted curr stack prev (inl (one, end, z)) = inl (one, end)
  OnRoot-Rooted curr stack prev (inr h) = inr h

  emplace-OnRoot :
      (nodes : List FileRecordNode) (i : ℕ) (d : Bool) (p : PathName) (w : ℕ × List ℕ × PathName)
      → OnRoot w.0 w.1 w.2
      → (let st = emplace find records s nodes i d p w in
          (st ≡ emplace find records t nodes i d p w)
          × OnRoot st.curr_node st.node_stack st.prev_dir)
  unfolding OnRoot
  emplace-OnRoot nodes i true p (curr, stack, prev) h =
      (refl, inr ((length nodes, refl), OnRoot-Rooted curr stack prev h))
  emplace-OnRoot nodes i false p (curr, stack, prev) h = (refl, h)

  add_record-IsRooted :
      (x : ℕ × FileRecordData) (st : TreeState)
      → get_elem? records x.0 ≡ some x.1
      → IsRooted st
      → (add_record find records s x st ≡ add_record find records t x st)
        × IsRooted (add_record find records s x st)
  unfolding add_record
  add_record-IsRooted (i, r) st at h =
      let path = path_name find (rel_path r) in
      let e = h.first.0 in
      let w =
        place-stray st path (first-IsRootFirst st.nodes e h.first.1 h.first.2) h.tree h.on_root in
      let placed = place find records s st path in
      let made = emplace-OnRoot st.nodes i r.is_directory path placed w.1 in
      (
        made.0 ∙ ap (λ v. emplace find records t st.nodes i r.is_directory path v) w.0,
        record {
          tree = add_record-IsTree find records s (i, r) st at h.tree;
          on_root = made.1;
          first = (
            e,
            ap (λ l. get_elem? l 0)
                  (nodes-emplace find records s st.nodes i r.is_directory path placed)
                ∙ get_elem?-append_some st.nodes _ 0 h.first.1,
            h.first.2,
          );
        },
      )

  add_records-IsRooted :
      (xs : Indexed) (st : TreeState)
      → All (λ x. get_elem? records x.0 ≡ some x.1) xs
      → IsRooted st
      → add_records find records s xs st ≡ add_records find records t xs st
  unfolding add_records
  add_records-IsRooted [] st a h = refl
  add_records-IsRooted (x ∷ xs) st (p, a) h =
      let next = add_record-IsRooted x st p h in
      add_records-IsRooted xs (add_record find records s x st) a next.1
      ∙ ap (λ u. add_records find records t xs u) next.0

  -- The state behind the first record.
  abbrev pub first_state : ℕ → FileRecordData → TreeState
  first_state i r = record {
    nodes = (record { parent = 0; index = i }) ∷ [];
    curr_node = 1;
    node_stack = 0 ∷ [];
    prev_dir = path_name find (rel_path r);
  }

  pub add_record-first :
      (u : PathName) (i : ℕ) (r : FileRecordData)
      → r.is_directory ≡ true
      → add_record find records u (i, r) (empty_tree find records u) ≡ first_state i r
  unfolding add_record
  add_record-first u i r d =
      let path = path_name find (rel_path r) in
      ap (λ w. emplace find records u [] i r.is_directory path w) (first_place find records u path)
      ∙ ap (λ b. emplace find records u [] i b path (0, [], path_name find [])) d

  first_state-IsRooted :
      (i : ℕ) (r : FileRecordData)
      → get_elem? records i ≡ some r
      → r.is_directory ≡ true
      → atom_count (path_name find (rel_path r)) ≡ 0
      → IsRooted (first_state i r)
  unfolding OnRoot
  first_state-IsRooted i r at d z =
      let e : FileRecordNode = record { parent = 0; index = i } in
      let is_dir : is_dir_at find records s i ≡ true = rw (at, is_dir_at) d in
      record {
        tree = record { parents = (tt, tt); curr = (e, refl, is_dir); stack = (tt, tt) };
        on_root = inl (refl, refl, z);
        first = (e, refl, rw (at, path_at) z);
      }

  -- When the first of the sorted records is a directory whose path has no atoms, the tree does not
  -- depend on what is found at the index of `retval`, which is never written.
  pub make_filerecord_tree-stray :
      (i : ℕ) (r : FileRecordData) (xs : Indexed)
      → sort_indices (generate 0 records) ≡ (i, r) ∷ xs
      → r.is_directory ≡ true
      → atom_count (path_name find (rel_path r)) ≡ 0
      → make_filerecord_tree find records s ≡ make_filerecord_tree find records t
  unfolding make_filerecord_tree add_records
  make_filerecord_tree-stray i r xs e d z =
      let a =
        subst (λ l. All (λ x. get_elem? records x.0 ≡ some x.1) l) e
          (All-sort_indices _ (generate 0 records) (generate-Indexes [] records)) in
      ap (λ l. (add_records find records s l (empty_tree find records s)).nodes) e
      ∙ ap (λ st. (add_records find records s xs st).nodes) (add_record-first s i r d)
      ∙ ap (λ (st : TreeState). st.nodes)
          (add_records-IsRooted xs (first_state i r) a.1 (first_state-IsRooted i r a.0 d z))
      ∙ ap (λ st. (add_records find records t xs st).nodes) (sym (add_record-first t i r d))
      ∙ ap (λ l. (add_records find records t l (empty_tree find records t)).nodes) (sym e)
