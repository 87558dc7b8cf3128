-- ===== src/RecordTree/Parents.antt =====
-- Every record has one node, and every node stands under a directory that came before it.
use dindexer.Common.{
  ℕ, zero, suc, ◌≡◌, refl, sym, subst, ap, ◌∙◌, inl, inr, arith, Bool, true, false, ◌||◌, some,
  none, List, [], ◌∷◌, ◌++◌, map, length, length-append, get_elem?, get_elem?-append_some,
  get_elem?-append_length, All, All-map, Bool-cases, append-nil, append_assoc, map-append,
}
use mathlib.Core.List.{Perm}
use mathlib.Core.List.Perm
use dindexer.Boost.{StringFind}
use dindexer.RecordData.{FileRecordData, rel_path}
use dindexer.PathName.{PathName, path_name, is_ancestor, are_siblings}
use dindexer.SetListing.{bytes_lt}
use dindexer.RecordTree.{
  FileRecordNode, TreeState, Indexed, generate, insert_index, sort_indices, node_path, unwind,
  place, emplace, add_record, add_records, empty_tree, make_filerecord_tree,
}

insert_index-perm : (x : ℕ × FileRecordData) (xs : Indexed) → Perm (insert_index x xs) (x ∷ xs)
unfolding insert_index
insert_index-perm x [] = Perm.refl (x ∷ [])
insert_index-perm x (y ∷ ys) = elim (Bool-cases (bytes_lt (rel_path y.1) (rel_path x.1))) [
  | inl e ↦ rw e (Perm.trans (Perm.cons y (insert_index-perm x ys)) (Perm.swap x y ys))
  | inr e ↦ rw e (Perm.refl (x ∷ y ∷ ys))
]

sort_indices-perm : (xs : Indexed) → Perm (sort_indices xs) xs
unfolding sort_indices
sort_indices-perm [] = Perm.refl []
sort_indices-perm (x ∷ xs) =
    Perm.trans (insert_index-perm x (sort_indices xs)) (Perm.cons x (sort_indices-perm xs))

abbrev pub indices : List FileRecordNode → List ℕ
indices = map (λ e. e.index)

All-insert_index :
    (P : ℕ × FileRecordData → Type 0) (x : ℕ × FileRecordData) (xs : Indexed)
    → P x
    → All P xs
    → All P (insert_index x xs)
unfolding insert_index
All-insert_index P x [] p a = (p, tt)
All-insert_index P x (y ∷ ys) p (q, a) =
    elim (Bool-cases (bytes_lt (rel_path y.1) (rel_path x.1))) [
      | inl e ↦ rw e (q, All-insert_index P x ys p a)
      | inr e ↦ rw e (p, (q, a))
    ]

pub All-sort_indices :
    (P : ℕ × FileRecordData → Type 0) (xs : Indexed) → All P xs → All P (sort_indices xs)
unfolding sort_indices
All-sort_indices P [] a = tt
All-sort_indices P (x ∷ xs) (p, a) =
    All-insert_index P x (sort_indices xs) p (All-sort_indices P xs a)

-- The record at each index.
pub generate-Indexes :
    (pre rs : List FileRecordData)
    → All (λ x. get_elem? (pre ++ rs) x.0 ≡ some x.1) (generate (length pre) rs)
generate-Indexes pre [] = tt
generate-Indexes pre (r ∷ rs) = (
  get_elem?-append_length pre r rs,
  subst (λ k. All (λ x. get_elem? k x.0 ≡ some x.1) (generate (suc (length pre)) rs))
      (append_assoc pre (r ∷ []) rs)
      (subst (λ n. All (λ x. get_elem? ((pre ++ r ∷ []) ++ rs) x.0 ≡ some x.1) (generate n rs))
        (omega (arith, length-append pre (r ∷ []))) (generate-Indexes (pre ++ r ∷ []) rs)),
)

module _ (find : StringFind) (records : List FileRecordData) (stray : PathName) where
  abbrev pub is_dir_at : ℕ → Bool
  is_dir_at i = elim (get_elem? records i) [ none ↦ false | some r ↦ r.is_directory ]

  -- `retval`, or the node of a directory.
  abbrev pub IsParent : List FileRecordNode → ℕ → Type 0
  IsParent nodes zero = Unit {0}
  IsParent nodes (suc k) =
      (e : FileRecordNode) × (get_elem? nodes k ≡ some e) × (is_dir_at e.index ≡ true)

  -- Each node stands under one that came before it.
  abbrev pub HasParents : List FileRecordNode → List FileRecordNode → Type 0
  HasParents before [] = Unit {0}
  HasParents before (e ∷ es) = IsParent before e.parent × HasParents (before ++ e ∷ []) es

  pub IsParent-append :
      (nodes more : List FileRecordNode) (p : ℕ) → IsParent nodes p → IsParent (nodes ++ more) p
  IsParent-append nodes more zero h = tt
  IsParent-append nodes more (suc k) (e, at, d) = (e, get_elem?-append_some nodes more k at, d)

  HasParents-snoc :
      (before nodes : List FileRecordNode) (e : FileRecordNode)
      → HasParents before nodes
      → IsParent (before ++ nodes) e.parent
      → HasParents before (nodes ++ e ∷ [])
  HasParents-snoc before [] e h p = (subst (λ l. IsParent l e.parent) (append-nil before) p, tt)
  HasParents-snoc before (x ∷ nodes) e (q, h) p = (
    q,
    HasParents-snoc (before ++ x ∷ []) nodes e h
        (subst (λ l. IsParent l e.parent) (sym (append_assoc before (x ∷ []) nodes)) p),
  )

  -- The pointers of a state are to `retval` and to directories.
  pub record IsTree (st : TreeState) : Type 0 where
    pub parents : HasParents [] st.nodes
    pub curr : IsParent st.nodes st.curr_node
    pub stack : All (IsParent st.nodes) st.node_stack

  abbrev pub Placed : List FileRecordNode → ℕ × List ℕ × PathName → Type 0
  Placed nodes (curr, stack, prev) = IsParent nodes curr × All (IsParent nodes) stack

  unwind-Placed :
      (nodes : List FileRecordNode) (path : PathName) (stack : List ℕ) (curr : ℕ) (prev : PathName)
      → IsParent nodes curr
      → All (IsParent nodes) stack
      → Placed nodes (unwind find records stray nodes path stack curr prev)
  unfolding unwind
  unwind-Placed nodes path [] curr prev c s = (c, tt)
  unwind-Placed nodes path (top ∷ stack) curr prev c (t, s) =
      let test = node_path find records stray nodes top in
      elim (Bool-cases (are_siblings test path || is_ancestor test path 0)) [
        | inl e ↦ rw e (t, s)
        | inr e ↦ rw e (unwind-Placed nodes path stack top prev t s)
      ]

  place-Placed :
      (st : TreeState) (path : PathName)
      → IsTree st
      → Placed st.nodes (place find records stray st path)
  unfolding place
  place-Placed st path h = elim (Bool-cases (is_ancestor st.prev_dir path 0)) [
    | inl e ↦ rw e (h.curr, h.stack)
    | inr e ↦
        rw e (unwind-Placed st.nodes path st.node_stack st.curr_node st.prev_dir h.curr h.stack)
  ]

  emplace-IsTree :
      (nodes : List FileRecordNode) (i : ℕ) (d : Bool) (p : PathName) (w : ℕ × List ℕ × PathName)
      → HasParents [] nodes
      → Placed nodes w
      → (d ≡ true → is_dir_at i ≡ true)
      → IsTree (emplace find records stray nodes i d p w)
  emplace-IsTree nodes i d p (curr, stack, prev) h (c, s) k = go d k
    where
      new : FileRecordNode
      new = record { parent = curr; index = i }

      kept : All (IsParent (nodes ++ new ∷ [])) stack
      kept = All-map _ _ (λ q x. IsParent-append nodes (new ∷ []) q x) stack s

      go :
          (d : Bool)
          → (d ≡ true → is_dir_at i ≡ true)
          → IsTree (emplace find records stray nodes i d p (curr, stack, prev))
      go true k = record {
        parents = HasParents-snoc [] nodes new h c;
        curr = (new, get_elem?-append_length nodes new [], k refl);
        stack = (IsParent-append nodes (new ∷ []) curr c, kept);
      }
      go false k = record {
        parents = HasParents-snoc [] nodes new h c;
        curr = IsParent-append nodes (new ∷ []) curr c;
        stack = kept;
      }

  pub add_record-IsTree :
      (x : ℕ × FileRecordData) (st : TreeState)
      → get_elem? records x.0 ≡ some x.1
      → IsTree st
      → IsTree (add_record find records stray x st)
  unfolding add_record
  add_record-IsTree (i, r) st at h =
      emplace-IsTree st.nodes i r.is_directory (path_name find (rel_path r))
        (place find records stray st (path_name find (rel_path r))) h.parents
        (place-Placed st (path_name find (rel_path r)) h) (λ d. rw (at, is_dir_at) d)

  pub add_records-IsTree :
      (xs : Indexed) (st : TreeState)
      → All (λ x. get_elem? records x.0 ≡ some x.1) xs
      → IsTree st
      → IsTree (add_records find records stray xs st)
  unfolding add_records
  add_records-IsTree [] st a h = h
  add_records-IsTree (x ∷ xs) st (p, a) h =
      add_records-IsTree xs (add_record find records stray x st) a (add_record-IsTree x st p h)

  pub nodes-emplace :
      (nodes : List FileRecordNode) (i : ℕ) (d : Bool) (p : PathName) (w : ℕ × List ℕ × PathName)
      → (emplace find records stray nodes i d p w).nodes
        ≡ nodes ++ (record { parent = w.0; index = i }) ∷ []
  nodes-emplace nodes i true p w = refl
  nodes-emplace nodes i false p w = refl

  indices-add_record :
      (x : ℕ × FileRecordData) (st : TreeState)
      → indices (add_record find records stray x st).nodes ≡ indices st.nodes ++ x.0 ∷ []
  unfolding add_record
  indices-add_record (i, r) st =
      ap indices (nodes-emplace st.nodes i r.is_directory _ (place find records stray st _))
      ∙ map-append (λ (e : FileRecordNode). e.index) st.nodes _

  indices-add_records :
      (xs : Indexed) (st : TreeState)
      → indices (add_records find records stray xs st).nodes ≡ indices st.nodes ++ map (λ x. x.0) xs
  unfolding add_records
  indices-add_records [] st = sym (append-nil (indices st.nodes))
  indices-add_records (x ∷ xs) st =
      indices-add_records xs (add_record find records stray x st)
      ∙ ap (λ l. l ++ map (λ (x : ℕ × FileRecordData). x.0) xs) (indices-add_record x st)
      ∙ append_assoc (indices st.nodes) (x.0 ∷ []) (map (λ (x : ℕ × FileRecordData). x.0) xs)

  -- The nodes of the tree have the index of each record once, and each node stands under `retval`
  -- or under the node of a directory that was made before it.
  pub make_filerecord_tree-HasParents :
      Perm (indices (make_filerecord_tree find records stray)) (map (λ x. x.0) (generate 0 records))
      × HasParents [] (make_filerecord_tree find records stray)
  unfolding make_filerecord_tree
  make_filerecord_tree-HasParents = (
    subst (λ l. Perm l (map (λ x. x.0) (generate 0 records)))
        (sym
          (indices-add_records (sort_indices (generate 0 records)) (empty_tree find records stray)))
        (Perm.map (λ (x : ℕ × FileRecordData). x.0) (sort_indices-perm (generate 0 records))),
    (add_records-IsTree (sort_indices (generate 0 records)) (empty_tree find records stray)
        (All-sort_indices _ (generate 0 records) (generate-Indexes [] records))
        (record { parents = tt; curr = tt; stack = tt })).parents,
  )
