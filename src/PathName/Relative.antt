-- ===== src/PathName/Relative.antt =====
-- `make_relative_path`: what leads from one path to the other.
use dindexer.Common.{
  ℕ, zero, suc, ◌+◌, ◌-◌, ◌≤◌, ◌<◌, ◌≡◌, ◌≢◌, refl, sym, subst, ap, ap₂, ◌∙◌, true, false, not,
  ◌&&◌, inl, inr, List, [], ◌∷◌, ◌++◌, append_assoc, append-nil, arith, Bytes, length, take, drop,
  drop_all, take-take, length-take, Lacks, Filled, All, pieces, pieces_whole, keep_filled, take_all,
  take-append-drop, if◌then◌else◌, bytes_eq, bytes_eq→eq, Bool-cases, min, get_or,
}
use dindexer.Boost.{StringFind, Splitter, Within}
use dindexer.StringPool.{item_range, item_source, size, StringPool, no_range, StringListPair}
use dindexer.StringPool.Valid.{IsValid, Inside}
use dindexer.PathName.{
  PathName, slash, atom_count, path_name, atom, join_part, join_text, join_ellipses, join_rest,
  common_atoms, make_relative_path,
}
use dindexer.PathName.Atoms.{atoms_of, HasAtoms, drop-texts, length-texts}
use dindexer.PathName.Parse.{components, path_name-HasAtoms, path_name-components}
use dindexer.PathName.Edit.{join_part-atoms}

abbrev pub parent_dir : Bytes
parent_dir = b'.' ∷ b'.' ∷ []

-- Go from a directory along the atoms of a path, ".." leading to the parent.
abbrev pub follow : List Bytes → List Bytes → List Bytes
follow dir [] = dir
follow dir (a ∷ as') =
    follow (if bytes_eq a parent_dir then take (length dir - 1) dir else dir ++ a ∷ []) as'

-- An atom as `split_path` finds them: not empty and with no slash.
abbrev pub IsAtom : Bytes → Type 0
IsAtom a = Filled a × Lacks slash a

components_atom : (a : Bytes) → IsAtom a → components a ≡ a ∷ []
components_atom [] (f, l) = absurd (f refl)
components_atom (c ∷ a) (f, l) = ap keep_filled (pieces_whole slash (c ∷ a) l)

All-drop {ℓ} : {A : Type ℓ} (P : A → Type 0) (n : ℕ) (l : List A) → All P l → All P (drop n l)
All-drop P zero l h = h
All-drop P (suc n) [] h = tt
All-drop P (suc n) (x ∷ l) (h, hs) = All-drop P n l hs

range-Within :
    (p : StringPool) (i : ℕ) → IsValid p → i < size p → Within (item_source p i) (item_range p i)
range-Within p i v h = go p.strings i v.inside h
  where
    go :
        (ss : List StringListPair) (i : ℕ)
        → All (Inside p.pool) ss
        → i < length ss
        → Inside p.pool (get_or ss i no_range)
    go [] i a h = elim h [ ]
    go (s ∷ ss) zero (a, as') h = a
    go (s ∷ ss) (suc i) (a, as') h = go ss i as' (omega arith)

dots : ℕ → List Bytes
dots zero = []
dots (suc n) = parent_dir ∷ dots n

-- What a loop that only appends atoms leaves.
abbrev Appended : PathName → List Bytes → PathName → Type 0
Appended p l q = HasAtoms q × (atoms_of q ≡ atoms_of p ++ l) × (q.absolute ≡ p.absolute)

module _ (find : StringFind) (boost : Splitter) where
  dots-Appended :
      (n : ℕ) (p : PathName) → HasAtoms p → Appended p (dots n) (join_ellipses find boost n p)
  unfolding join_ellipses dots join_text
  dots-Appended zero p v = (v, sym (append-nil (atoms_of p)), refl)
  dots-Appended (suc n) p v =
      let whole : Within parent_dir (record { start = 0; len = 2 }) = omega arith in
      let one = join_part-atoms find boost p (record { start = 0; len = 2 }) parent_dir v whole in
      let rest =
        dots-Appended n (join_part find boost p (record { start = 0; len = 2 }) parent_dir) one.0 in
      (
        rest.0,
        rest.1
            ∙ ap (λ l. l ++ dots n)
                (one.1
                  ∙ ap (λ l. atoms_of p ++ l) (components_atom parent_dir ((λ e. cc), omega arith)))
            ∙ append_assoc (atoms_of p) (parent_dir ∷ []) (dots n),
        rest.2 ∙ one.2,
      )

  rest-Appended :
      (other : PathName)
      → HasAtoms other
      → All IsAtom (atoms_of other)
      → (n z : ℕ) (p : PathName) → z + n ≡ atom_count other
      → HasAtoms p
      → Appended p (drop z (atoms_of other)) (join_rest find boost other n z p)
  unfolding join_rest
  rest-Appended other w a zero z p h v = (
    v,
    sym (
        ap (λ l. atoms_of p ++ l)
          (drop_all z (atoms_of other) (omega (arith, length-texts other.atoms)))
        ∙ append-nil (atoms_of p)),
    refl,
  )
  rest-Appended other w a (suc n) z p h v =
      let lt : z < atom_count other = omega arith in
      let at : drop z (atoms_of other) ≡ atom other z ∷ drop (suc z) (atoms_of other) =
        drop-texts other.atoms z lt in
      let is_atom : IsAtom (atom other z) =
        (subst (All IsAtom) at (All-drop IsAtom z (atoms_of other) a)).0 in
      let one =
        join_part-atoms find boost p (item_range other.atoms z) (item_source other.atoms z) v
          (range-Within other.atoms z w lt) in
      let rest =
        rest-Appended other w a n (suc z)
          (join_part find boost p (item_range other.atoms z) (item_source other.atoms z))
          (omega arith) one.0 in
      (
        rest.0,
        rest.1
            ∙ ap (λ l. l ++ drop (suc z) (atoms_of other))
                (one.1 ∙ ap (λ l. atoms_of p ++ l) (components_atom (atom other z) is_atom))
            ∙ append_assoc (atoms_of p) (atom other z ∷ []) (drop (suc z) (atoms_of other))
            ∙ ap (λ l. atoms_of p ++ l) (sym at),
        rest.2 ∙ one.2,
      )

-- The two paths agree on the atoms that `common_atoms` counts.
common_agree :
    (p q : PathName) (n z : ℕ)
    → z + n ≤ atom_count p
    → z + n ≤ atom_count q
    → (common_atoms p q n z ≤ n)
      × (take (common_atoms p q n z) (drop z (atoms_of p))
          ≡ take (common_atoms p q n z) (drop z (atoms_of q)))
unfolding common_atoms
common_agree p q zero z hp hq = (omega arith, refl)
common_agree p q (suc n) z hp hq = elim (Bool-cases (bytes_eq (atom p z) (atom q z))) [
  | inl e ↦
      let ih = common_agree p q n (suc z) (omega arith) (omega arith) in
      rw e (
        omega (arith, ih.0),
        rw (drop-texts p.atoms z (omega arith), drop-texts q.atoms z (omega arith))
            (ap₂ (λ a l. a ∷ l) (bytes_eq→eq _ _ e) ih.1),
      )
  | inr ne ↦ rw ne (omega arith, refl)
]

follow-dots :
    (n : ℕ) (dir l : List Bytes) → follow dir (dots n ++ l) ≡ follow (take (length dir - n) dir) l
unfolding dots bytes_eq
follow-dots zero dir l =
    ap (λ d. follow d l) (sym (ap (λ (k : ℕ). take k dir) (omega arith) ∙ take_all dir))
follow-dots (suc n) dir l =
    follow-dots n (take (length dir - 1) dir) l
    ∙ ap (λ d. follow d l)
        (take-take (length (take (length dir - 1) dir) - n) (length dir - 1) dir
            (omega (arith, length-take (length dir - 1) dir))
          ∙ ap (λ (k : ℕ). take k dir) (omega (arith, length-take (length dir - 1) dir)))

follow_plain : (dir l : List Bytes) → All (λ a. a ≢ parent_dir) l → follow dir l ≡ dir ++ l
follow_plain dir [] h = sym (append-nil dir)
follow_plain dir (a ∷ l) (h, hs) = elim (Bool-cases (bytes_eq a parent_dir)) [
  | inl e ↦ absurd (h (bytes_eq→eq a parent_dir e))
  | inr ne ↦ rw ne (follow_plain (dir ++ a ∷ []) l hs ∙ append_assoc dir (a ∷ []) l)
]

module _ (find : StringFind) (boost : Splitter) where
  -- From an absolute path to a relative one there is no way; the other path is given back.
  pub make_relative_path_other :
      (base other : PathName)
      → base.absolute ≡ false
      → other.absolute ≡ true
      → make_relative_path find boost base other ≡ other
  unfolding make_relative_path pieces
  make_relative_path_other base other b o = rw (b, o)

  -- Unless the base is relative and the other path absolute, `make_relative_path` gives a relative
  -- path, and following it from the base, where ".." takes an atom away, leads to the atoms of the
  -- other path. The other path's pool is well-formed, its atoms are not empty, have no slash, and
  -- are not "..".
  pub follow-make_relative_path :
      (base other : PathName)
      → HasAtoms other
      → All IsAtom (atoms_of other)
      → All (λ a. a ≢ parent_dir) (atoms_of other)
      → (not base.absolute && other.absolute) ≡ false
      → (follow (atoms_of base) (atoms_of (make_relative_path find boost base other))
          ≡ atoms_of other)
        × ((make_relative_path find boost base other).absolute ≡ false)
  unfolding make_relative_path pieces
  follow-make_relative_path base other w a plain e = rw e (
    ap (follow (atoms_of base)) (tail.1 ∙ ap (λ l. l ++ drop k (atoms_of other)) start)
        ∙ follow-dots (atom_count base - k) (atoms_of base) (drop k (atoms_of other))
        ∙ follow_plain _ (drop k (atoms_of other))
            (All-drop (λ x. x ≢ parent_dir) k (atoms_of other) plain)
        ∙ ap (λ l. l ++ drop k (atoms_of other))
            (ap (λ (n : ℕ). take n (atoms_of base))
                (omega (arith, length-texts base.atoms, common.0))
              ∙ sym common.1)
        ∙ take-append-drop k (atoms_of other),
    tail.2 ∙ head.2 ∙ (path_name-components find []).1,
  )
    where
      shortest : ℕ
      shortest = min (atom_count other) (atom_count base)

      k : ℕ
      k = common_atoms other base shortest 0

      common : (k ≤ shortest) × (take k (atoms_of other) ≡ take k (atoms_of base))
      common = common_agree other base shortest 0 (omega arith) (omega arith)

      none_yet : PathName
      none_yet = path_name find []

      head :
          Appended none_yet
            (dots (atom_count base - k))
            (join_ellipses find boost (atom_count base - k) none_yet)
      head = dots-Appended find boost (atom_count base - k) none_yet (path_name-HasAtoms find [])

      start :
          atoms_of (join_ellipses find boost (atom_count base - k) none_yet)
          ≡ dots (atom_count base - k)
      start = head.1 ∙ ap (λ l. l ++ dots (atom_count base - k)) (path_name-components find []).0

      tail :
          Appended
            (join_ellipses find boost (atom_count base - k) none_yet)
            (drop k (atoms_of other))
            (join_rest find boost other
              (atom_count other - k)
              k
              (join_ellipses find boost (atom_count base - k) none_yet))
      tail =
          rest-Appended find boost other w a (atom_count other - k) k _ (omega (arith, common.0))
            head.0
