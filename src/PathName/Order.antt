-- ===== src/PathName/Order.antt =====
-- Comparison of paths: equality, ancestors and siblings, by their atoms.
use dindexer.Common.{
  ℕ, ◌+◌, ◌-◌, ◌≤◌, ◌≡◌, ◌↔◌, ◌⊎◌, refl, sym, ap, ◌∙◌, true, not, inl, inr, arith, length, take,
  take_all, ◌==◌, leb, Bool-cases, min, ==→eq,
}
use dindexer.PathName.{
  PathName, atom_count, same_atoms, path_eq, path_ne, is_ancestor, are_siblings,
}
use dindexer.PathName.Atoms.{
  atoms_of, length-texts, same_texts, same_texts→eq, same_texts_refl, same_atoms_lem,
}

-- The comparison of the first `k` atoms.
same_atoms_iff :
    (p q : PathName) (k : ℕ)
    → k ≤ atom_count p
    → k ≤ atom_count q
    → (same_atoms p q k 0 ≡ true) ↔ (take k (atoms_of p) ≡ take k (atoms_of q))
same_atoms_iff p q k hp hq = (
  λ h. same_texts→eq _ _ (sym e ∙ h),
  λ h. e ∙ ap (λ l. same_texts l (take k (atoms_of q))) h ∙ same_texts_refl (take k (atoms_of q)),
)
  where
    e : same_atoms p q k 0 ≡ same_texts (take k (atoms_of p)) (take k (atoms_of q))
    e = same_atoms_lem p q k 0 (omega arith) (omega arith)

take_size : (p : PathName) (n : ℕ) → n ≡ atom_count p → take n (atoms_of p) ≡ atoms_of p
take_size p n e =
    ap (λ k. take k (atoms_of p)) (e ∙ sym (length-texts p.atoms)) ∙ take_all (atoms_of p)

same_count : (p q : PathName) → atoms_of p ≡ atoms_of q → atom_count p ≡ atom_count q
same_count p q h = omega (arith, ap length h, length-texts p.atoms, length-texts q.atoms)

-- Two paths are equal exactly when they have the same atoms, whether or not they are absolute.
pub path_eq-atoms : (p q : PathName) → (path_eq p q ≡ true) ↔ (atoms_of p ≡ atoms_of q)
unfolding path_eq
path_eq-atoms p q = elim (Bool-cases (atom_count p == atom_count q)) [
  | inl e ↦
      let n : atom_count p ≡ atom_count q = ==→eq _ _ e in
      let iff : (same_atoms p q (atom_count p) 0 ≡ true)
          ↔ (take (atom_count p) (atoms_of p) ≡ take (atom_count p) (atoms_of q)) =
        same_atoms_iff p q (atom_count p) (omega arith) (omega arith) in
      rw e (
        (λ h. sym (take_size p (atom_count p) refl) ∙ iff.0 h ∙ take_size q (atom_count p) n),
        λ h. iff.1 (take_size p (atom_count p) refl ∙ h ∙ sym (take_size q (atom_count p) n)),
      )
  | inr ne ↦ rw ne ((λ h. cc), λ h. ground (arith, same_count p q h))
]

-- `!=` is the negation of `==`.
pub path_ne-not : (p q : PathName) → path_ne p q ≡ not (path_eq p q)
unfolding path_ne path_eq
path_ne-not p q = ground arith

-- A path is an ancestor of another within `max_levels` levels (0: any number) exactly when the
-- other is not longer by more than that, and the two agree on as many atoms as the shorter has.
pub is_ancestor-take :
    (p q : PathName) (max_levels : ℕ)
    → (is_ancestor p q max_levels ≡ true) ↔ (
        ((atom_count q ≤ atom_count p + max_levels) ⊎ (max_levels ≡ 0))
        × (take (min (atom_count p) (atom_count q)) (atoms_of p)
            ≡ take (min (atom_count p) (atom_count q)) (atoms_of q)))
unfolding is_ancestor
is_ancestor-take p q k = (λ h. (ground arith, iff.0 (ground arith)), λ h. ground (arith, iff.1 h.1))
  where
    m : ℕ
    m = min (atom_count p) (atom_count q)

    iff : (same_atoms p q m 0 ≡ true) ↔ (take m (atoms_of p) ≡ take m (atoms_of q))
    iff = same_atoms_iff p q m (omega arith) (omega arith)

-- Two paths are siblings exactly when they have as many atoms and agree on all but the last.
pub are_siblings-take :
    (p q : PathName)
    → (are_siblings p q ≡ true) ↔ (
        (atom_count p ≡ atom_count q)
        × (take (atom_count p - 1) (atoms_of p) ≡ take (atom_count p - 1) (atoms_of q)))
unfolding are_siblings
are_siblings-take p q = elim (Bool-cases (atom_count p == atom_count q)) [
  | inl e ↦ elim (Bool-cases (leb (atom_count p) 1)) [
    | inl few ↦ rw (e, few) ((λ h. (==→eq _ _ e, none_compared few)), λ h. refl)
    | inr many ↦ rw (e, many) ((λ h. (==→eq _ _ e, (iff e).0 h)), λ h. (iff e).1 h.1)
  ]
  | inr ne ↦ rw ne ((λ h. cc), λ h. ground arith)
]
  where
    k : ℕ
    k = atom_count p - 1

    none_compared : leb (atom_count p) 1 ≡ true → take k (atoms_of p) ≡ take k (atoms_of q)
    none_compared few = let zero_left : k ≡ 0 = ground arith in rw zero_left

    iff :
        (atom_count p == atom_count q) ≡ true
        → (same_atoms p q k 0 ≡ true) ↔ (take k (atoms_of p) ≡ take k (atoms_of q))
    iff e =
        let n : atom_count p ≡ atom_count q = ==→eq _ _ e in
        same_atoms_iff p q k (omega arith) (omega arith)
