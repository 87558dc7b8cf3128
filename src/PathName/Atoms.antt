-- ===== src/PathName/Atoms.antt =====
-- The atoms of a path as a list of texts, and the loops over them.
use dindexer.Common.{
  ℕ, zero, suc, ◌+◌, ◌≤◌, ◌<◌, ◌≡◌, refl, ap, Bool, true, false, List, [], ◌∷◌, map, arith, Bytes,
  length, length-map, get_or, take, drop, if◌then◌else◌, bytes_eq, bytes_eq_refl, bytes_eq→eq,
}
use dindexer.StringPool.{StringPool, size, item, no_range, make_stringref}
use dindexer.StringPool.View.{texts}
use dindexer.StringPool.Valid.{IsValid}
use dindexer.PathName.{PathName, atom, atom_count, same_atoms}

abbrev pub atoms_of : PathName → List Bytes
atoms_of p = texts p.atoms

-- A path over a well-formed pool.
abbrev pub HasAtoms : PathName → Type 0
HasAtoms p = IsValid p.atoms

drop-map {ℓ} :
    {A : Type ℓ} (f : A → Bytes) (l : List A) (i : ℕ) (d : A)
    → i < length l
    → drop i (map f l) ≡ f (get_or l i d) ∷ drop (suc i) (map f l)
drop-map f [] i d h = elim h [ ]
drop-map f (x ∷ l) zero d h = refl
drop-map f (x ∷ l) (suc i) d h = drop-map f l i d (omega arith)

pub length-texts : (p : StringPool) → length (texts p) ≡ size p
length-texts p = length-map (make_stringref p.pool) p.strings

pub drop-texts :
    (p : StringPool) (i : ℕ) → i < size p → drop i (texts p) ≡ item p i ∷ drop (suc i) (texts p)
drop-texts p i h = drop-map (make_stringref p.pool) p.strings i no_range h

-- The list test that `same_atoms` makes.
abbrev pub same_texts : List Bytes → List Bytes → Bool
same_texts [] [] = true
same_texts [] (b ∷ bs) = false
same_texts (a ∷ as') [] = false
same_texts (a ∷ as') (b ∷ bs) = if bytes_eq a b then same_texts as' bs else false

pub same_texts→eq : (s t : List Bytes) → same_texts s t ≡ true → s ≡ t
same_texts→eq [] [] h = refl
same_texts→eq [] (b ∷ t) h = cc
same_texts→eq (a ∷ s) [] h = cc
same_texts→eq (a ∷ s) (b ∷ t) h = ground (arith, bytes_eq→eq a b, same_texts→eq s t)

pub same_texts_refl : (s : List Bytes) → same_texts s s ≡ true
same_texts_refl [] = refl
same_texts_refl (a ∷ s) = ground (arith, bytes_eq_refl a, same_texts_refl s)

pub same_atoms_lem :
    (p q : PathName) (k z : ℕ)
    → z + k ≤ atom_count p
    → z + k ≤ atom_count q
    → same_atoms p q k z ≡ same_texts (take k (drop z (atoms_of p))) (take k (drop z (atoms_of q)))
unfolding same_atoms
same_atoms_lem p q zero z hp hq = refl
same_atoms_lem p q (suc k) z hp hq =
    rw (drop-texts p.atoms z (omega arith), drop-texts q.atoms z (omega arith))
      (ap (λ b. if bytes_eq (atom p z) (atom q z) then b else false)
        (same_atoms_lem p q k (suc z) (omega arith) (omega arith)))
