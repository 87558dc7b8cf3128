-- ===== src/PathName/Joint.antt =====
-- What `get_joint_atoms` writes, and that `calc_join_size` is its length.
use dindexer.Common.{
  ℕ, zero, suc, ◌+◌, ◌-◌, ◌≤◌, ◌≡◌, refl, sym, ap, ◌∙◌, Bool, true, false, not, ◌&&◌, inl, inr,
  List, [], ◌∷◌, ◌++◌, append_assoc, append-nil, arith, Bytes, length, length-append, length-take,
  take_all, take, drop, if◌then◌else◌, ◌==◌, leb, Bool-cases, separated, ==→eq, ==_suc_zero,
}
use dindexer.StringPool.{StringPool, size, item, is_empty_pool}
use dindexer.StringPool.View.{texts}
use dindexer.PathName.{
  PathName, slash, atom_count, add_sizes, calc_join_size, join_atoms, get_joint_atoms,
  get_adjusted_atom_count, path, str_path_size, dirname,
}
use dindexer.PathName.Atoms.{atoms_of, drop-texts, length-texts}

abbrev pub root : Bool → Bytes
root abs = if abs then slash ∷ [] else []

-- The atoms with a slash between them, and one in front of an absolute path.
abbrev pub joined : Bool → List Bytes → Bytes
joined abs [] = root abs
joined abs (a ∷ as') = root abs ++ (a ++ separated slash as')

abbrev total : List Bytes → ℕ
total [] = 0
total (a ∷ as') = length a + total as'

add_sizes_lem :
    (p : StringPool) (k z acc : ℕ)
    → z + k ≤ size p
    → add_sizes p k z acc ≡ acc + total (take k (drop z (texts p)))
unfolding add_sizes
add_sizes_lem p zero z acc h = omega arith
add_sizes_lem p (suc k) z acc h =
    rw (drop-texts p z (omega arith))
      (omega (arith, add_sizes_lem p k (suc z) (acc + length (item p z)) (omega arith)))

abbrev marked : Bytes → List Bytes → Bytes
marked mark [] = []
marked mark (a ∷ as') = mark ++ (a ++ separated slash as')

marked-slash : (l : List Bytes) → marked (slash ∷ []) l ≡ separated slash l
marked-slash [] = refl
marked-slash (a ∷ l) = refl

join_atoms_lem :
    (p : StringPool) (k z : ℕ) (mark out : Bytes)
    → z + k ≤ size p
    → join_atoms p k z mark out ≡ out ++ marked mark (take k (drop z (texts p)))
unfolding join_atoms
join_atoms_lem p zero z mark out h = sym (append-nil out)
join_atoms_lem p (suc k) z mark out h =
    rw
      (
        drop-texts p z (omega arith),
        join_atoms_lem p k (suc z) (slash ∷ []) (out ++ (mark ++ item p z)) (omega arith),
        marked-slash (take k (drop (suc z) (texts p))),
      )
      (append_assoc out (mark ++ item p z) (separated slash (take k (drop (suc z) (texts p))))
        ∙ ap (λ l. out ++ l)
            (append_assoc mark (item p z) (separated slash (take k (drop (suc z) (texts p))))))

length-separated : (l : List Bytes) → length (separated slash l) ≡ length l + total l
length-separated [] = refl
length-separated (a ∷ l) = omega (arith, length-separated l, length-append a (separated slash l))

-- What is written when the last `skip` atoms are left out: nothing if none is left of some.
abbrev pub joint : StringPool → Bool → ℕ → Bytes
joint p abs skip =
    let count = size p - skip in
    if (count == 0) && not (is_empty_pool p) then [] else joined abs (take count (texts p))

adjusted : (p : StringPool) (skip : ℕ) → get_adjusted_atom_count p skip ≡ size p - skip
adjusted p skip = ground arith

take-cons :
    (n : ℕ) (l : List Bytes)
    → suc n ≤ length l
    → (a : Bytes) × (r : List Bytes) × (take (suc n) l ≡ a ∷ r) × (length r ≡ n)
take-cons n [] h = absurd (omega arith)
take-cons n (a ∷ l) h = (a, take n l, refl, omega (arith, length-take n l))

length-root : (abs : Bool) → length (root abs) ≡ (if abs then 1 else 0)
length-root true = refl
length-root false = refl

sizes_joined :
    (abs : Bool) (n : ℕ) (l : List Bytes)
    → suc n ≤ length l
    → (if abs then 1 else 0) + total (take (suc n) l) + (suc n - 1)
      ≡ length (joined abs (take (suc n) l))
sizes_joined abs n l h =
    let (a, r, e, k) = take-cons n l h in
    rw e (
      omega (
        arith,
        length-root abs,
        length-append (root abs) (a ++ separated slash r),
        length-append a (separated slash r),
        length-separated r,
        k,
      ))

-- The size that is computed beforehand is the size of what is written, for any atoms.
pub calc_join_size-joint :
    (p : StringPool) (abs : Bool) (skip : ℕ) → calc_join_size p abs skip ≡ length (joint p abs skip)
unfolding calc_join_size
calc_join_size-joint p abs skip = rw (adjusted p skip) (go (size p - skip) (omega arith))
  where
    go :
        (n : ℕ)
        → n ≤ size p
        → (if n == 0
            then (if is_empty_pool p && abs then 1 else 0)
            else add_sizes p n 0 (if abs then 1 else 0) + (n - 1))
          ≡ length (if (n == 0) && not (is_empty_pool p) then [] else joined abs (take n (texts p)))
    go zero h = none_left (is_empty_pool p) abs
      where
        none_left :
            (e abs : Bool) → (if e && abs then 1 else 0) ≡ length (if not e then [] else root abs)
        none_left true true = refl
        none_left true false = refl
        none_left false abs = refl
    go (suc n) h =
        rw (==_suc_zero n, add_sizes_lem p (suc n) 0 (if abs then 1 else 0) (omega arith))
          (sizes_joined abs n (texts p) (omega (arith, h, length-texts p)))

empty_of_length : (s : Bytes) → length s ≡ 0 → s ≡ []
empty_of_length [] h = refl
empty_of_length (c ∷ s) h = absurd (omega arith)

-- A text of one byte that begins with a slash.
single_slash : (s : Bytes) → length (slash ∷ s) ≡ 1 → slash ∷ s ≡ slash ∷ []
single_slash s h = ap (λ l. slash ∷ l) (empty_of_length s (omega arith))

-- The shortcuts of `get_joint_atoms` for the sizes 0 and 1 agree with the loop.
shortcuts :
    (abs : Bool) (rest : Bytes)
    → (if length (root abs ++ rest) == 0
        then []
        else if (length (root abs ++ rest) == 1) && abs
        then slash ∷ []
        else root abs ++ rest)
      ≡ root abs ++ rest
shortcuts true rest = elim (Bool-cases (suc (length rest) == 1)) [
  | inl e ↦ rw (==_suc_zero (length rest), e) (sym (single_slash rest (==→eq _ 1 e)))
  | inr ne ↦ rw (==_suc_zero (length rest), ne)
]
shortcuts false [] = refl
shortcuts false (c ∷ rest) = elim (Bool-cases (suc (length rest) == 1)) [
  | inl e ↦ rw (==_suc_zero (length rest), e)
  | inr ne ↦ rw (==_suc_zero (length rest), ne)
]

-- `get_joint_atoms` writes the atoms with a slash between them.
pub get_joint_atoms-joint :
    (p : StringPool) (abs : Bool) (skip : ℕ) → get_joint_atoms p abs skip ≡ joint p abs skip
unfolding get_joint_atoms join_atoms
get_joint_atoms-joint p abs skip =
    rw (calc_join_size-joint p abs skip, adjusted p skip) (go (size p - skip) (omega arith))
  where
    J : ℕ → Bytes
    J n = if (n == 0) && not (is_empty_pool p) then [] else joined abs (take n (texts p))

    go :
        (n : ℕ)
        → n ≤ size p
        → (if length (J n) == 0
            then []
            else if (length (J n) == 1) && abs
            then slash ∷ []
            else join_atoms p n 0 (root abs) [])
          ≡ J n
    go zero h = none_left (is_empty_pool p) abs
      where
        none_left :
            (e abs : Bool)
            → (if length (if not e then [] else root abs) == 0
                then []
                else if (length (if not e then [] else root abs) == 1) && abs
                then slash ∷ []
                else [])
              ≡ (if not e then [] else root abs)
        none_left true true = refl
        none_left true false = refl
        none_left false abs = refl
    go (suc n) h =
        let (a, r, e, k) = take-cons n (texts p) (omega (arith, h, length-texts p)) in
        rw (==_suc_zero n, join_atoms_lem p (suc n) 0 (root abs) [] (omega arith), e)
          (shortcuts abs (a ++ separated slash r))

joint_whole : (p : StringPool) (abs : Bool) → joint p abs 0 ≡ joined abs (texts p)
joint_whole p abs =
    ap (λ n. if (n == 0) && not (is_empty_pool p) then [] else joined abs (take n (texts p)))
      (omega (arith, length-texts p))
    ∙ whole (texts p) (length-texts p)
  where
    whole :
        (l : List Bytes)
        → length l ≡ size p
        → (if (length l == 0) && not (size p == 0) then [] else joined abs (take (length l) l))
          ≡ joined abs l
    whole [] h = rw (← h)
    whole (a ∷ l) h = rw (==_suc_zero (length l), take_all l)

-- `path` writes the atoms with a slash between them, one more in front of an absolute path; the
-- absolute path without atoms is "/".
pub path-joined : (p : PathName) → path p ≡ joined p.absolute (atoms_of p)
unfolding path
path-joined p = get_joint_atoms-joint p.atoms p.absolute 0 ∙ joint_whole p.atoms p.absolute

-- `str_path_size` is the length of the path that `path` writes.
pub str_path_size-length : (p : PathName) → str_path_size p ≡ length (path p)
unfolding str_path_size path
str_path_size-length p =
    calc_join_size-joint p.atoms p.absolute 0
    ∙ ap length (sym (get_joint_atoms-joint p.atoms p.absolute 0))

-- `dirname` writes all atoms but the last; it is empty for a path of one atom or none, also for an
-- absolute one.
pub dirname-joined :
    (p : PathName)
    → dirname p ≡ (
        if leb (atom_count p) 1
        then []
        else joined p.absolute (take (atom_count p - 1) (atoms_of p)))
unfolding dirname
dirname-joined p =
    ap (λ l. if atom_count p == 0 then [] else l) (get_joint_atoms-joint p.atoms p.absolute 1)
    ∙ tests (atom_count p) (joined p.absolute (take (atom_count p - 1) (atoms_of p)))
  where
    tests :
        (n : ℕ) (out : Bytes)
        → (if n == 0 then [] else if (n - 1 == 0) && not (n == 0) then [] else out)
          ≡ (if leb n 1 then [] else out)
    tests n out = ground arith
