-- ===== src/Scan/Hashing/Agreement.antt =====
-- hash_dir on the sorted list of a scan gives what the description on the records gives.
use dindexer.Common.{
  ℕ, zero, suc, ◌+◌, ◌-◌, ◌≤◌, ◌<◌, ◌≡◌, refl, sym, subst, ap, ◌∙◌, inl, inr, arith, Bool, true,
  false, not, Option, some, none, List, [], ◌∷◌, ◌++◌, Bytes, length, length-take, take, All,
  All-map, All-pair, ==_refl, if◌then◌else◌, Bool-cases, append_assoc,
}
use dindexer.RecordData.{FileRecordData, TigerHash, rel_path}
use dindexer.PathName.{PathName, atom_count, path_ne, path_name, pop_right}
use dindexer.PathName.Atoms.{atoms_of, length-texts}
use dindexer.PathName.Edit.{pop_right-atoms}
use dindexer.PathName.Parse.{path_name-HasAtoms}
use dindexer.SetListing.{
  DirIterator, SetListingView, is_elsewhere, seek, dir_iterator, view_begin, view_at,
}
use dindexer.SetListing.Order.{IsSorted}
use dindexer.SetListing.Children.{
  records, Leveled, iterator_at, visit-children, children-seek, Stopped-seek, seek-suffix,
}
use dindexer.SetListing.Helpers.{each, visit-HasFront, front_is}
use dindexer.SetListing.FirstFile.{from_file, first_file-from_file, visit-suffix}
use dindexer.Scan.Hashing.{
  Hasher, HashState, make_blob, hash_dir, hash_files, set_hash, Filled, on_data_fill, finish,
  from_first_file,
}
use dindexer.Scan.Hashing.Reference.{path_of, children_of, pieces, take_files, dir_hash}
use dindexer.Scan.Hashing.Files.{
  dir_result, blob_result, Agrees, if-true, blob-pieces, FileBelow, files-take_files,
  dir_result-finish,
}
use dindexer.Scan.Hashing.Children.{
  FilesLast, IsListing, IsListing-tail, IsListing-suffix, children_of-suffix, children-children_of,
  children_of-FilesLast,
}

All-if {ℓ κ} :
    {A : Type ℓ} (P : A → Type κ) (d : Bool) (x y : List A)
    → (d ≡ true → All P y)
    → (d ≡ false → All P x)
    → All P (if not d then x else y)
All-if P true x y h k = h refl
All-if P false x y h k = k refl

module _ (env : Hasher) where
  open env use {find, tiger_data}

  atom_count-pop_right :
      (s : Bytes) → atom_count (pop_right (path_name find s)) ≡ atom_count (path_name find s) - 1
  atom_count-pop_right s =
      let p = path_name find s in
      omega (
        arith,
        length-texts p.atoms,
        length-texts (pop_right p).atoms,
        ap length (pop_right-atoms p (path_name-HasAtoms find s)).1,
        length-take (atom_count p - 1) (atoms_of p),
      )

  same_place : (base p : PathName) → path_ne base p ≡ false → atom_count base ≡ atom_count p
  unfolding path_ne
  same_place base p h = ground arith

  child-Leveled :
      (base : PathName) (r : FileRecordData)
      → r.level + 0 ≡ atom_count (path_of env r)
      → 0 < r.level
      → is_elsewhere find base r ≡ false
      → r.level + 0 ≡ atom_count base + 1
  unfolding is_elsewhere
  child-Leveled base r d b h =
      omega
        (arith, same_place base (pop_right (path_of env r)) h, atom_count-pop_right (rel_path r))

  IsListing-Leveled :
      (base : PathName) (r : FileRecordData) (rs : List FileRecordData)
      → IsListing env (r ∷ rs)
      → Leveled find base 0 rs
  IsListing-Leveled base r [] h = tt
  IsListing-Leveled base r (x ∷ rs) h = (
    child-Leveled base x h.deep.1.0 h.below.0,
    IsListing-Leveled base x rs (IsListing-tail env r (x ∷ rs) h),
  )

  -- The view of a directory: a range that begins with the directory.
  abbrev own_view : FileRecordData → List FileRecordData → SetListingView
  own_view r rs = record { range = r ∷ rs; base_path = some (path_of env r); level_offset = 0 }

  begin-seek :
      (r : FileRecordData) (rs : List FileRecordData)
      → IsListing env (r ∷ rs)
      → view_begin find (own_view r rs)
        ≡ iterator_at find (path_of env r) 0 (seek find (path_of env r) 0 rs)
  unfolding view_begin dir_iterator seek
  begin-seek r rs h = rw (h.deep.0, ==_refl (atom_count (path_of env r))) refl

  each-children_of :
      (r : FileRecordData) (rs : List FileRecordData)
      → IsListing env (r ∷ rs)
      → records (each find (own_view r rs)) ≡ children_of env r rs
  each-children_of r rs h =
      let base = path_of env r in
      let l : Leveled find base 0 rs = IsListing-Leveled base r rs h in
      rw (begin-seek r rs h) (
        visit-children find base 0 (length (r ∷ rs)) (seek find base 0 rs)
          (seek-suffix find base 0 (λ l. length l ≤ length (r ∷ rs)) (λ x xs k. omega arith) rs
            (omega arith))
          (seek-suffix find base 0 IsSorted (λ x xs k. k.1) rs h.sorted.1)
          (seek-suffix find base 0 (Leveled find base 0) (λ x xs k. k.1) rs l)
          (Stopped-seek find base 0 rs)
        ∙ children-seek find base 0 rs l
        ∙ children-children_of env r rs l (omega (arith, h.deep.0)))

  -- What an iterator of the loop over a directory stands on: a record of the list.
  abbrev Stands : List FileRecordData → ℕ → List FileRecordData → Type 0
  Stands list n rest = ((pre : List FileRecordData) × (list ≡ pre ++ rest)) × (length rest ≤ n)

  Stands-tail :
      (list : List FileRecordData) (n : ℕ) (r : FileRecordData) (rs : List FileRecordData)
      → Stands list n (r ∷ rs)
      → Stands list n rs
  Stands-tail list n r rs ((pre, e), l) =
      ((pre ++ r ∷ [], e ∙ sym (append_assoc pre (r ∷ []) rs)), omega arith)

  each-Stands :
      (list : List FileRecordData) (r : FileRecordData) (rs : List FileRecordData)
      → IsListing env (r ∷ rs)
      → Stands list (length rs) rs
      → All (λ j. Stands list (length rs) j.rest × (j.level_offset ≡ 0)) (each find (own_view r rs))
  each-Stands list r rs h st = rw (begin-seek r rs h) (
      visit-suffix find (Stands list (length rs)) (Stands-tail list (length rs)) (length (r ∷ rs)) 0
        _
        (seek-suffix find (path_of env r) 0 (Stands list (length rs)) (Stands-tail list (length rs))
          rs st)
        refl)

  begin-shorter :
      (r : FileRecordData) (rs : List FileRecordData)
      → IsListing env (r ∷ rs)
      → length (view_begin find (own_view r rs)).rest ≤ length (r ∷ rs)
  begin-shorter r rs h = rw (begin-seek r rs h) (
      seek-suffix find (path_of env r) 0 (λ l. length l ≤ length (r ∷ rs)) (λ x xs k. omega arith)
        rs (omega arith))

  -- Directories in front of the first file change no hash.
  take_files-from_file :
      (its : List DirIterator) (h : TigerHash)
      → take_files env (records (from_file its)) h ≡ take_files env (records its) h
  take_files-from_file [] h = refl
  take_files-from_file (it ∷ its) h = go it.rest (take_files-from_file its h)
    where
      go :
          (rest : List FileRecordData)
          → take_files env (records (from_file its)) h ≡ take_files env (records its) h
          → take_files env
              (records (
                if front_is (λ r. not r.is_directory) rest
                then record it { rest = rest } ∷ its
                else from_file its))
              h
            ≡ take_files env (take 1 rest ++ records its) h
      go [] k = k
      go (r ∷ rs) k = elim (Bool-cases r.is_directory) [ inl y ↦ rw y k | inr n ↦ rw n refl ]

  abbrev Below : ℕ → DirIterator → Type 0
  Below dir it = (0 < length it.rest) × (length it.rest < dir)

  all-FileBelow :
      (dir : ℕ) (its : List DirIterator)
      → All (λ x. x.is_directory ≡ false) (records its)
      → All (Below dir) its
      → All (λ it. FileBelow env dir it.rest) its
  all-FileBelow dir [] f a = tt
  all-FileBelow dir (it ∷ its) f (a, as') = go it.rest a f (λ g. all-FileBelow dir its g as')
    where
      go :
          (rest : List FileRecordData)
          → (0 < length rest) × (length rest < dir)
          → All (λ x. x.is_directory ≡ false) (take 1 rest ++ records its)
          → (All (λ x. x.is_directory ≡ false) (records its)
              → All (λ it. FileBelow env dir it.rest) its)
          → FileBelow env dir rest × All (λ it. FileBelow env dir it.rest) its
      go [] (z, l) f k = absurd (omega arith)
      go (r ∷ rs) (z, l) (f, fs) k = ((f, l), k fs)

  from_file-FileBelow :
      (dir : ℕ) (its : List DirIterator)
      → FilesLast (records its)
      → All (Below dir) its
      → All (λ it. FileBelow env dir it.rest) (from_file its)
  from_file-FileBelow dir [] f a = tt
  from_file-FileBelow dir (it ∷ its) f (a, as') =
      go it.rest refl a f (λ g. from_file-FileBelow dir its g as')
    where
      go :
          (rest : List FileRecordData)
          → it.rest ≡ rest
          → (0 < length rest) × (length rest < dir)
          → FilesLast (take 1 rest ++ records its)
          → (FilesLast (records its) → All (λ it. FileBelow env dir it.rest) (from_file its))
          → All
              (λ it. FileBelow env dir it.rest)
              (if front_is (λ r. not r.is_directory) rest then it ∷ its else from_file its)
      go [] e (z, l) f k = absurd (omega arith)
      go (r ∷ rs) e (z, l) (f, fs) k =
          All-if _ r.is_directory (it ∷ its) (from_file its) (λ y. k fs)
            (λ n. (
              subst (λ rest. FileBelow env dir rest) (sym e) (n, l),
              all-FileBelow dir its (f n) as',
            ))

  finished :
      (dir : ℕ) (b : Bytes × HashState × Bool) (ff : List DirIterator) (kids : List FileRecordData)
      (p : Option Bytes)
      → All (λ it. FileBelow env dir it.rest) ff
      → ((h : TigerHash) → take_files env (records ff) h ≡ take_files env kids h)
      → blob_result b ≡ p
      → dir_result dir (
          if b.2
          then finish env dir (hash_files env dir ff (set_hash dir (tiger_data b.0) b.1))
          else (b.1, false))
        ≡ elim p [ none ↦ none | some x ↦ take_files env kids (tiger_data x) ]
  finished dir (x, s, true) ff kids p below same h = rw (← h) (
      dir_result-finish env dir (hash_files env dir ff (set_hash dir (tiger_data x) s))
      ∙ files-take_files env dir ff (set_hash dir (tiger_data x) s) below
      ∙ ap (λ g. take_files env (records ff) g) (written dir)
      ∙ same (tiger_data x))
    where
      written : (d : ℕ) → ((set_hash d (tiger_data x) s).fields d).hash ≡ tiger_data x
      written d = rw (==_refl d) refl
  finished dir (x, s, false) ff kids p below same h = rw (← h) refl

  -- A call for a record of the list, with its own view, gives the hash of the description.
  abbrev AgreesAt : ℕ → ℕ → Type 0
  AgreesAt fuel m =
      (pre : List FileRecordData) (r : FileRecordData) (rs : List FileRecordData) (s : HashState)
      → IsListing env (pre ++ r ∷ rs)
      → length rs < fuel
      → length rs < m
      → dir_result (length (r ∷ rs)) (hash_dir env fuel (length (r ∷ rs)) (own_view r rs) s)
        ≡ dir_hash env m (pre ++ r ∷ rs) r

  Stands-Agrees :
      (fuel m n o : ℕ) (list rest : List FileRecordData)
      → IsListing env list
      → n ≤ fuel
      → n ≤ m
      → AgreesAt fuel m
      → (Stands list n rest × (o ≡ 0)) × (0 < length rest)
      → Agrees env (hash_dir env fuel) (dir_hash env m list) rest o
  unfolding view_at
  Stands-Agrees fuel m n o list [] h f g ih (st, z) = absurd (omega arith)
  Stands-Agrees fuel m n o list (r ∷ rs) h f g ih ((((pre, e), l), zero_offset), z) = λ s y.
      rw zero_offset (
        ih pre r rs s (subst (λ k. IsListing env k) e h) (omega arith) (omega arith)
        ∙ ap (λ k. dir_hash env m k r) (sym e))

  children-list :
      (pre : List FileRecordData) (r : FileRecordData) (rs : List FileRecordData)
      → IsListing env (pre ++ r ∷ rs)
      → records (each find (own_view r rs)) ≡ children_of env r (pre ++ r ∷ rs)
  children-list pre r rs h =
      each-children_of r rs (IsListing-suffix env pre (r ∷ rs) h)
      ∙ sym (children_of-suffix env pre r rs h.sorted)

  first_file-each :
      (r : FileRecordData) (rs : List FileRecordData)
      → IsListing env (r ∷ rs)
      → from_first_file env (own_view r rs) ≡ from_file (each find (own_view r rs))
  first_file-each r rs h = first_file-from_file find (own_view r rs) (begin-shorter r rs h)

  first_file-FileBelow :
      (r : FileRecordData) (rs : List FileRecordData)
      → IsListing env (r ∷ rs)
      → All (Below (length (r ∷ rs))) (each find (own_view r rs))
      → All (λ it. FileBelow env (length (r ∷ rs)) it.rest) (from_first_file env (own_view r rs))
  first_file-FileBelow r rs h b =
      subst (λ ff. All (λ it. FileBelow env (length (r ∷ rs)) it.rest) ff)
        (sym (first_file-each r rs h))
        (from_file-FileBelow (length (r ∷ rs)) (each find (own_view r rs))
          (subst FilesLast (sym (each-children_of r rs h))
            (children_of-FilesLast env r rs h.sorted.1))
          b)

  -- Each iterator of the loop, as far as the two lemmas above ask.
  each-bounds :
      (pre : List FileRecordData) (r : FileRecordData) (rs : List FileRecordData)
      → IsListing env (pre ++ r ∷ rs)
      → All
          (λ j.
            (Stands (pre ++ r ∷ rs) (length rs) j.rest × (j.level_offset ≡ 0))
            × (0 < length j.rest))
          (each find (own_view r rs))
  each-bounds pre r rs h =
      All-pair _ _ (each find (own_view r rs))
        (each-Stands (pre ++ r ∷ rs) r rs (IsListing-suffix env pre (r ∷ rs) h)
          ((pre ++ r ∷ [], sym (append_assoc pre (r ∷ []) rs)), omega arith))
        (visit-HasFront find (length (r ∷ rs)) (view_begin find (own_view r rs)))

  pub hash_dir-dir_hash : (fuel m : ℕ) → AgreesAt fuel m
  unfolding hash_dir dir_hash
  hash_dir-dir_hash zero m pre r rs s h f g = absurd (omega arith)
  hash_dir-dir_hash (suc fuel) zero pre r rs s h f g = absurd (omega arith)
  hash_dir-dir_hash (suc fuel) (suc m) pre r rs s h f g =
      let own : IsListing env (r ∷ rs) = IsListing-suffix env pre (r ∷ rs) h in
      let list = pre ++ r ∷ rs in
      let its = each find (own_view r rs) in
      let kids = children-list pre r rs h in
      let bounds = each-bounds pre r rs h in
      finished (length (r ∷ rs)) (make_blob env (hash_dir env fuel) its [] s)
        (from_first_file env (own_view r rs)) (children_of env r list)
        (pieces env (dir_hash env m list) (children_of env r list) [])
        (first_file-FileBelow r rs own
          (All-map _ (Below (length (r ∷ rs))) (λ it x. (x.1, omega (arith, x.0.0.1))) its bounds))
        (λ x.
          ap (λ ff. take_files env (records ff) x) (first_file-each r rs own)
          ∙ take_files-from_file its x
          ∙ ap (λ k. take_files env k x) kids)
        (blob-pieces env (hash_dir env fuel) (dir_hash env m list) its
            (All-map _ _
              (λ it x.
                Stands-Agrees fuel m (length rs) it.level_offset list it.rest h (omega arith)
                  (omega arith) (hash_dir-dir_hash fuel m) x)
              its bounds)
            [] s
          ∙ ap (λ k. pieces env (dir_hash env m list) k []) kids)

  pub on_data_fill-dir_hash :
      (r : FileRecordData) (rs : List FileRecordData) (fields : ℕ → Filled) (m : ℕ)
      → IsListing env (r ∷ rs)
      → r.is_directory ≡ true
      → length (r ∷ rs) ≤ m
      → dir_result (length (r ∷ rs)) (on_data_fill env (r ∷ rs) fields) ≡ dir_hash env m (r ∷ rs) r
  unfolding on_data_fill
  on_data_fill-dir_hash r rs fields m h d l =
      ap (λ (x : HashState × Bool). dir_result (length (r ∷ rs)) x) (if-true r.is_directory _ _ d)
      ∙ hash_dir-dir_hash (length (r ∷ rs)) m [] r rs _ h (omega arith) (omega arith)
