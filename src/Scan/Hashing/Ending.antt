-- ===== src/Scan/Hashing/Ending.antt =====
-- Hashing ends without an exception.
use dindexer.Common.{
  ℕ, zero, suc, ◌≤◌, ◌<◌, ◌≡◌, refl, sym, subst, ap, ◌∙◌, inl, inr, arith, Bool, true, false,
  Option, some, none, List, [], ◌∷◌, ◌++◌, Bytes, length, All, All-map, All-append_right,
  if◌then◌else◌, Bool-cases, append_assoc,
}
use mathlib.Core.Option
use dindexer.RecordData.{FileRecordData, TigerHash, byte_data}
use dindexer.SetListing.Order.{IsSorted}
use dindexer.Scan.Hashing.{
  FileRead, content, failure, unopened, Hasher, Filled, basename_of, on_data_fill,
}
use dindexer.Scan.Hashing.Reference.{
  is_child, children_of, piece, pieces, take_in, take_file, take_files, dir_hash,
}
use dindexer.Scan.Hashing.Children.{IsListing, children_of-suffix}
use dindexer.Scan.Hashing.Agreement.{on_data_fill-dir_hash}

abbrev Given {ℓ} : {A : Type ℓ} → Option A → Type 0
Given none = ⊥
Given (some a) = Unit

named :
    (d : Bool) (o : Option TigerHash) (f : TigerHash → Bytes) (name : Bytes)
    → Given o
    → Given (if d then Option.map f o else some name)
named true none f name g = g
named true (some h) f name g = tt
named false o f name g = tt

then-Given :
    {A : Type 0} (o : Option A) (f : A → Option TigerHash)
    → Given o
    → ((a : A) → Given (f a))
    → Given (elim o [ none ↦ none | some a ↦ f a ])
then-Given none f g k = g
then-Given (some a) f g k = k a

if-Given : (ok : Bool) (h : TigerHash) → Given (if ok then some h else none) → ok ≡ true
if-Given true h g = refl
if-Given false h g = absurd g

module _ (env : Hasher) where
  open env use {files, ignore_errors}

  -- The file of the record can be opened, and it can be read, or errors are ignored.
  abbrev pub IsReadable : FileRead → Type 0
  IsReadable (content c) = Unit {0}
  IsReadable (failure g) = ignore_errors ≡ true
  IsReadable unopened = ⊥

  abbrev pub Survives : FileRecordData → Type 0
  Survives r = IsReadable (files r.abs_path)

  take_in-Given : (f : FileRead) (h : TigerHash) → IsReadable f → Given (take_in env f h)
  take_in-Given (content c) h a = tt
  take_in-Given (failure g) h a = rw a tt
  take_in-Given unopened h a = absurd a

  take_file-Given : (r : FileRecordData) (h : TigerHash) → Survives r → Given (take_file env r h)
  take_file-Given r h a = go r.is_directory
    where
      go : (d : Bool) → Given (if d then some h else take_in env (files r.abs_path) h)
      go true = tt
      go false = take_in-Given (files r.abs_path) h a

  take_files-Given :
      (rs : List FileRecordData) (h : TigerHash) → All Survives rs → Given (take_files env rs h)
  take_files-Given [] h a = tt
  take_files-Given (r ∷ rs) h (a, as') =
      go (take_file env r h) (take_file-Given r h a) (λ g. take_files-Given rs g as')
    where
      go :
          (o : Option TigerHash)
          → Given o
          → ((g : TigerHash) → Given (take_files env rs g))
          → Given (elim o [ none ↦ none | some g ↦ take_files env rs g ])
      go none n k = n
      go (some g) n k = k g

  pieces-Given :
      (rec : FileRecordData → Option TigerHash) (rs : List FileRecordData) (blob : Bytes)
      → All (λ r. Given (rec r)) rs
      → Given (pieces env rec rs blob)
  pieces-Given rec [] blob a = tt
  pieces-Given rec (r ∷ rs) blob (a, as') =
      go (piece env rec r)
        (named r.is_directory (rec r) (λ h. byte_data h ++ basename_of env r) (basename_of env r) a)
        (λ b. pieces-Given rec rs b as')
    where
      go :
          (o : Option Bytes)
          → Given o
          → ((b : Bytes) → Given (pieces env rec rs b))
          → Given (elim o [ none ↦ none | some b ↦ pieces env rec rs (blob ++ b) ])
      go none n k = n
      go (some b) n k = k (blob ++ b)

  -- Where a child stands: behind its directory.
  abbrev Behind : List FileRecordData → ℕ → FileRecordData → Type 0
  Behind list n k =
      (pre : List FileRecordData) × (rs : List FileRecordData) × (list ≡ pre ++ k ∷ rs)
      × (length rs < n)

  children_of-Behind :
      (list pre : List FileRecordData) (d : FileRecordData) (rs : List FileRecordData) (n : ℕ)
      → list ≡ pre ++ rs
      → length rs ≤ n
      → All Survives rs
      → All (λ k. Behind list n k × Survives k) (children_of env d rs)
  unfolding children_of
  children_of-Behind list pre d [] n e l s = tt
  children_of-Behind list pre d (r ∷ rs) n e l (s, ss) =
      let rest =
        children_of-Behind list (pre ++ r ∷ []) d rs n (e ∙ sym (append_assoc pre (r ∷ []) rs))
          (omega arith) ss in
      elim (Bool-cases (is_child env d r)) [
        | inl y ↦ rw y (((pre, rs, e, omega arith), s), rest)
        | inr c ↦ rw c rest
      ]

  dir_hash-Given :
      (m : ℕ) (list pre : List FileRecordData) (r : FileRecordData) (rs : List FileRecordData)
      → IsListing env list
      → All Survives list
      → list ≡ pre ++ r ∷ rs
      → length rs < m
      → Given (dir_hash env m list r)
  unfolding dir_hash
  dir_hash-Given zero list pre r rs h a e l = absurd (omega arith)
  dir_hash-Given (suc m) list pre r rs h a e l =
      let kids : children_of env r list ≡ children_of env r rs =
        ap (λ k. children_of env r k) e
        ∙ children_of-suffix env pre r rs (subst (λ k. IsSorted k) e h.sorted) in
      let behind : All (λ k. Behind list (length rs) k × Survives k) (children_of env r list) =
        subst (λ k. All (λ k. Behind list (length rs) k × Survives k) k) (sym kids)
          (children_of-Behind list (pre ++ r ∷ []) r rs (length rs)
            (e ∙ sym (append_assoc pre (r ∷ []) rs)) (omega arith)
            (All-append_right Survives pre (r ∷ rs) (subst (λ k. All Survives k) e a)).1) in
      then-Given (pieces env (dir_hash env m list) (children_of env r list) []) _
        (pieces-Given (dir_hash env m list) (children_of env r list) [] (
          All-map _ _ (λ k x. dir_hash-Given m list x.0.0 k x.0.1 h a x.0.2 (omega (arith, x.0.3)))
            (children_of env r list) behind))
        (λ b.
          take_files-Given (children_of env r list) _
            (All-map _ _ (λ k x. x.1) (children_of env r list) behind))

  -- If every file can be opened, and errors are ignored or every file can be read, hashing the
  -- sorted list of a directory, where each level is the depth of the path and only the first record
  -- has level 0, ends without an exception.
  pub on_data_fill-ends :
      (r : FileRecordData) (rs : List FileRecordData) (fields : ℕ → Filled)
      → IsListing env (r ∷ rs)
      → r.is_directory ≡ true
      → All Survives (r ∷ rs)
      → (on_data_fill env (r ∷ rs) fields).1 ≡ true
  on_data_fill-ends r rs fields h d a = if-Given (on_data_fill env (r ∷ rs) fields).1 _ (
      subst (λ (o : Option TigerHash). Given o)
        (sym (on_data_fill-dir_hash env r rs fields (length (r ∷ rs)) h d (omega arith)))
        (dir_hash-Given (length (r ∷ rs)) (r ∷ rs) [] r rs h a refl (omega arith)))
