-- ===== src/Scan/Hashing/Files.antt =====
-- The loops of hash_dir on given iterators: the blob of the children, and the files.
use dindexer.Common.{
  ℕ, ◌<◌, ◌≡◌, refl, sym, ◌∙◌, inl, inr, arith, Bool, true, false, Option, some, none, List, [],
  ◌∷◌, ◌++◌, Bytes, length, take, All, ◌==◌, ==_refl, if◌then◌else◌, Bool-cases,
}
use mathlib.Core.Option
use dindexer.RecordData.{FileRecordData, TigerHash, byte_data}
use dindexer.PathName.{PathName}
use dindexer.SetListing.{DirIterator, view_at}
use dindexer.SetListing.Children.{records}
use dindexer.Scan.Hashing.{
  FileRead, content, failure, unopened, HashState, Hasher, HashDir, append_entry, make_blob,
  read_into, hash_file, hash_files, finish, notify, basename_of,
}
use dindexer.Scan.Hashing.Reference.{piece, pieces, take_in, take_file, take_files}

-- The hash that a call leaves at an address, if it returned.
abbrev pub dir_result : ℕ → HashState × Bool → Option TigerHash
dir_result a (s, ok) = if ok then some (s.fields a).hash else none

abbrev pub blob_result : Bytes × HashState × Bool → Option Bytes
blob_result (b, s, ok) = if ok then some b else none

result-step :
    (e : Bytes × HashState × Bool) (p : Option Bytes)
    (more : Bytes → HashState → Bytes × HashState × Bool) (spec : Bytes → Option Bytes)
    (blob : Bytes)
    → blob_result e ≡ p
    → ((b : Bytes) (s : HashState) → blob_result (more b s) ≡ spec b)
    → blob_result (if e.2 then more (blob ++ e.0) e.1 else (blob, e.1, false))
      ≡ elim p [ none ↦ none | some b ↦ spec (blob ++ b) ]
result-step (b, s, true) p more spec blob h k = rw (← h) (k (blob ++ b) s)
result-step (b, s, false) p more spec blob h k = rw (← h) refl

file-step :
    (dir : ℕ) (e : HashState × Bool) (p : Option TigerHash) (more : HashState → HashState × Bool)
    (spec : TigerHash → Option TigerHash)
    → dir_result dir e ≡ p
    → ((s : HashState) → dir_result dir (more s) ≡ spec (s.fields dir).hash)
    → dir_result dir (if e.1 then more e.0 else e) ≡ elim p [ none ↦ none | some h ↦ spec h ]
file-step dir (s, true) p more spec h k = rw (← h) (k s)
file-step dir (s, false) p more spec h k = rw (← h) refl

entry_choice :
    (d : Bool) (inner : HashState × Bool) (a : ℕ) (name : Bytes) (s : HashState)
    (o : Option TigerHash)
    → (d ≡ true → dir_result a inner ≡ o)
    → blob_result (
        if d
        then (byte_data (inner.0.fields a).hash ++ name, inner.0, inner.1)
        else (name, s, true))
      ≡ (if d then Option.map (λ h. byte_data h ++ name) o else some name)
entry_choice true (t, true) a name s o h = rw (← h refl) refl
entry_choice true (t, false) a name s o h = rw (← h refl) refl
entry_choice false inner a name s o h = refl

if-false {ℓ} : {A : Type ℓ} (d : Bool) (x y : A) → d ≡ false → (if d then x else y) ≡ y
if-false true x y h = cc
if-false false x y h = refl

pub if-true {ℓ} : {A : Type ℓ} (d : Bool) (x y : A) → d ≡ true → (if d then x else y) ≡ x
if-true true x y h = refl
if-true false x y h = cc

module _ (env : Hasher) where
  open env use {find, files, ignore_errors}

  -- What a call for the directory in front leaves is its hash.
  abbrev pub Agrees :
      HashDir env → (FileRecordData → Option TigerHash) → List FileRecordData → ℕ → Type 0
  Agrees rec ref [] o = ⊥
  Agrees rec ref (r ∷ rs) o =
      (s : HashState)
      → r.is_directory ≡ true
      → dir_result (length (r ∷ rs)) (
          rec (length (r ∷ rs))
            (view_at find (record { rest = r ∷ rs; base_path = none; level_offset = o })) s)
        ≡ ref r

  entry-piece :
      (rec : HashDir env) (ref : FileRecordData → Option TigerHash)
      → (r : FileRecordData) (rs : List FileRecordData) (b : Option PathName) (o : ℕ)
        (s : HashState)
      → Agrees rec ref (r ∷ rs) o
      → blob_result
          (append_entry env rec (record { rest = r ∷ rs; base_path = b; level_offset = o }) s)
        ≡ piece env ref r
  unfolding append_entry view_at
  entry-piece rec ref r rs b o s h =
      entry_choice r.is_directory
        (rec (length (r ∷ rs))
          (view_at find (record { rest = r ∷ rs; base_path = b; level_offset = o })) s)
        (length (r ∷ rs)) (basename_of env r) s (ref r) (h s)

  pub blob-pieces :
      (rec : HashDir env) (ref : FileRecordData → Option TigerHash) (its : List DirIterator)
      → All (λ it. Agrees rec ref it.rest it.level_offset) its
      → (blob : Bytes) (s : HashState)
      → blob_result (make_blob env rec its blob s) ≡ pieces env ref (records its) blob
  unfolding make_blob
  blob-pieces rec ref [] a blob s = refl
  blob-pieces rec ref (it ∷ its) (a, as') blob s = go it.rest a (blob-pieces rec ref its as')
    where
      go :
          (rest : List FileRecordData)
          → Agrees rec ref rest it.level_offset
          → ((b : Bytes) (s : HashState)
              → blob_result (make_blob env rec its b s) ≡ pieces env ref (records its) b)
          → blob_result (
              make_blob env rec
                (record { rest = rest; base_path = it.base_path; level_offset = it.level_offset }
                  ∷ its)
                blob
                s)
            ≡ pieces env ref (take 1 rest ++ records its) blob
      go [] h k = absurd h
      go (r ∷ rs) h k =
          result-step _ (piece env ref r) (make_blob env rec its) (pieces env ref (records its))
            blob (entry-piece rec ref r rs it.base_path it.level_offset s h) k

  -- At the address of the directory, above that of the file.
  file-take_in :
      (dir : ℕ) (r : FileRecordData) (rs : List FileRecordData) (s : HashState)
      → length (r ∷ rs) < dir
      → dir_result dir (hash_file env dir (r ∷ rs) s)
        ≡ take_in env (files r.abs_path) (s.fields dir).hash
  unfolding hash_file read_into
  file-take_in dir r rs s h = go (files r.abs_path)
    where
      apart : (dir == length (r ∷ rs)) ≡ false
      apart = ground arith

      go :
          (f : FileRead)
          → dir_result dir (read_into env f dir (length (r ∷ rs)) (notify env r.abs_path s))
            ≡ take_in env f (s.fields dir).hash
      go (content c) = rw (apart, ==_refl dir) refl
      go (failure g) = elim (Bool-cases ignore_errors) [
        | inl y ↦ rw (y, apart) refl
        | inr n ↦ rw n refl
      ]
      go unopened = refl

  abbrev pub FileBelow : ℕ → List FileRecordData → Type 0
  FileBelow dir [] = ⊥
  FileBelow dir (r ∷ rs) = (r.is_directory ≡ false) × (length (r ∷ rs) < dir)

  pub files-take_files :
      (dir : ℕ) (its : List DirIterator) (s : HashState)
      → All (λ it. FileBelow dir it.rest) its
      → dir_result dir (hash_files env dir its s) ≡ take_files env (records its) (s.fields dir).hash
  unfolding hash_files
  files-take_files dir [] s a = refl
  files-take_files dir (it ∷ its) s (a, as') = go it.rest a (λ s. files-take_files dir its s as')
    where
      go :
          (rest : List FileRecordData)
          → FileBelow dir rest
          → ((s : HashState)
              → dir_result dir (hash_files env dir its s)
                ≡ take_files env (records its) (s.fields dir).hash)
          → dir_result dir (
              if (hash_file env dir rest s).1
              then hash_files env dir its (hash_file env dir rest s).0
              else hash_file env dir rest s)
            ≡ take_files env (take 1 rest ++ records its) (s.fields dir).hash
      go [] h k = absurd h
      go (r ∷ rs) (f, l) k =
          file-step dir (hash_file env dir (r ∷ rs) s) (take_file env r (s.fields dir).hash)
            (hash_files env dir its) (take_files env (records its))
            (file-take_in dir r rs s l ∙ sym (if-false r.is_directory _ _ f)) k

  pub dir_result-finish :
      (dir : ℕ) (r : HashState × Bool) → dir_result dir (finish env dir r) ≡ dir_result dir r
  dir_result-finish dir (s, true) = rw (==_refl dir) refl
  dir_result-finish dir (s, false) = refl
