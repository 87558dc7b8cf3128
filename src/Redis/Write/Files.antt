-- ===== src/Redis/Write/Files.antt =====
-- What is stored of each file, and under which id.
use dindexer.Common.{
  ℕ, suc, arith, ◌+◌, ◌-◌, ◌≡◌, refl, ap, ap₂, sym, ◌∙◌, false, Option, some, none, List, [], ◌∷◌,
  ◌++◌, map, map-append, Bytes, codes, length, bytes_eq, if◌then◌else◌, append_assoc,
}
use dindexer.RecordData.{FileRecordData, rel_path}
use dindexer.Hashing.{tiger_to_string}
use dindexer.Redis.Write.{
  Indices, WriteCommand, hmset, sadd, zadd, file_fields, file_commands, write_files, set_fields,
  Stored, write_each,
}

abbrev pub field : Bytes → List (Bytes × Bytes) → Option Bytes
field name [] = none
field name ((n, v) ∷ fs) = if bytes_eq n name then some v else field name fs

-- A file as the server has it: its key, path, set and hash.
pub record FileEntry : Type 0 where
  pub key : Bytes
  pub path : Option Bytes
  pub group_id : Option Bytes
  pub hash : Option Bytes

-- The fields that are written under a key, if they have a path.
abbrev pub entry_of : Bytes → List (Bytes × Bytes) → Option Bytes → List FileEntry
entry_of k fs none = []
entry_of k fs (some p) =
    record {
      key = k;
      path = some p;
      group_id = field (codes "group_id") fs;
      hash = field (codes "hash") fs;
    }
    ∷ []

abbrev pub files_in : List WriteCommand → List FileEntry
files_in [] = []
files_in (hmset k fs ∷ cs) = entry_of k fs (field (codes "path") fs) ++ files_in cs
files_in (sadd k m ∷ cs) = files_in cs
files_in (zadd k s m ∷ cs) = files_in cs

-- The sets of hashes with their members.
abbrev pub hashes_in : List WriteCommand → List (Bytes × Bytes)
hashes_in [] = []
hashes_in (hmset k fs ∷ cs) = hashes_in cs
hashes_in (sadd k m ∷ cs) = (k, m) ∷ hashes_in cs
hashes_in (zadd k s m ∷ cs) = hashes_in cs

-- The sets of levels with their members and scores.
abbrev pub levels_in : List WriteCommand → List (Bytes × ℕ × Bytes)
levels_in [] = []
levels_in (hmset k fs ∷ cs) = levels_in cs
levels_in (sadd k m ∷ cs) = levels_in cs
levels_in (zadd k s m ∷ cs) = (k, s, m) ∷ levels_in cs

files_in-append : (cs ds : List WriteCommand) → files_in (cs ++ ds) ≡ files_in cs ++ files_in ds
files_in-append [] ds = refl
files_in-append (hmset k fs ∷ cs) ds =
    ap (λ l. entry_of k fs (field (codes "path") fs) ++ l) (files_in-append cs ds)
    ∙ sym (append_assoc (entry_of k fs (field (codes "path") fs)) (files_in cs) (files_in ds))
files_in-append (sadd k m ∷ cs) ds = files_in-append cs ds
files_in-append (zadd k s m ∷ cs) ds = files_in-append cs ds

hashes_in-append : (cs ds : List WriteCommand) → hashes_in (cs ++ ds) ≡ hashes_in cs ++ hashes_in ds
hashes_in-append [] ds = refl
hashes_in-append (hmset k fs ∷ cs) ds = hashes_in-append cs ds
hashes_in-append (sadd k m ∷ cs) ds = ap (λ l. (k, m) ∷ l) (hashes_in-append cs ds)
hashes_in-append (zadd k s m ∷ cs) ds = hashes_in-append cs ds

levels_in-append : (cs ds : List WriteCommand) → levels_in (cs ++ ds) ≡ levels_in cs ++ levels_in ds
levels_in-append [] ds = refl
levels_in-append (hmset k fs ∷ cs) ds = levels_in-append cs ds
levels_in-append (sadd k m ∷ cs) ds = levels_in-append cs ds
levels_in-append (zadd k s m ∷ cs) ds = ap (λ l. (k, s, m) ∷ l) (levels_in-append cs ds)

-- A file of a call, with the numbers that stand for it and for its set.
pub record Numbered : Type 0 where
  pub id : ℕ
  pub group : ℕ
  pub file : FileRecordData

abbrev pub numbered : ℕ → ℕ → List FileRecordData → List Numbered
numbered group id [] = []
numbered group id (r ∷ rs) =
    record { id = id; group = group; file = r } ∷ numbered group (suc id) rs

-- The files of calls one after the other: the calls and the files are counted on from two numbers.
abbrev pub all_numbered : ℕ → ℕ → List Stored → List Numbered
all_numbered group id [] = []
all_numbered group id (s ∷ ss) =
    numbered group id s.records ++ all_numbered (suc group) (id + length s.records) ss

module _ (text : ℕ → Bytes) where
  abbrev pub key_of : Numbered → Bytes
  key_of n = codes "dindexer:file:" ++ text n.id

  abbrev pub entry : Numbered → FileEntry
  entry n = record {
    key = key_of n;
    path = some (rel_path n.file);
    group_id = some (text n.group);
    hash = some (tiger_to_string n.file.hash false);
  }

  abbrev pub hash_member : Numbered → Bytes × Bytes
  hash_member n = (codes "dindexer:hash:" ++ tiger_to_string n.file.hash false, text n.id)

  abbrev pub level_member : Numbered → Bytes × ℕ × Bytes
  level_member n = (codes "dindexer:levels:" ++ text n.group, n.file.level, key_of n)

  files_in-file_commands :
      (group z : ℕ) (rs : List FileRecordData)
      → files_in (file_commands text (text group) z rs) ≡ map entry (numbered group z rs)
  unfolding file_commands file_fields bytes_eq
  files_in-file_commands group z [] = refl
  files_in-file_commands group z (r ∷ rs) =
      ap (λ l. entry (record { id = z; group = group; file = r }) ∷ l)
        (files_in-file_commands group (suc z) rs)

  hashes_in-file_commands :
      (group z : ℕ) (rs : List FileRecordData)
      → hashes_in (file_commands text (text group) z rs) ≡ map hash_member (numbered group z rs)
  unfolding file_commands
  hashes_in-file_commands group z [] = refl
  hashes_in-file_commands group z (r ∷ rs) =
      ap (λ l. hash_member (record { id = z; group = group; file = r }) ∷ l)
        (hashes_in-file_commands group (suc z) rs)

  levels_in-file_commands :
      (group z : ℕ) (rs : List FileRecordData)
      → levels_in (file_commands text (text group) z rs) ≡ map level_member (numbered group z rs)
  unfolding file_commands
  levels_in-file_commands group z [] = refl
  levels_in-file_commands group z (r ∷ rs) =
      ap (λ l. level_member (record { id = z; group = group; file = r }) ∷ l)
        (levels_in-file_commands group (suc z) rs)

  -- One observation of all calls, from its value for the commands of one call.
  module _ {A : Type 0} (observe : List WriteCommand → List A) (expected : Numbered → A)
      (observe-append : (cs ds : List WriteCommand) → observe (cs ++ ds) ≡ observe cs ++ observe ds)
      (observe-nil : observe [] ≡ [])
      (observe-set : (s : Stored) (set z : ℕ) (cs : List WriteCommand)
        → observe (
            hmset
              (codes "dindexer:set:" ++ text set)
              (set_fields text s.set_data s.records z s.now s.signature)
            ∷ cs)
          ≡ observe cs)
      (observe-files : (group z : ℕ) (rs : List FileRecordData)
        → observe (file_commands text (text group) z rs) ≡ map expected (numbered group z rs)) where
    observe-write_each :
        (ss : List Stored) (ix : Indices)
        → observe (write_each text ss ix)
          ≡ map expected (all_numbered (ix.set + 1) (ix.files + 1) ss)
    unfolding write_each write_files
    observe-write_each [] ix = observe-nil
    observe-write_each (s ∷ ss) ix =
        let count = length s.records in
        let ix' : Indices = record { set = ix.set + 1; files = ix.files + count } in
        let base = ix.files + count - count + 1 in
        let first : base ≡ ix.files + 1 = omega arith in
        let next : ix.files + count + 1 ≡ ix.files + 1 + count = omega arith in
        let group : ix.set + 1 + 1 ≡ suc (ix.set + 1) = omega arith in
        observe-append
          (hmset (codes "dindexer:set:" ++ text (ix.set + 1))
              (set_fields text s.set_data s.records base s.now s.signature)
            ∷ file_commands text (text (ix.set + 1)) base s.records)
          (write_each text ss ix')
        ∙ ap₂ (λ a b. a ++ b)
            (observe-set s (ix.set + 1) base (file_commands text (text (ix.set + 1)) base s.records)
              ∙ observe-files (ix.set + 1) base s.records
              ∙ ap (λ k. map expected (numbered (ix.set + 1) k s.records)) first)
            (observe-write_each ss ix' ∙ ap₂ (λ g k. map expected (all_numbered g k ss)) group next)
        ∙ sym (
            map-append expected (numbered (ix.set + 1) (ix.files + 1) s.records)
              (all_numbered (suc (ix.set + 1)) (ix.files + 1 + count) ss))

  -- Calls of `write_files` one after the other write each of their files under the key of its own
  -- number, with its path, its hash and the number of the call's set; put that number into the set
  -- of the file's hash; and put the key into the levels of the set with the file's level. The files
  -- and the calls are counted on from the numbers that are taken, without gap, and nothing else is
  -- written to these places.
  pub files_in-write_each :
      (ss : List Stored) (ix : Indices)
      → (files_in (write_each text ss ix) ≡ map entry (all_numbered (ix.set + 1) (ix.files + 1) ss))
        × (hashes_in (write_each text ss ix)
            ≡ map hash_member (all_numbered (ix.set + 1) (ix.files + 1) ss))
        × (levels_in (write_each text ss ix)
            ≡ map level_member (all_numbered (ix.set + 1) (ix.files + 1) ss))
  unfolding bytes_eq
  files_in-write_each ss ix = (
    observe-write_each files_in entry files_in-append refl (λ s set z cs. refl)
        files_in-file_commands ss ix,
    observe-write_each hashes_in hash_member hashes_in-append refl (λ s set z cs. refl)
        hashes_in-file_commands ss ix,
    observe-write_each levels_in level_member levels_in-append refl (λ s set z cs. refl)
        levels_in-file_commands ss ix,
  )
