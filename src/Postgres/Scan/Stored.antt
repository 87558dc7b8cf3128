-- ===== src/Postgres/Scan/Stored.antt =====
-- What is stored is sound SQL, and is read back as it was.
use dindexer.Common.{
  ◌<◌, ℕ, ◌≡◌, ◌≢◌, refl, ap, ◌∙◌, inl, inr, arith, Bool, true, false, not, ◌||◌, Option, some,
  List, [], ◌∷◌, Bytes, codes, length, drop, map, All, All-append, ◌==◌, if◌then◌else◌, bytes_eq,
  Bool-cases,
}
use dindexer.Common.{ltb, ◌^◌, ◌⊎◌, bytes_eq→eq}
use dindexer.RecordData.{FileRecordData, TigerHash, rel_path}
use dindexer.Scan.Lazy.{SetRecordDataFull}
use dindexer.Postgres.{Param, text, number, flag, Query}
use dindexer.Postgres.Prepared.{is_prepared, is_typed}
use dindexer.Postgres.Locate.{Record}
use dindexer.Postgres.Scan.{
  stored_path, slash_text, file_query, write_to_db, read_path, cast_below, read_item,
}

abbrev pub IsSound : Query → Type 0
IsSound q = (is_prepared q ≡ true) × (is_typed q ≡ true)

file_query-IsSound : (id : ℕ) (rs : List FileRecordData) → All IsSound (map (file_query id) rs)
unfolding is_prepared is_typed file_query
file_query-IsSound id [] = tt
file_query-IsSound id (r ∷ rs) = ((refl, refl), file_query-IsSound id rs)

-- Storing
pub write_to_db-IsSound :
    (id : ℕ) (rs : List FileRecordData) (set : SetRecordDataFull) (signature : Bytes)
    → All IsSound (write_to_db id rs set signature)
unfolding is_prepared is_typed write_to_db
write_to_db-IsSound id [] set signature = tt
write_to_db-IsSound id (r ∷ rs) set signature = (
  (refl, refl),
  (
    (refl, refl),
    All-append IsSound (map (file_query id) (r ∷ rs)) _ (file_query-IsSound id (r ∷ rs))
        ((refl, refl), tt),
  ),
)

abbrev stored_text : Bytes → Bytes
stored_text p = if length p == 0 then slash_text else p

-- The column names of an INSERT: the parts between commas of what stands in the first parentheses,
-- without the space in front.
abbrev trimmed : Bytes → Bytes
trimmed [] = []
trimmed (c ∷ s) = if c == b' ' then s else c ∷ s

abbrev in_front : ℕ → List Bytes → List Bytes
in_front c [] = (c ∷ []) ∷ []
in_front c (n ∷ ns) = (c ∷ n) ∷ ns

unfoldable pub names_until : Bytes → List Bytes
names_until [] = [] ∷ []
names_until (c ∷ s) = elim (c == b')') [
  | true ↦ [] ∷ []
  | false ↦ elim (c == b',') [ true ↦ [] ∷ names_until s | false ↦ in_front c (names_until s) ]
]

unfoldable pub column_names : Bytes → List Bytes
unfolding names_until
column_names [] = []
column_names (c ∷ s) = elim (c == b'(') [
  | true ↦ map trimmed (names_until s)
  | false ↦ column_names s
]

-- The server's text of a value.
abbrev pub shown : (ℕ → Bytes) → Param → Bytes
shown print (text s) = s
shown print (number n) = print n
shown print (flag true) = codes "t"
shown print (flag false) = codes "f"
shown print _ = []

unfoldable pub value_of : (ℕ → Bytes) → List Bytes → List Param → Record
unfolding bytes_eq
value_of print [] ps column = []
value_of print (n ∷ ns) [] column = []
value_of print (n ∷ ns) (p ∷ ps) column = elim (bytes_eq n column) [
  | true ↦ shown print p
  | false ↦ value_of print ns ps column
]

-- The row that an INSERT leaves: each parameter in the column that stands at its place.
unfoldable pub inserted_row : (ℕ → Bytes) → Query → Record
unfolding column_names value_of
inserted_row print q = value_of print (column_names q.sql) q.params

-- What `read_item` takes from the server.
abbrev pub SameEntry : FileRecordData → FileRecordData → Type 0
SameEntry a b =
    (rel_path a ≡ rel_path b)
    × (a.level ≡ b.level)
    × (a.size ≡ b.size)
    × (a.is_directory ≡ b.is_directory)
    × (a.is_symlink ≡ b.is_symlink)

module _ (lexical_cast : Bytes → Option ℕ) where
  read-stored : (p : Bytes) → p ≢ slash_text → drop 1 (read_path lexical_cast (stored_text p)) ≡ p
  unfolding bytes_eq
  read-stored [] h = refl
  read-stored (c ∷ s) h =
      let some_ : (length (c ∷ s) == 0) ≡ false = ground arith in
      let other : bytes_eq (c ∷ s) slash_text ≡ false =
        differs (Bool-cases (bytes_eq (c ∷ s) slash_text)) in
      rw (some_, other, or-true (not (length (c ∷ s) == 1))) refl
    where
      or-true : (b : Bool) → (b || true) ≡ true
      or-true true = refl
      or-true false = refl

      differs :
          (bytes_eq (c ∷ s) slash_text ≡ true) ⊎ (bytes_eq (c ∷ s) slash_text ≡ false)
          → bytes_eq (c ∷ s) slash_text ≡ false
      differs (inl e) = absurd (h (bytes_eq→eq (c ∷ s) slash_text e))
      differs (inr e) = e

  cast_below-print :
      (print : ℕ → Bytes) (n limit : ℕ)
      → lexical_cast (print n) ≡ some n
      → n < limit
      → cast_below lexical_cast limit (print n) ≡ some n
  cast_below-print print n limit e l =
      let small : ltb n limit ≡ true = ground arith in rw (e, small) refl

  is_t : (print : ℕ → Bytes) (b : Bool) → bytes_eq (shown print (flag b)) (codes "t") ≡ b
  unfolding bytes_eq
  is_t print true = refl
  is_t print false = refl

  -- The columns of a stored record.
  stored_row :
      (print : ℕ → Bytes) (id : ℕ) (r : FileRecordData)
      → (inserted_row print (file_query id r) (codes "path") ≡ stored_path r)
        × (inserted_row print (file_query id r) (codes "is_directory")
            ≡ shown print (flag r.is_directory))
        × (inserted_row print (file_query id r) (codes "is_symlink")
            ≡ shown print (flag r.is_symlink))
        × (inserted_row print (file_query id r) (codes "level") ≡ print r.level)
        × (inserted_row print (file_query id r) (codes "size") ≡ print r.size)
        × (inserted_row print (file_query id r) (codes "group_id") ≡ print id)
  unfolding inserted_row file_query
  stored_row print id r = (refl, refl, refl, refl, refl, refl)

  -- The row that the query of a stored record leaves, each parameter in the column that the text
  -- names at its place, is read back to the relative path, the level, the size and the kind of the
  -- record, and the id of its set, with the hash that was asked for. The path is not a slash,
  -- level, size and id fit in their types, and a number is read back from the server's text of it.
  pub read_item-inserted_row :
      (print : ℕ → Bytes) (id : ℕ) (r item : FileRecordData) (hash : TigerHash)
      → ((n : ℕ) → lexical_cast (print n) ≡ some n)
      → rel_path r ≢ slash_text
      → r.level < 2 ^ 16
      → r.size < 2 ^ 64
      → id < 2 ^ 32
      → (q : FileRecordData) × (read_item lexical_cast
            (inserted_row print (file_query id r))
            hash
            item
          ≡ some (q, id))
        × (q.hash ≡ hash)
        × SameEntry q r
  unfolding read_item
  read_item-inserted_row print id r item hash cast n l m i =
      let row = inserted_row print (file_query id r) in
      let columns = stored_row print id r in
      (
        record item {
          abs_path = read_path lexical_cast (row (codes "path"));
          hash = hash;
          level = r.level;
          size = r.size;
          is_directory = bytes_eq (row (codes "is_directory")) (codes "t");
          is_symlink = bytes_eq (row (codes "is_symlink")) (codes "t");
          path_offset = 1;
        },
        rw (level_text, size_text, group_text) refl,
        refl,
        (
          ap (λ p. drop 1 (read_path lexical_cast p)) columns.0 ∙ read-stored (rel_path r) n,
          refl,
          refl,
          ap (λ t. bytes_eq t (codes "t")) columns.1 ∙ is_t print r.is_directory,
          ap (λ t. bytes_eq t (codes "t")) columns.2 ∙ is_t print r.is_symlink,
        ),
      )
    where
      level_text :
          cast_below lexical_cast (2 ^ 16) (inserted_row print (file_query id r) (codes "level"))
          ≡ some r.level
      level_text =
          ap (λ t. cast_below lexical_cast (2 ^ 16) t) (stored_row print id r).3
          ∙ cast_below-print print r.level (2 ^ 16) (cast r.level) l

      size_text :
          cast_below lexical_cast (2 ^ 64) (inserted_row print (file_query id r) (codes "size"))
          ≡ some r.size
      size_text =
          ap (λ t. cast_below lexical_cast (2 ^ 64) t) (stored_row print id r).4
          ∙ cast_below-print print r.size (2 ^ 64) (cast r.size) m

      group_text :
          cast_below lexical_cast (2 ^ 32) (inserted_row print (file_query id r) (codes "group_id"))
          ≡ some id
      group_text =
          ap (λ t. cast_below lexical_cast (2 ^ 32) t) (stored_row print id r).5
          ∙ cast_below-print print id (2 ^ 32) (cast id) i
