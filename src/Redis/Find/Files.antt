-- ===== src/Redis/Find/Files.antt =====
-- Which files are found, when the index is complete.
use dindexer.Common.{
  ℕ, ◌≡◌, refl, ap, ap₂, ◌∙◌, Bool, true, false, ◌&&◌, Option, some, List, [], ◌∷◌, map, Bytes, All,
  if◌then◌else◌,
}
use dindexer.Boost.{Splitter}
use dindexer.Redis.Find.{
  Row, and_then, add_item, store_filtered_items, LocatedItem, all_tags_match, id_of_key,
  construct_item, tags_asked, matches, locate_in_db,
}
use dindexer.Redis.Find.Bursts.{ids_of, locate_in_bursts-store_filtered_items}

-- A file as the server has it.
pub record IndexedFile : Type 0 where
  pub key : Bytes
  pub id_text : Bytes
  pub group_text : Bytes
  pub taglist : Bytes
  pub found : LocatedItem

module _ (boost : Splitter) (lexical_cast : Bytes → Option ℕ) (hmget : Bytes → Row) where
  abbrev pub row_of : IndexedFile → Row
  row_of f = record {
    first = some f.found.path;
    second = some f.group_text;
    third = some f.taglist;
  }

  -- The server has the fields of the file, and its key and its group are numbers.
  abbrev pub IsIndexed : IndexedFile → Type 0
  IsIndexed f =
      (hmget f.key ≡ row_of f)
      × (id_of_key boost f.key ≡ some f.id_text)
      × (lexical_cast f.id_text ≡ some f.found.id)
      × (lexical_cast f.group_text ≡ some f.found.group_id)

  -- No tag is asked for, or the file has them all.
  abbrev pub has_all : List Bytes → IndexedFile → Bool
  has_all [] f = true
  has_all (t ∷ ts) f = all_tags_match boost (t ∷ ts) f.taglist

  abbrev pub selected : (Bytes → Bool) → List Bytes → IndexedFile → Bool
  selected regex_search tags f = has_all tags f && regex_search f.found.path

  -- The files that are selected, in order.
  abbrev pub select : (Bytes → Bool) → List Bytes → List IndexedFile → List LocatedItem
  select regex_search tags [] = []
  select regex_search tags (f ∷ fs) =
      let rest = select regex_search tags fs in
      if selected regex_search tags f then f.found ∷ rest else rest

  tags_asked-has_all :
      (tags : List Bytes) (f : IndexedFile)
      → tags_asked boost tags (row_of f) ≡ some (has_all tags f)
  unfolding tags_asked
  tags_asked-has_all [] f = refl
  tags_asked-has_all (t ∷ ts) f = refl

  matches-selected :
      (regex_search : Bytes → Bool) (tags : List Bytes) (f : IndexedFile) (id : Bytes)
      → matches boost regex_search tags (row_of f) id ≡ some (selected regex_search tags f)
  unfolding matches
  matches-selected regex_search tags f id =
      rw (tags_asked-has_all tags f) (decided (has_all tags f))
    where
      decided :
          (b : Bool)
          → (if b then some (regex_search f.found.path) else some false)
            ≡ some (b && regex_search f.found.path)
      decided true = refl
      decided false = refl

  construct_item-found :
      (f : IndexedFile)
      → IsIndexed f
      → construct_item lexical_cast (row_of f) f.id_text ≡ some f.found
  unfolding construct_item
  construct_item-found f (_, _, i, g) = rw (i, g) refl

  ids_of-id_text :
      (fs : List IndexedFile)
      → All IsIndexed fs
      → ids_of (id_of_key boost) (map (λ f. f.key) fs) ≡ some (map (λ f. f.id_text) fs)
  ids_of-id_text [] h = refl
  ids_of-id_text (f ∷ fs) ((_, i, _, _), h) = rw (i, ids_of-id_text fs h) refl

  one_item :
      (b : Bool) (t : LocatedItem) (ts : List LocatedItem) (p : Row → Bytes → Option Bool)
      (c : Row → Bytes → Option LocatedItem)
      → add_item p c (some b) (some t) (some ts) ≡ some (if b then t ∷ ts else ts)
  one_item true t ts p c = refl
  one_item false t ts p c = refl

  store-select :
      (regex_search : Bytes → Bool) (tags : List Bytes) (fs : List IndexedFile)
      → All IsIndexed fs
      → store_filtered_items
          (matches boost regex_search tags)
          (construct_item lexical_cast)
          (map hmget (map (λ f. f.key) fs))
          (map (λ f. f.id_text) fs)
        ≡ some (select regex_search tags fs)
  unfolding store_filtered_items
  store-select regex_search tags [] h = refl
  store-select regex_search tags (f ∷ fs) (hf, h) =
      ap₂
        (λ r rest.
          add_item (matches boost regex_search tags) (construct_item lexical_cast)
            (matches boost regex_search tags r f.id_text) (construct_item lexical_cast r f.id_text)
            rest)
        hf.0 (store-select regex_search tags fs h)
      ∙ ap₂
          (λ m c.
            add_item (matches boost regex_search tags) (construct_item lexical_cast) m c
              (some (select regex_search tags fs)))
          (matches-selected regex_search tags f f.id_text) (construct_item-found f hf)
      ∙ one_item (selected regex_search tags f) f.found (select regex_search tags fs)
          (matches boost regex_search tags) (construct_item lexical_cast)

  -- Looking for files by their path finds exactly those whose path the expression is found in, and
  -- that have all tags asked for, in the order of the keys, if the server has the fields of each of
  -- them and their ids and groups are numbers.
  pub locate_in_db-select :
      (regex_search : Bytes → Bool) (tags : List Bytes) (fs : List IndexedFile)
      → All IsIndexed fs
      → locate_in_db boost lexical_cast hmget (map (λ f. f.key) fs) regex_search tags
        ≡ some (select regex_search tags fs)
  unfolding locate_in_db
  locate_in_db-select regex_search tags fs h =
      locate_in_bursts-store_filtered_items (matches boost regex_search tags)
        (construct_item lexical_cast) hmget (id_of_key boost) (map (λ f. f.key) fs)
      ∙ ap
          (λ o. and_then o (λ ids.
            store_filtered_items (matches boost regex_search tags) (construct_item lexical_cast)
              (map hmget (map (λ f. f.key) fs)) ids))
          (ids_of-id_text fs h)
      ∙ store-select regex_search tags fs h
