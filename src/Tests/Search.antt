-- ===== src/Tests/Search.antt =====
-- The searches in the index at concrete inputs.
use dindexer.Common.{
  ℕ, ◌≡◌, refl, ap, Option, some, none, List, [], ◌∷◌, map, Bytes, codes, last?, bytes_eq,
  if◌then◌else◌, pieces, true,
}
use dindexer.Redis.Find.{
  Row, and_then, id_of_key, locate_in_bursts, store_filtered_items, construct_item, matches,
}
use dindexer.Redis.Find.Bursts.{ids_of, locate_in_bursts-store_filtered_items}
use dindexer.Redis.Find.Files.{IndexedFile}
use dindexer.Tests.Boost.{splitter, split_texts-splitter, trim_text, lead, kept}

abbrev file_four : IndexedFile
file_four = record {
  key = codes "dindexer:file:4";
  id_text = codes "4";
  group_text = codes "2";
  taglist = codes "live";
  found = record { path = codes "a/b"; id = 4; group_id = 2 };
}

abbrev number : Bytes → Option ℕ
number s =
    if bytes_eq s (codes "4") then some 4 else if bytes_eq s (codes "2") then some 2 else none

abbrev fields_of : Bytes → Row
fields_of key = record {
  first = some (codes "a/b");
  second = some (codes "2");
  third = some (codes "live");
}

id_of_four : id_of_key splitter (codes "dindexer:file:4") ≡ some (codes "4")
unfolding id_of_key pieces trim_text lead kept
id_of_four = ap last? (split_texts-splitter (codes "dindexer:file:4") b':')

number_four : number (codes "4") ≡ some 4
unfolding bytes_eq
number_four = refl

number_two : number (codes "2") ≡ some 2
unfolding bytes_eq
number_two = refl

locate_in_bursts-store_filtered_items_example :
    locate_in_bursts
      (matches splitter (λ path. true) [])
      (construct_item number)
      fields_of
      (id_of_key splitter)
      (codes "dindexer:file:4" ∷ [])
    ≡ and_then (ids_of (id_of_key splitter) (codes "dindexer:file:4" ∷ [])) (λ ids.
      store_filtered_items
        (matches splitter (λ path. true) [])
        (construct_item number)
        (map fields_of (codes "dindexer:file:4" ∷ []))
        ids)
locate_in_bursts-store_filtered_items_example =
    locate_in_bursts-store_filtered_items (matches splitter (λ path. true) [])
      (construct_item number) fields_of (id_of_key splitter) (codes "dindexer:file:4" ∷ [])

abbrev upper : ℕ → ℕ
upper c = if bytes_eq (c ∷ []) (codes "a") then b'A' else c

abbrev level_two : ℕ → ℕ → Option (List (Option Bytes))
level_two set lev = some (some (codes "dindexer:file:4") ∷ none ∷ [])

abbrev path_of : Bytes → Option Bytes
path_of key = some (codes "a/b")
