-- ===== src/Redis/Tag.antt =====
-- src/backends/redis/tag.cpp: which scripts are run to tag files and to delete tags. The answers of the
-- server and the matches of regular expressions are parameters.
pub mod Runs
use dindexer.Common.{
  ℕ, ◌≡◌, Bool, true, false, not, ◌&&◌, ◌||◌, Option, some, none, List, [], ◌∷◌, ◌++◌, map, Bytes,
  slice, ◌==◌, bytes_eq, if◌then◌else◌,
}
use mathlib.Core.Option
use dindexer.Boost.{Splitter}
use dindexer.Split

-- A run of a script, on the keys of a tag and a file and the id of a set.
pub record ScriptRun : Type 0 where
  pub tag : Bytes
  pub file_id : ℕ
  pub set : ℕ

abbrev pub tag_runs : ℕ → List Bytes → ℕ → List ScriptRun
tag_runs id [] set = []
tag_runs id (t ∷ ts) set = record { tag = t; file_id = id; set = set } ∷ tag_runs id ts set

unfoldable pub run_id_based_script : List ℕ → List Bytes → ℕ → List ScriptRun
run_id_based_script [] tags set = []
run_id_based_script (id ∷ ids) tags set = tag_runs id tags set ++ run_id_based_script ids tags set

-- The reply for a file key that the scan finds. Every file has a group, as write_files stores it; without one
-- the source reads from an empty optional.
pub record ScannedFile : Type 0 where
  pub id : ℕ
  pub path : Option Bytes
  pub tags : Option Bytes
  pub group_id : ℕ

-- The elements of a `std::unordered_set`, in the order of their insertion.
unfoldable pub insert_tag : List Bytes → Bytes → List Bytes
insert_tag [] t = t ∷ []
insert_tag (u ∷ us) t = let rest = u ∷ insert_tag us t in if bytes_eq u t then u ∷ us else rest

pub insert_tags : List Bytes → List Bytes → List Bytes
unfolding insert_tag
insert_tags set [] = set
insert_tags set (t ∷ ts) = insert_tags (insert_tag set t) ts

abbrev pub invalid_group_id : ℕ
invalid_group_id = 0

-- `boost::regex_search` of a path for an expression.
abbrev pub RegexSearch : Type 0
RegexSearch = Bytes → Bytes → Bool

-- The loop over the expressions: whether one of them is found.
pub any_regex : RegexSearch → Bytes → List Bytes → Bool
any_regex search path [] = false
any_regex search path (r ∷ rs) =
    let rest = any_regex search path rs in if not (search path r) then rest else true

abbrev pub path_matches : RegexSearch → List Bytes → Option Bytes → Bool
path_matches search regexes none = false
path_matches search regexes (some p) = any_regex search p regexes

unfoldable pub run_regex_based_script :
    RegexSearch → List ScannedFile → List Bytes → List Bytes → ℕ → List ScriptRun
unfolding any_regex
run_regex_based_script search [] regexes tags set = []
run_regex_based_script search (f ∷ fs) regexes tags set =
    let rest = run_regex_based_script search fs regexes tags set in
    (if path_matches search regexes f.path then tag_runs f.id tags set else []) ++ rest

module _ (boost : Splitter) where
  abbrev pub tag_texts : Bytes → List Bytes
  tag_texts s = Split.split_texts boost s b',' true true

  -- The tags of all files, from the reply for each of them.
  pub collect_tags : (ℕ → Bytes) → List ℕ → List Bytes → List Bytes
  unfolding insert_tags
  collect_tags replies [] set = set
  collect_tags replies (id ∷ ids) set =
      collect_tags replies ids (insert_tags set (tag_texts (replies id)))

  pub delete_all_tags : (ℕ → Bytes) → List ℕ → ℕ → List ScriptRun
  unfolding collect_tags run_id_based_script
  delete_all_tags replies ids set = run_id_based_script ids (collect_tags replies ids []) set

  -- `(file_replies[1] ? std::string() : *file_replies[1])`; without a reply an empty optional is read.
  abbrev pub tags_str : Option Bytes → Option Bytes
  tags_str (some t) = some []
  tags_str none = none

  -- The path and the tags of a file, if neither is read from an empty optional.
  abbrev pub fields : Option Bytes → Option Bytes → Option (Bytes × Bytes)
  fields (some p) tags = Option.map (λ s. (p, s)) (tags_str tags)
  fields none tags = none

  abbrev pub with_fields :
      Option (Bytes × Bytes)
      → (Bytes → Bytes → Option (List Bytes × List ℕ))
      → Option (List Bytes × List ℕ)
  with_fields none k = none
  with_fields (some (p, s)) k = k p s

  -- What one file adds to the tags and the ids.
  abbrev pub matched : Bool → ℕ → List Bytes → List Bytes × List ℕ → List Bytes × List ℕ
  matched true id tags (dele_tags, ids) = (insert_tags dele_tags tags, ids ++ id ∷ [])
  matched false id tags r = r

  -- The loop over the files that the scan finds; `none` stands for the read of an empty optional.
  pub scan_tags :
      RegexSearch
      → List ScannedFile
      → List Bytes
      → ℕ
      → List Bytes × List ℕ
      → Option (List Bytes × List ℕ)
  unfolding any_regex insert_tags
  scan_tags search [] regexes set r = some r
  scan_tags search (f ∷ fs) regexes set r =
      let other_group = scan_tags search fs regexes set r in
      if not (set == invalid_group_id) && not (set == f.group_id)
      then other_group
      else with_fields (fields f.path f.tags) (λ p s.
        scan_tags search fs regexes set (matched (any_regex search p regexes) f.id (tag_texts s) r))

  abbrev pub runs_of : ℕ → Option (List Bytes × List ℕ) → Option (List ScriptRun)
  runs_of set none = none
  runs_of set (some (tags, ids)) = some (run_id_based_script ids tags set)

  pub delete_all_tags_by_regex :
      RegexSearch → List ScannedFile → List Bytes → ℕ → Option (List ScriptRun)
  unfolding scan_tags run_id_based_script
  delete_all_tags_by_regex search files regexes set =
      runs_of set (scan_tags search files regexes set ([], []))
