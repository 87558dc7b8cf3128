-- ===== src/Redis/Keys/AnySet.antt =====
-- What tagging and untagging files in any set does to the keys.
use dindexer.Common.{
  ℕ, ◌≡◌, ◌≢◌, refl, inl, inr, ap, Bool, true, false, Option, some, none, List, [], ◌∷◌, Bytes, All,
  All-append, bytes_eq, bytes_eq→eq, Bool-cases, if◌then◌else◌,
}
use dindexer.Redis.Tag.{
  ScriptRun, RegexSearch, ScannedFile, tag_runs, invalid_group_id, run_id_based_script,
  run_regex_based_script, path_matches,
}
use dindexer.Redis.Keys.{
  TableSort, KeySpace, other_group, tag_if_in_set, dele_tag_if_in_set, run_file_key, run_tagging,
  run_untagging,
}

module _ (text : ℕ → Bytes) where
  -- No file belongs to the set whose id stands for any set.
  abbrev pub NoneInAny : KeySpace → Type 0
  NoneInAny ks = (file : Bytes) → ks.group_id file ≢ some (text invalid_group_id)

  abbrev ForAny : ScriptRun → Type 0
  ForAny r = r.set ≡ invalid_group_id

  is_elsewhere : (o : Option Bytes) (g : Bytes) → o ≢ some g → other_group o g ≡ true
  is_elsewhere none g n = refl
  is_elsewhere (some h) g n = elim (Bool-cases (bytes_eq h g)) [
    | inl e ↦ absurd (n (ap some (bytes_eq→eq h g e)))
    | inr e ↦ rw e refl
  ]

  tag_runs-ForAny : (id : ℕ) (tags : List Bytes) → All ForAny (tag_runs id tags invalid_group_id)
  tag_runs-ForAny id [] = tt
  tag_runs-ForAny id (t ∷ ts) = (refl, tag_runs-ForAny id ts)

  run_id_based_script-ForAny :
      (ids : List ℕ) (tags : List Bytes)
      → All ForAny (run_id_based_script ids tags invalid_group_id)
  unfolding run_id_based_script
  run_id_based_script-ForAny [] tags = tt
  run_id_based_script-ForAny (id ∷ ids) tags =
      All-append ForAny (tag_runs id tags invalid_group_id) _ (tag_runs-ForAny id tags)
        (run_id_based_script-ForAny ids tags)

  run_regex_based_script-ForAny :
      (search : RegexSearch) (files : List ScannedFile) (regexes tags : List Bytes)
      → All ForAny (run_regex_based_script search files regexes tags invalid_group_id)
  unfolding run_regex_based_script
  run_regex_based_script-ForAny search [] regexes tags = tt
  run_regex_based_script-ForAny search (f ∷ fs) regexes tags =
      All-append ForAny (matching (path_matches search regexes f.path)) _
        (matching-ForAny (path_matches search regexes f.path))
        (run_regex_based_script-ForAny search fs regexes tags)
    where
      matching : Bool → List ScriptRun
      matching b = if b then tag_runs f.id tags invalid_group_id else []

      matching-ForAny : (b : Bool) → All ForAny (matching b)
      matching-ForAny true = tag_runs-ForAny f.id tags
      matching-ForAny false = tt

  run_tagging-ForAny :
      (table : TableSort) (rs : List ScriptRun) (ks : KeySpace)
      → NoneInAny ks
      → All ForAny rs
      → run_tagging text table rs ks ≡ ks
  unfolding run_tagging tag_if_in_set
  run_tagging-ForAny table [] ks h a = refl
  run_tagging-ForAny table (r ∷ rs) ks h (a, as') =
      let other : other_group (ks.group_id (run_file_key text r)) (text r.set) ≡ true = rw a (
        is_elsewhere (ks.group_id (run_file_key text r)) (text invalid_group_id)
          (h (run_file_key text r))) in
      rw other (run_tagging-ForAny table rs ks h as')

  run_untagging-ForAny :
      (rs : List ScriptRun) (ks : KeySpace)
      → NoneInAny ks
      → All ForAny rs
      → run_untagging text rs ks ≡ ks
  unfolding run_untagging dele_tag_if_in_set
  run_untagging-ForAny [] ks h a = refl
  run_untagging-ForAny (r ∷ rs) ks h (a, as') =
      let other : other_group (ks.group_id (run_file_key text r)) (text r.set) ≡ true = rw a (
        is_elsewhere (ks.group_id (run_file_key text r)) (text invalid_group_id)
          (h (run_file_key text r))) in
      rw other (run_untagging-ForAny rs ks h as')

  -- When files are tagged or untagged, by ids or by regular expressions, in any set, the scripts
  -- that are run one after the other leave every key as it is, if no file belongs to the set whose
  -- id stands for any.
  pub run_scripts-any_set :
      (table : TableSort) (ids : List ℕ) (search : RegexSearch) (files : List ScannedFile)
      (regexes tags : List Bytes) (ks : KeySpace)
      → NoneInAny ks
      → (run_tagging text table (run_id_based_script ids tags invalid_group_id) ks ≡ ks)
        × (run_tagging text table
              (run_regex_based_script search files regexes tags invalid_group_id)
              ks
            ≡ ks)
        × (run_untagging text (run_id_based_script ids tags invalid_group_id) ks ≡ ks)
        × (run_untagging text (run_regex_based_script search files regexes tags invalid_group_id) ks
            ≡ ks)
  run_scripts-any_set table ids search files regexes tags ks h =
      let by_id = run_id_based_script-ForAny ids tags in
      let by_regex = run_regex_based_script-ForAny search files regexes tags in
      (
        run_tagging-ForAny table _ ks h by_id,
        run_tagging-ForAny table _ ks h by_regex,
        run_untagging-ForAny _ ks h by_id,
        run_untagging-ForAny _ ks h by_regex,
      )
