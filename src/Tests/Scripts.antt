-- ===== src/Tests/Scripts.antt =====
-- The scripts on the keys of the server at concrete inputs.
use dindexer.Common.{
  ap, ◌≢◌, Option, ℕ, ◌+◌, ◌∷◌, List, true, arith, ◌≡◌, some, none, [], Bytes, codes,
}
use dindexer.Redis.Keys.{TableSort, KeySpace, tag_if_in_set, dele_tag_if_in_set}
use dindexer.Redis.Keys.Lists.{IsTag}
use dindexer.Redis.Tag.{
  invalid_group_id, ScannedFile, RegexSearch, run_id_based_script, run_regex_based_script,
}
use dindexer.Redis.Keys.{run_tagging, run_untagging}
use dindexer.Redis.Keys.AnySet.{run_scripts-any_set}
use dindexer.Redis.Keys.Consistent.{
  Consistent, key_of_tag, tagged, untagged, none_run, one_more, Runs-Consistent,
}

-- A sort that leaves every list as it is.
abbrev as_it_is : TableSort
as_it_is = record { sort = λ l. l; sort_among = λ l x. ((λ h. h), λ h. h); sort_once = λ l h. h }

abbrev file_four : Bytes
file_four = codes "dindexer:file:4"

-- Files of set 2, none of them tagged.
abbrev untagged_files : KeySpace
untagged_files = record {
  group_id = λ key. some (codes "2");
  tags = λ key. none;
  tag_set = λ key. [];
}

live-IsTag : IsTag (codes "live")
live-IsTag = (
  (λ e. cc),
  (omega arith, (omega arith, (omega arith, (omega arith, tt)))),
  (omega arith, (omega arith, (omega arith, (omega arith, tt)))),
)

abbrev after_tag : KeySpace
after_tag = tag_if_in_set as_it_is (key_of_tag (codes "live")) file_four (codes "2") untagged_files

abbrev after_both : KeySpace
after_both = dele_tag_if_in_set (key_of_tag (codes "live")) file_four (codes "2") after_tag

Runs-Consistent_example : Consistent after_both
Runs-Consistent_example =
    Runs-Consistent as_it_is untagged_files after_both
      (one_more untagged_files after_tag after_both
        (tagged untagged_files (codes "live") file_four (codes "2") live-IsTag)
        (one_more after_tag after_both after_both
          (untagged after_tag (codes "live") file_four (codes "2") live-IsTag)
          (none_run after_both)))
      ((λ t tag file. ((λ h. absurd h), λ h. absurd h)), λ file. tt)

abbrev digit : ℕ → Bytes
digit n = (n + 48) ∷ []

abbrev one_tag : List Bytes
one_tag = codes "live" ∷ []

abbrev always : RegexSearch
always path r = true

abbrev scanned : List ScannedFile
scanned = record { id = 4; path = some (codes "a"); tags = none; group_id = 2 } ∷ []

abbrev first_byte : Option Bytes → ℕ
first_byte none = 0
first_byte (some []) = 0
first_byte (some (c ∷ s)) = c

no_zero : (file : Bytes) → some (codes "2") ≢ some (digit invalid_group_id)
no_zero file e = let same : 50 ≡ 48 = ap first_byte e in absurd (omega (arith, same))

run_scripts-any_set_example :
    (run_tagging digit as_it_is (run_id_based_script (4 ∷ []) one_tag 0) untagged_files
      ≡ untagged_files)
    × (run_tagging digit as_it_is
          (run_regex_based_script always scanned (codes "a" ∷ []) one_tag 0)
          untagged_files
        ≡ untagged_files)
    × (run_untagging digit (run_id_based_script (4 ∷ []) one_tag 0) untagged_files ≡ untagged_files)
    × (run_untagging digit
          (run_regex_based_script always scanned (codes "a" ∷ []) one_tag 0)
          untagged_files
        ≡ untagged_files)
run_scripts-any_set_example =
    run_scripts-any_set digit as_it_is (4 ∷ []) always scanned (codes "a" ∷ []) one_tag
      untagged_files no_zero
