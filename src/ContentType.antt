-- ===== src/ContentType.antt =====
-- src/machinery/guess_content_type.cpp and globbing.cpp, with the types of
-- include/dindexer-machinery/guess_content_type.hpp and mediatypes.hpp: what kind of content a disc
-- or directory holds. `fnmatch` of the C library is a parameter.
pub mod Video
use dindexer.Common.{
  ℕ, zero, suc, ◌+◌, ◌-◌, ◌≡◌, Bool, true, false, not, ◌&&◌, ◌||◌, Option, some, none, List, [],
  ◌∷◌, ◌++◌, Bytes, codes, length, ◌==◌, ltb, leb, if◌then◌else◌,
}
use dindexer.Boost.{StringFind}
use dindexer.RecordData.{FileRecordData, rel_path}
use dindexer.PathName.{PathName, path_name}
use dindexer.SetListing.{SetListingView, view_begin, is_end}
use dindexer.SetListing.Helpers.{
  count_listing_items, count_listing_items_recursive, flattened_listing,
}

pub data MediaTypes : Type 0 where
  cd_rom directory dvd blu_ray floppy_disk hard_disk iomega_zip other : MediaTypes

pub data ContentTypes : Type 0 where
  empty generic backup video_dvd video_bd video_cd unknown : ContentTypes

abbrev pub is_cd_rom : MediaTypes → Bool
is_cd_rom cd_rom = true
is_cd_rom _ = false

abbrev pub is_directory : MediaTypes → Bool
is_directory directory = true
is_directory _ = false

abbrev pub is_dvd : MediaTypes → Bool
is_dvd dvd = true
is_dvd _ = false

-- `fnmatch(pattern, path, FNM_PATHNAME)`, true for a match.
abbrev pub Fnmatch : Type 0
Fnmatch = Bytes → Bytes → Bool

abbrev pub glob_matches : Fnmatch → FileRecordData → Bytes → Bool
glob_matches fnmatch r pattern = fnmatch pattern (rel_path r)

-- Whether a `Glob` with the pattern has an element.
pub any_match : Fnmatch → List FileRecordData → Bytes → Bool
any_match fnmatch [] pattern = false
any_match fnmatch (r ∷ rs) pattern = glob_matches fnmatch r pattern || any_match fnmatch rs pattern

-- The loop over the patterns from the index `z` on: the indices of those with no match.
pub check_missing_from : Fnmatch → List FileRecordData → ℕ → List Bytes → List ℕ
unfolding any_match
check_missing_from fnmatch content z [] = []
check_missing_from fnmatch content z (p ∷ ps) =
    let rest = check_missing_from fnmatch content (suc z) ps in
    if not (any_match fnmatch content p) then z ∷ rest else rest

pub check_missing_content : Fnmatch → List FileRecordData → List Bytes → List ℕ
unfolding check_missing_from
check_missing_content fnmatch content checks = check_missing_from fnmatch content 0 checks

abbrev pub is_nil {ℓ} : {A : Type ℓ} → List A → Bool
is_nil [] = true
is_nil (x ∷ xs) = false

abbrev pub dvd_files : List Bytes
dvd_files = codes "VIDEO_TS/*.VOB" ∷ codes "AUDIO_TS" ∷ []

abbrev pub cd_files : List Bytes
cd_files =
    codes "SVCD/*.VCD" ∷ codes "MPEGAV/AVSEQ??.DAT" ∷ codes "SEGMENT/ITEM???.DAT" ∷ codes "CDI" ∷ []

-- An element of the checker chain: `EntryChecking`.
pub record EntryChecking : Type 0 where
  pub max_total_entries : ℕ
  pub checker_func : MediaTypes → SetListingView → List FileRecordData → Bool
  pub content_type : ContentTypes

-- The loop over the checker chain.
pub run_checkers :
    List EntryChecking → MediaTypes → SetListingView → ℕ → List FileRecordData → ContentTypes
run_checkers [] media content total flat = generic
run_checkers (chk ∷ chks) media content total flat =
    let rest = run_checkers chks media content total flat in
    if not (chk.max_total_entries == 0) && leb total chk.max_total_entries
    then (if chk.checker_func media content flat then chk.content_type else rest)
    else rest

module _ (find : StringFind) (fnmatch : Fnmatch) where
  pub identify_video_dvd : MediaTypes → SetListingView → List FileRecordData → Bool
  unfolding check_missing_content
  identify_video_dvd media content flat =
      if not (is_dvd media) && not (is_directory media)
      then false
      else if ltb (count_listing_items find content) 2
      then false
      else is_nil (check_missing_content fnmatch flat dvd_files)

  pub identify_video_cd : MediaTypes → SetListingView → List FileRecordData → Bool
  unfolding check_missing_content
  identify_video_cd media content flat =
      if not (is_cd_rom media) && not (is_directory media)
      then false
      else if ltb (count_listing_items find content) 4
      then false
      else is_nil (check_missing_content fnmatch flat cd_files)

  pub guess_content_type : MediaTypes → SetListingView → ℕ → ContentTypes
  unfolding identify_video_dvd identify_video_cd run_checkers
  guess_content_type media content entries_count =
      let fuel = suc (length content.range) in
      let total =
        if not (entries_count == 0)
        then entries_count
        else count_listing_items_recursive find fuel content in
      let chain =
        record {
          max_total_entries = 100;
          checker_func = identify_video_dvd;
          content_type = video_dvd;
        }
        ∷ record {
          max_total_entries = 200;
          checker_func = identify_video_cd;
          content_type = video_cd;
        }
        ∷ [] in
      if is_end find (view_begin find content)
      then empty
      else run_checkers chain media content total (flattened_listing find fuel content)

  -- The overload for a sorted list of records, whose first one is the root.
  pub guess_content_of_list : MediaTypes → List FileRecordData → ContentTypes
  unfolding guess_content_type
  guess_content_of_list media [] = empty
  guess_content_of_list media (r ∷ rs) =
      guess_content_type media
        (record { range = r ∷ rs; base_path = some (path_name find []); level_offset = 0 })
        (length (r ∷ rs) - 1)
