-- ===== src/Tests/Listings.antt =====
-- A sorted listing at concrete inputs: the directories and files of a small video DVD.
use dindexer.Common.{
  ◌≡◌, ◌↔◌, refl, ◌≤◌, arith, true, false, some, List, [], ◌∷◌, length, take, drop, All, codes,
  bytes_eq,
}
use dindexer.RecordData.{FileRecordData, file_record}
use dindexer.StringPool.{clone_first, update_one, update, insert, unref, pop_loop, pop}
use dindexer.PathName.{
  PathName, path_name, split_path, split_loop, find_byte, path_ne, pop_right, same_atoms,
}
use dindexer.SetListing.{
  SetListingView, key, bytes_lt, file_record_data_lt, lower_bound, is_elsewhere, seek, dir_iterator,
  visit, view_begin, is_end,
}
use dindexer.SetListing.Order.{IsSorted, NotBefore, lower_bound_splits}
use dindexer.SetListing.Children.{records, children, Leveled, records-visit}
use dindexer.SetListing.Helpers.{flattened_listing}
use dindexer.SetListing.Depth.{Deep, flattened_listing_fuel}
use dindexer.ContentType.{dvd, video_dvd, Fnmatch, guess_content_type}
use dindexer.ContentType.Video.{IsVideoDvd, total_entries, flattened, guess_content_type-video_dvd}
use dindexer.Tests.Boost.{string_find, find_text}

abbrev audio : FileRecordData
audio = file_record (codes "AUDIO_TS") 0 0 0 1 true false

abbrev video : FileRecordData
video = file_record (codes "VIDEO_TS") 0 0 0 1 true false

abbrev film : FileRecordData
film = file_record (codes "VIDEO_TS/A.VOB") 0 0 0 2 false false

abbrev disc : List FileRecordData
disc = audio ∷ video ∷ film ∷ []

abbrev top : PathName
top = path_name string_find []

disc-IsSorted : IsSorted disc
unfolding file_record_data_lt bytes_lt
disc-IsSorted = ((refl, (refl, tt)), ((refl, tt), (tt, tt)))

disc-Leveled : Leveled string_find top 0 disc
unfolding is_elsewhere path_name split_path split_loop find_byte path_ne pop_right same_atoms insert
    update update_one clone_first find_text unref pop_loop pop bytes_eq
disc-Leveled = ((λ e. refl), ((λ e. refl), ((λ e. cc), tt)))

abbrev view : SetListingView
view = record { range = disc; base_path = some top; level_offset = 0 }

view-Deep : Deep string_find 0 (view_begin string_find view).rest
unfolding view_begin dir_iterator seek is_elsewhere path_name split_path split_loop find_byte
    path_ne pop_right same_atoms insert update update_one clone_first find_text unref pop_loop pop
    bytes_eq
view-Deep = (refl, (refl, (refl, tt)))

view_short : length (view_begin string_find view).rest ≤ 3
unfolding view_begin dir_iterator seek is_elsewhere path_name split_path split_loop find_byte
    path_ne pop_right same_atoms insert update update_one clone_first find_text unref pop_loop pop
    bytes_eq
view_short = omega arith

lower_bound_splits_example :
    All
      (λ r. file_record_data_lt (key r) (key video) ≡ true)
      (take (lower_bound disc (key video)) disc)
    × All (NotBefore video) (drop (lower_bound disc (key video)) disc)
lower_bound_splits_example = lower_bound_splits disc video disc-IsSorted

abbrev unsorted : List FileRecordData
unsorted = film ∷ video ∷ audio ∷ []

records-visit_example :
    records (visit string_find (length disc) (dir_iterator string_find disc (some top) 0))
    ≡ children string_find top 0 disc
records-visit_example = records-visit string_find top 0 disc disc-IsSorted disc-Leveled

flattened_listing_fuel_example :
    flattened_listing string_find 5 view ≡ flattened_listing string_find 4 view
flattened_listing_fuel_example =
    flattened_listing_fuel string_find 0 4 3 view (omega arith) view_short view-Deep refl

-- A match is the same text, or any text for the pattern of the film.
abbrev same_text : Fnmatch
same_text pattern path = bytes_eq pattern path

guess_content_type-video_dvd_example :
    (guess_content_type string_find same_text dvd view 3 ≡ video_dvd) ↔ (
      (is_end string_find (view_begin string_find view) ≡ false)
      × (total_entries string_find same_text dvd view 3 ≤ 100)
      × IsVideoDvd string_find same_text dvd view (flattened string_find same_text dvd view))
guess_content_type-video_dvd_example = guess_content_type-video_dvd string_find same_text dvd view 3
