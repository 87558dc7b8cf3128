-- ===== src/Scan/Media/Fresh.antt =====
-- What the tasks leave in the data of a set.
use dindexer.Common.{◌≡◌, refl, true, false, some, none, List, []}
use dindexer.RecordData.{FileRecordData}
use dindexer.Scan.Lazy.{get_or_create, set_basic_create, SetRecordDataFull}
use dindexer.ContentType.{
  MediaTypes, cd_rom, directory, dvd, blu_ray, floppy_disk, hard_disk, iomega_zip, other,
  guess_content_of_list,
}
use dindexer.DiscInfo.{DiscInfo}
use dindexer.Scan.Media.{
  Tasks, Setup, media_type_to_char, char_to_media_type, content_type_to_char, info, chosen_type,
  fill_media, get_media, fill_content, get_content,
}

pub char_to_media_type-media_type_to_char :
    (m : MediaTypes) → char_to_media_type (media_type_to_char m) ≡ some m
unfolding char_to_media_type
char_to_media_type-media_type_to_char cd_rom = refl
char_to_media_type-media_type_to_char directory = refl
char_to_media_type-media_type_to_char dvd = refl
char_to_media_type-media_type_to_char blu_ray = refl
char_to_media_type-media_type_to_char floppy_disk = refl
char_to_media_type-media_type_to_char hard_disk = refl
char_to_media_type-media_type_to_char iomega_zip = refl
char_to_media_type-media_type_to_char other = refl

-- Tasks that nobody has asked for their data.
abbrev pub fresh : SetRecordDataFull → List FileRecordData → Tasks
fresh d l = record {
  set_task = record { data_created = false; stored = d };
  dir_tree = record { data_created = false; stored = l };
  media_created = false;
  content_created = false;
}

-- When the kind of medium is forced or can be guessed, and the directory can be walked, asking the
-- content task, before any task was asked, gives the data of the set with its name, the labels of
-- the disc, the character of the kind, and the character of the content that is guessed for that
-- kind from the list that was made.
pub get_content-fresh :
    (s : Setup) (d : SetRecordDataFull) (l tree : List FileRecordData) (m : MediaTypes)
    (i : DiscInfo)
    → chosen_type s ≡ some m
    → info s ≡ some i
    → s.create_tree l ≡ (tree, true)
    → (get_content s (fresh d l)).1
      ≡ some (record {
        name = s.set_name;
        disk_label = i.label;
        fs_uuid = i.uuid;
        disk_number = d.disk_number;
        type = media_type_to_char m;
        content_type = content_type_to_char (guess_content_of_list s.find s.fnmatch m tree);
      })
unfolding get_content fill_content get_media fill_media get_or_create set_basic_create
get_content-fresh s d l tree m i c k e = rw (c, k, char_to_media_type-media_type_to_char m, e) refl

-- When the kind of medium is not forced and cannot be guessed, the content task throws when it is
-- first asked, and when it is asked again gives the data of the set with its name, without labels
-- and without having set the kind of medium or of content.
pub get_content-no_media :
    (s : Setup) (d : SetRecordDataFull) (l : List FileRecordData)
    → chosen_type s ≡ none
    → ((get_content s (fresh d l)).1 ≡ none)
      × ((get_content s (get_content s (fresh d l)).0).1
          ≡ some (record d { name = s.set_name; disk_label = []; fs_uuid = [] }))
unfolding get_content fill_content get_media fill_media get_or_create set_basic_create
get_content-no_media s d l c = (rw c refl, rw c refl)
