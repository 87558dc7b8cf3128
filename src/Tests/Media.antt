-- ===== src/Tests/Media.antt =====
-- Mount points at a concrete path.
use dindexer.Common.{
  bytes_eq, Bool, true, false, ℕ, ◌≡◌, ap, refl, arith, Option, some, none, List, [], ◌∷◌, Bytes,
  codes, length,
}
use dindexer.StringPool.{insert, update, update_one, clone_first, unref, pop_loop, pop}
use dindexer.PathName.{
  path_name, split_path, split_loop, find_byte, pop_right, path, get_joint_atoms, join_atoms,
  calc_join_size, add_sizes, begins_with_slash,
}
use dindexer.PathName.Parse.{components}
use dindexer.DiscInfo.{
  guess_media_type, drive_type, optical_type, disc_type, find_inode, find_with_same_inode,
  mountpoint_found, find_mount, find_device, Mounts, Disks, disc_info, located_disc, with_labels,
}
use dindexer.DiscInfo.MountPoints.{upwards, first_mounted, disc_info-upwards}
use dindexer.RecordData.{FileRecordData, file_record}
use dindexer.Scan.Lazy.{SetRecordDataFull}
use dindexer.ContentType.{blu_ray, dvd, guess_content_of_list}
use dindexer.Scan.Media.{Setup, chosen_type, info, content_type_to_char, get_content}
use dindexer.Scan.Media.Fresh.{fresh, get_content-fresh, get_content-no_media}
use dindexer.Tests.Boost.{string_find, find_text}

abbrev mounts : Mounts
mounts = (codes "/dev/sda1", codes "/") ∷ (codes "/dev/sr0", codes "/mnt") ∷ []

-- All paths have one inode.
abbrev disks : Disks
disks = record { inode = λ p. some 7; entries = λ p. some (codes "DISC" ∷ []); basename = λ p. p }

abbrev place : Bytes
place = codes "/mnt/a"

disc_info-upwards_example :
    disc_info string_find mounts disks place
    ≡ with_labels disks (
        located_disc place (
          first_mounted mounts
            (upwards (begins_with_slash place) (components place) (length (components place)))))
unfolding dindexer.Common.pieces
disc_info-upwards_example = disc_info-upwards string_find mounts disks place (omega arith)

abbrev drive_answer : Bytes → Option (ℕ × ℕ)
drive_answer device = some (0, 16)

abbrev a_record : FileRecordData
a_record = file_record [] 0 0 0 0 true false

abbrev setup : (Bytes → ℕ) → Bool → Setup
setup kind forced = record {
  find = string_find;
  fnmatch = λ pattern path. false;
  mounts = mounts;
  disks = disks;
  device_type = kind;
  answer = drive_answer;
  set_name = codes "disc";
  create_tree = λ l. (a_record ∷ [], true);
  default_type = blu_ray;
  force = forced;
  search_path = place;
}

abbrev unset : SetRecordDataFull
unset = record {
  name = [];
  disk_label = [];
  fs_uuid = [];
  disk_number = 0;
  type = b'D';
  content_type = b'U';
}

-- The tape of device type 1 is none of the kinds of media.
get_content-no_media_example :
    ((get_content (setup (λ device. 1) false) (fresh unset [])).1 ≡ none)
    × ((get_content
          (setup (λ device. 1) false)
          (get_content (setup (λ device. 1) false) (fresh unset [])).0).1
        ≡ some (record unset { name = codes "disc"; disk_label = []; fs_uuid = [] }))
unfolding chosen_type info guess_media_type drive_type optical_type disc_type find_inode
    find_with_same_inode with_labels mountpoint_found find_mount find_device disc_info path_name
    split_path split_loop find_byte pop_right path get_joint_atoms join_atoms calc_join_size
    add_sizes insert update update_one clone_first unref pop_loop pop find_text bytes_eq
get_content-no_media_example = get_content-no_media (setup (λ device. 1) false) unset [] refl

get_content-fresh_example :
    (get_content (setup (λ device. 5) false) (fresh unset [])).1
    ≡ some (record {
      name = codes "disc";
      disk_label = codes "DISC";
      fs_uuid = codes "DISC";
      disk_number = 0;
      type = b'V';
      content_type =
          content_type_to_char
            (guess_content_of_list string_find (λ pattern path. false) dvd (a_record ∷ []));
    })
unfolding chosen_type info guess_media_type drive_type optical_type disc_type find_inode
    find_with_same_inode with_labels mountpoint_found find_mount find_device disc_info path_name
    split_path split_loop find_byte pop_right path get_joint_atoms join_atoms calc_join_size
    add_sizes insert update update_one clone_first unref pop_loop pop find_text bytes_eq
get_content-fresh_example =
    get_content-fresh (setup (λ device. 5) false) unset [] (a_record ∷ []) dvd
      (record {
        initial_path = place;
        mountpoint = codes "/mnt";
        device = codes "/dev/sr0";
        label = codes "DISC";
        uuid = codes "DISC";
      })
      refl refl refl
