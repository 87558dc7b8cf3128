-- ===== src/DiscInfo.antt =====
-- src/machinery/discinfo.cpp and mediatype.cpp: the mount point of a path, and the kind of medium that is
-- guessed from the device. The lines of /proc/mounts, inodes and directories, the kernel's type of a
-- device and the answer of an optical drive are parameters.
pub mod MountPoints
use dindexer.Common.{
  ℕ, zero, suc, ◌+◌, ◌*◌, ◌%◌, Bool, true, false, not, ◌||◌, ◌&&◌, ◌⊎◌, inl, inr, Option, some,
  none, List, [], ◌∷◌, Bytes, codes, length, ◌==◌, ltb, leb, if◌then◌else◌, bytes_eq,
}
use dindexer.Boost.{StringFind}
use dindexer.PathName
use dindexer.PathName.{PathName, path_name, pop_right, atom_count}
use dindexer.ContentType.{MediaTypes, cd_rom, directory, dvd, blu_ray, hard_disk}

-- A line: the device, and where it is mounted. Of two lines for one place the later counts.
abbrev pub Mounts : Type 0
Mounts = List (Bytes × Bytes)

unfoldable pub find_mount : Mounts → Bytes → Option Bytes
find_mount [] path = none
find_mount ((device, mount) ∷ lines) path = elim (find_mount lines path) [
  | some d ↦ some d
  | none ↦ if bytes_eq mount path then some device else none
]

pub record DiscInfo : Type 0 where
  pub initial_path : Bytes
  pub mountpoint : Bytes
  pub device : Bytes
  pub label : Bytes
  pub uuid : Bytes

unfoldable pub mountpoint_found : DiscInfo → Bool
mountpoint_found d = not (length d.device == 0)

-- The place and its device if there is one, or else what follows.
abbrev pub device_at : Option Bytes → Bytes → Option (Bytes × Bytes) → Option (Bytes × Bytes)
device_at (some device) path more = some (path, device)
device_at none path more = more

-- The loop of the constructor from a path on, on fuel: the mount point and its device.
unfoldable pub find_device : ℕ → Mounts → PathName → Option (Bytes × Bytes)
unfolding find_mount
find_device zero mounts input_path = none
find_device (suc fuel) mounts input_path =
    let curr_path = PathName.path input_path in
    let shorter = pop_right input_path in
    let more = find_device fuel mounts shorter in
    device_at (find_mount mounts curr_path) curr_path
      (if ltb 0 (atom_count shorter) then more else none)

-- What the file system knows: the inode of a path, if there is one, and the paths in a directory, if it
-- is one; and `basename` of a path.
pub record Disks : Type 0 where
  pub inode : Bytes → Option ℕ
  pub entries : Bytes → Option (List Bytes)
  pub basename : Bytes → Bytes

abbrev pub has_inode : Option ℕ → ℕ → Bool
has_inode none i = false
has_inode (some j) i = j == i

unfoldable pub find_inode : Disks → ℕ → List Bytes → Bytes
find_inode disks i [] = []
find_inode disks i (p ∷ ps) =
    if has_inode (disks.inode p) i then disks.basename p else find_inode disks i ps

-- No result if the directory does not exist, where the code throws.
unfoldable pub find_with_same_inode : Disks → Bytes → Bytes → Option Bytes
unfolding find_inode
find_with_same_inode disks what place = elim (disks.inode what) [
  | none ↦ some []
  | some i ↦ elim (disks.entries place) [ none ↦ none | some ps ↦ some (find_inode disks i ps) ]
]

abbrev pub no_disc : Bytes → DiscInfo
no_disc path = record { initial_path = path; mountpoint = []; device = []; label = []; uuid = [] }

abbrev pub retrieve_label : Disks → Bytes → Option Bytes
unfolding find_with_same_inode
retrieve_label disks device = find_with_same_inode disks device (codes "/dev/disk/by-label")

abbrev pub retrieve_uuid : Disks → Bytes → Option Bytes
unfolding find_with_same_inode
retrieve_uuid disks device = find_with_same_inode disks device (codes "/dev/disk/by-uuid")

abbrev pub labelled : DiscInfo → Option Bytes → Option Bytes → Option DiscInfo
labelled d (some l) (some u) = some (record d { label = l; uuid = u })
labelled d _ _ = none

unfoldable pub with_labels : Disks → DiscInfo → Option DiscInfo
unfolding mountpoint_found
with_labels disks d =
    if mountpoint_found d
    then labelled d (retrieve_label disks d.device) (retrieve_uuid disks d.device)
    else some d

abbrev pub located_disc : Bytes → Option (Bytes × Bytes) → DiscInfo
located_disc path none = no_disc path
located_disc path (some (mount, device)) = record (no_disc path) {
  mountpoint = mount;
  device = device;
}

unfoldable pub disc_info : StringFind → Mounts → Disks → Bytes → Option DiscInfo
unfolding find_device
disc_info find mounts disks path =
    let p = path_name find path in
    with_labels disks (located_disc path (find_device (suc (atom_count p)) mounts p))

pub data DriveTypes : Type 0 where
  optical hard_disk_drive other_drive unknown_drive : DriveTypes

pub data OpticalTypes : Type 0 where
  dvd_disc cd_rom_disc ddcd_rom_disc blu_ray_disc not_optical unknown_disc : OpticalTypes

-- The values of `LinuxDeviceTypes`.
unfoldable pub drive_type : ℕ → DriveTypes
drive_type n =
    if n == 0x00
    then hard_disk_drive
    else if n == 0x05
    then optical
    else if leb n 0x09 || ((n == 0x0c) || ((n == 0x0d) || ((n == 0x0e) || (n == 0x7f))))
    then other_drive
    else unknown_drive

abbrev pub from_to : ℕ → ℕ → ℕ → Bool
from_to a b n = leb a n && leb n b

-- The values of `DiscTypes`.
unfoldable pub disc_type : ℕ → OpticalTypes
disc_type n =
    if from_to 0x01 0x05 n
    then not_optical
    else if from_to 0x08 0x0A n
    then cd_rom_disc
    else if from_to 0x10 0x17 n || (from_to 0x1A 0x1B n || ((n == 0x2A) || (n == 0x2B)))
    then dvd_disc
    else if from_to 0x20 0x22 n
    then ddcd_rom_disc
    else if from_to 0x40 0x43 n
    then blu_ray_disc
    else if from_to 0x50 0x53 n || ((n == 0x58) || (n == 0x5A))
    then dvd_disc
    else unknown_disc

-- The bytes 6 and 7 that the drive answers with; none if the call fails.
unfoldable pub optical_type : DriveTypes → Option (ℕ × ℕ) → OpticalTypes
unfolding disc_type
optical_type optical (some (high, low)) = disc_type (low % 256 + 256 * (high % 256))
optical_type optical none = unknown_disc
optical_type _ answer = not_optical

pub data MediaError : Type 0 where
  unknown_media_type cant_autodetect : MediaError

-- `device_type` and `answer` are what the system says of a device.
unfoldable pub guess_media_type :
    StringFind → DiscInfo → (Bytes → ℕ) → (Bytes → Option (ℕ × ℕ)) → MediaError ⊎ MediaTypes
unfolding drive_type optical_type
guess_media_type find info device_type answer =
    let mine = bytes_eq info.mountpoint (PathName.path (path_name find info.initial_path)) in
    elim (drive_type (device_type info.device)) [
      | hard_disk_drive ↦ if mine then inr hard_disk else inr directory
      | optical ↦ elim (optical_type optical (answer info.device)) [
        | dvd_disc ↦ inr dvd
        | cd_rom_disc ↦ inr cd_rom
        | blu_ray_disc ↦ inr blu_ray
        | _ ↦ inl unknown_media_type
      ]
      | _ ↦ inl cant_autodetect
    ]
