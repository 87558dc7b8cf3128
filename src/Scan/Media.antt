-- ===== src/Scan/Media.antt =====
-- src/machinery/scantask/mediatype.cpp and contenttype.cpp, and the characters of mediatypes.cpp and
-- guess_content_type.cpp: the tasks that fill the kind of medium, the labels and the kind of content into
-- the data of the set, which the set task keeps. An exception is no result.
pub mod Fresh
use dindexer.Common.{
  ℕ, Bool, true, false, ◌⊎◌, inl, inr, Option, some, none, List, [], ◌∷◌, Bytes, ◌==◌,
  if◌then◌else◌,
}
use dindexer.Boost.{StringFind}
use dindexer.RecordData.{FileRecordData}
use dindexer.Scan.Lazy
use dindexer.Scan.Lazy.{Task, Creator, get_or_create, SetRecordDataFull, set_basic_create}
use dindexer.ContentType.{
  MediaTypes, cd_rom, directory, dvd, blu_ray, floppy_disk, hard_disk, iomega_zip, other,
  ContentTypes, empty, generic, backup, video_dvd, video_bd, video_cd, unknown, Fnmatch,
  guess_content_of_list,
}
use dindexer.DiscInfo
use dindexer.DiscInfo.{Mounts, Disks, DiscInfo, disc_info, MediaError, guess_media_type}

abbrev pub media_type_to_char : MediaTypes → ℕ
media_type_to_char cd_rom = b'C'
media_type_to_char directory = b'D'
media_type_to_char dvd = b'V'
media_type_to_char blu_ray = b'B'
media_type_to_char floppy_disk = b'F'
media_type_to_char hard_disk = b'H'
media_type_to_char iomega_zip = b'Z'
media_type_to_char other = b'O'

-- `_from_integral`, which throws for another character.
unfoldable pub char_to_media_type : ℕ → Option MediaTypes
char_to_media_type c =
    if c == b'C'
    then some cd_rom
    else if c == b'D'
    then some directory
    else if c == b'V'
    then some dvd
    else if c == b'B'
    then some blu_ray
    else if c == b'F'
    then some floppy_disk
    else if c == b'H'
    then some hard_disk
    else if c == b'Z'
    then some iomega_zip
    else if c == b'O'
    then some other
    else none

abbrev pub content_type_to_char : ContentTypes → ℕ
content_type_to_char empty = b'E'
content_type_to_char generic = b'G'
content_type_to_char backup = b'A'
content_type_to_char video_dvd = b'D'
content_type_to_char video_bd = b'B'
content_type_to_char video_cd = b'C'
content_type_to_char unknown = b'U'

-- The tasks, with the flags of the two that keep no data of their own.
pub record Tasks : Type 0 where
  pub set_task : Task SetRecordDataFull
  pub dir_tree : Task (List FileRecordData)
  pub media_created : Bool
  pub content_created : Bool

abbrev pub Run : Type 0 → Type 0
Run A = Tasks → Tasks × Option A

abbrev pub resume : {A B : Type 0} → (A → Run B) → Tasks × Option A → Tasks × Option B
resume f (t, none) = (t, none)
resume f (t, some a) = f a t

abbrev pub bind : {A B : Type 0} → Run A → (A → Run B) → Run B
bind m f t = resume f (m t)

abbrev pub lift : {A : Type 0} → Option A → Run A
lift o t = (t, o)

-- Assignments through the reference to the data of the set.
abbrev pub assign : (SetRecordDataFull → SetRecordDataFull) → Run SetRecordDataFull
assign f t =
    let d = f t.set_task.stored in
    (record t { set_task = record t.set_task { stored = d } }, some d)

abbrev pub guessed : MediaError ⊎ MediaTypes → Option MediaTypes
guessed (inl e) = none
guessed (inr m) = some m

-- What the tasks are made with, and what the system knows.
pub record Setup : Type 0 where
  pub find : StringFind
  pub fnmatch : Fnmatch
  pub mounts : Mounts
  pub disks : Disks
  pub device_type : Bytes → ℕ
  pub answer : Bytes → Option (ℕ × ℕ)
  pub set_name : Bytes
  pub create_tree : Creator (List FileRecordData)
  pub default_type : MediaTypes
  pub force : Bool
  pub search_path : Bytes

module _ (s : Setup) where
  unfoldable pub info : Option DiscInfo
  info = disc_info s.find s.mounts s.disks s.search_path

  abbrev pub guess : Option DiscInfo → Option MediaTypes
  guess none = none
  guess (some d) = guessed (guess_media_type s.find d s.device_type s.answer)

  unfoldable pub chosen_type : Option MediaTypes
  chosen_type = if s.force then some s.default_type else guess info

  abbrev pub get_set : Run SetRecordDataFull
  get_set t =
      let r = get_or_create (set_basic_create s.set_name) t.set_task in
      (record t { set_task = r.0 }, r.1)

  abbrev pub get_tree : Run (List FileRecordData)
  get_tree t = let r = get_or_create s.create_tree t.dir_tree in (record t { dir_tree = r.0 }, r.1)

  unfoldable pub fill_media : Run SetRecordDataFull
  fill_media = bind get_set λ d. bind (lift chosen_type) λ m.
      bind (assign (λ d. record d { type = media_type_to_char m }))
        λ d. bind (lift info) λ i. assign (λ d. record d { disk_label = i.label; fs_uuid = i.uuid })

  unfoldable pub get_media : Run SetRecordDataFull
  unfolding fill_media
  get_media t =
      if t.media_created
      then get_set t
      else bind fill_media (λ d. get_set) (record t { media_created = true })

  unfoldable pub fill_content : Run SetRecordDataFull
  unfolding get_media
  fill_content = bind get_set λ d. bind get_media λ d.
      bind (lift (char_to_media_type d.type)) λ media. bind get_tree λ tree. assign (λ d. record d {
        content_type = content_type_to_char (guess_content_of_list s.find s.fnmatch media tree);
      })

  unfoldable pub get_content : Run SetRecordDataFull
  unfolding fill_content
  get_content t =
      if t.content_created
      then get_set t
      else bind fill_content (λ d. get_set) (record t { content_created = true })
