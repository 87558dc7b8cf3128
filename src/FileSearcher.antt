-- ===== src/FileSearcher.antt =====
-- src/machinery/filesearcher.cpp: what is done with each entry that nftw() reports. The callback is a
-- function on a state that it passes on; nftw() itself is the list of the entries that it reports.
pub mod Calls
use dindexer.Common.{
  ℕ, ◌-◌, ◌%◌, ◌^◌, Bool, true, false, not, List, [], ◌∷◌, Bytes, length, take, drop, bytes_eq,
  if◌then◌else◌, is_empty,
}

pub record FileStats : Type 0 where
  pub level : ℕ
  pub is_dir : Bool
  pub is_symlink : Bool
  pub atime : ℕ
  pub mtime : ℕ
  pub size : ℕ

-- FTW_CONTINUE, FTW_STOP and FTW_SKIP_SUBTREE.
pub data Answer : Type 0 where
  proceed stop skip_subtree : Answer

-- FTW_DNR, FTW_D, FTW_F, FTW_NS, FTW_SLN, FTW_SL, and any other number.
pub data EntryType : Type 0 where
  unreadable_directory directory file no_stat broken_link link unknown : EntryType

-- What nftw() hands over, and whether lstat() says that the path is a link.
pub record Entry : Type 0 where
  pub path : Bytes
  pub base : ℕ
  pub level : ℕ
  pub atime : ℕ
  pub mtime : ℕ
  pub size : ℕ
  pub type : EntryType
  pub is_link : Bool

-- `strncmp(s, t, n) == 0` for texts without a zero byte.
abbrev pub strncmp_eq : ℕ → Bytes → Bytes → Bool
strncmp_eq n s t = bytes_eq (take n s) (take n t)

-- The loop over the paths to be ignored, each with its own length.
pub is_ignored : List Bytes → Bytes → Bool
is_ignored [] name = false
is_ignored (p ∷ ps) name =
    let rest = is_ignored ps name in if strncmp_eq (length p) p name then true else rest

-- The loop over the extensions: the end of the path is compared. An extension longer than the path
-- makes the source read in front of it.
pub has_extension : List Bytes → Bytes → Bool
has_extension [] path = false
has_extension (e ∷ es) path =
    let rest = has_extension es path in
    if strncmp_eq (length e) e (drop (length path - length e) path) then true else rest

-- The state that the callback leaves, and whether it wants to go on.
abbrev pub Callback : Type 0 → Type 0
Callback S = S → Bytes → FileStats → S × Bool

abbrev pub is_nil : List Bytes → Bool
is_nil [] = true
is_nil (x ∷ xs) = false

-- Nothing more is done once the answer is to stop.
abbrev pub unless_stopped {ℓ} : {S : Type ℓ} → Answer → S → S → S
unless_stopped stop s rest = s
unless_stopped proceed s rest = rest
unless_stopped skip_subtree s rest = rest

abbrev pub dir_stats : Entry → Bool → FileStats
dir_stats e is_symlink = record {
  level = e.level % 2 ^ 16;
  is_dir = true;
  is_symlink = is_symlink;
  atime = e.atime;
  mtime = e.mtime;
  size = 0;
}

abbrev pub file_stats : Entry → Bool → FileStats
file_stats e is_symlink = record {
  level = e.level % 2 ^ 16;
  is_dir = false;
  is_symlink = is_symlink;
  atime = e.atime;
  mtime = e.mtime;
  size = e.size;
}

module _ {S : Type 0} (callback : Callback S) (extensions ignore_paths : List Bytes) where
  abbrev pub handle_dir : S → Entry → Bool → Bool → S × Answer
  handle_dir s e can_be_read is_symlink =
      let r = callback s e.path (dir_stats e is_symlink) in
      if not r.1
      then (r.0, stop)
      else if not can_be_read
      then (r.0, skip_subtree)
      else if is_ignored ignore_paths (drop e.base e.path)
      then (r.0, skip_subtree)
      else (r.0, proceed)

  abbrev pub handle_file : S → Entry → Bool → S × Answer
  handle_file s e is_symlink =
      let r = callback s e.path (file_stats e is_symlink) in
      let called = if not r.1 then (r.0, stop) else (r.0, proceed) in
      if is_nil extensions
      then called
      else if has_extension extensions e.path
      then called
      else (s, proceed)

  abbrev pub handle_link : S → Entry → Bool → S × Answer
  handle_link s e broken = if broken then (s, proceed) else handle_file s e true

  abbrev pub by_type : EntryType → S → Entry → S × Answer
  by_type unreadable_directory s e = handle_dir s e false e.is_link
  by_type directory s e = handle_dir s e true e.is_link
  by_type file s e = handle_file s e e.is_link
  by_type no_stat s e = (s, proceed)
  by_type broken_link s e = handle_link s e true
  by_type link s e = handle_link s e false
  by_type unknown s e = (s, proceed)

  pub print_name : S → Entry → S × Answer
  unfolding is_ignored has_extension
  print_name s e = by_type e.type s e

  -- The calls of `print_name` that nftw() makes, until it is told to stop.
  pub search : S → List Entry → S
  unfolding print_name
  search s [] = s
  search s (e ∷ es) =
      let r = print_name s e in let rest = search r.0 es in unless_stopped r.1 r.0 rest
