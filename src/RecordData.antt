-- ===== src/RecordData.antt =====
-- include/dindexer-machinery/recorddata.hpp: what the index keeps of one file or directory.
-- include/dindexer-machinery/tiger.hpp: the 192-bit hash as three 64-bit parts.
use dindexer.Common.{
  ℕ, zero, suc, ◌∷◌, ◌++◌, ◌/◌, ◌%◌, ◌^◌, ◌<◌, ◌≡◌, Bool, false, ◌&&◌, Bytes, [], drop, substr,
  slice, StrRange, ◌==◌,
}
use native.Mathlib.Nat.{mod-eq_of_lt}

pub record TigerHash : Type 0 where
  pub part_a : ℕ
  pub part_b : ℕ
  pub part_c : ℕ

-- `TigerHash {}`.
abbrev pub zero_hash : TigerHash
zero_hash = record { part_a = 0; part_b = 0; part_c = 0 }

pub hash_eq : TigerHash → TigerHash → Bool
hash_eq a b = (a.part_a == b.part_a) && ((a.part_b == b.part_b) && (a.part_c == b.part_c))

-- `n` bytes of a number, the lowest first.
unfoldable pub low_bytes : ℕ → ℕ → Bytes
low_bytes zero n = []
low_bytes (suc k) n = n % 256 ∷ low_bytes k (n / 256)

-- `byte_data`, on a little-endian machine.
abbrev pub byte_data : TigerHash → Bytes
byte_data h = low_bytes 8 h.part_a ++ (low_bytes 8 h.part_b ++ low_bytes 8 h.part_c)

-- Levels, offsets and lengths are 16-bit numbers in the source.
pub record FileRecordData : Type 0 where
  pub hash : TigerHash
  pub abs_path : Bytes
  pub mime_full : Bytes
  pub atime : ℕ
  pub mtime : ℕ
  pub size : ℕ
  pub level : ℕ
  pub path_offset : ℕ
  pub mime_type_offset : ℕ
  pub mime_type_length : ℕ
  pub mime_charset_offset : ℕ
  pub mime_charset_length : ℕ
  pub is_directory : Bool
  pub is_symlink : Bool
  pub unreadable : Bool
  pub hash_valid : Bool

-- The constructor with an offset to the relative path.
abbrev pub file_record : Bytes → ℕ → ℕ → ℕ → ℕ → Bool → Bool → FileRecordData
file_record abs_path rel_path_offs atime mtime level is_dir is_symlink = record {
  hash = zero_hash;
  abs_path = abs_path;
  mime_full = [];
  atime = atime;
  mtime = mtime;
  size = 0;
  level = level;
  path_offset = rel_path_offs;
  mime_type_offset = 0;
  mime_type_length = 0;
  mime_charset_offset = 0;
  mime_charset_length = 0;
  is_directory = is_dir;
  is_symlink = is_symlink;
  unreadable = false;
  hash_valid = false;
}

-- `path()`: the path relative to the scanned directory.
abbrev pub rel_path : FileRecordData → Bytes
rel_path r = drop r.path_offset r.abs_path

unfoldable pub mime_type : FileRecordData → Bytes
mime_type r = substr r.mime_type_offset r.mime_type_length r.mime_full

unfoldable pub mime_charset : FileRecordData → Bytes
mime_charset r = substr r.mime_charset_offset r.mime_charset_length r.mime_full

abbrev pub as_uint16 : ℕ → ℕ
as_uint16 n = n % 2 ^ 16

-- `set_mime_parts`: both parts are ranges of `mime_full`.
pub set_mime_parts : StrRange → StrRange → FileRecordData → FileRecordData
set_mime_parts type charset r = record r {
  mime_type_offset = as_uint16 type.start;
  mime_type_length = as_uint16 type.len;
  mime_charset_offset = as_uint16 charset.start;
  mime_charset_length = as_uint16 charset.len;
}

-- The ranges that `set_mime_parts` is given, with offsets and lengths below 65536, are the ones
-- that `mime_type` and `mime_charset` read back.
pub mime_parts-set_mime_parts :
    (type charset : StrRange) (r : FileRecordData)
    → type.start < 2 ^ 16
    → type.len < 2 ^ 16
    → charset.start < 2 ^ 16
    → charset.len < 2 ^ 16
    → (mime_type (set_mime_parts type charset r) ≡ slice type r.mime_full)
      × (mime_charset (set_mime_parts type charset r) ≡ slice charset r.mime_full)
unfolding mime_type mime_charset set_mime_parts
mime_parts-set_mime_parts type charset r a b c d =
    (rw (mod-eq_of_lt a, mod-eq_of_lt b), rw (mod-eq_of_lt c, mod-eq_of_lt d))
