-- ===== src/Redis/Write/Located.antt =====
-- Sets that are stored, when they are looked for by their name.
use dindexer.Common.{Option, some, none, List, [], ◌∷◌, Bytes, codes, bytes_eq, if◌then◌else◌}
use dindexer.Redis.Find.{Row}

-- A field of a hash, if it is there.
unfoldable pub lookup : Bytes → List (Bytes × Bytes) → Option Bytes
lookup name [] = none
lookup name ((f, v) ∷ fs) = let rest = lookup name fs in if bytes_eq f name then some v else rest

-- The reply to a request for the fields that a search for sets asks for.
abbrev pub set_row : List (Bytes × Bytes) → Row
set_row fields = record {
  first = lookup (codes "desc") fields;
  second = lookup (codes "item_count") fields;
  third = lookup (codes "dir_count") fields;
}
