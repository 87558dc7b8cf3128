-- ===== src/Tests/Navigator.antt =====
-- Entry paths, their grammar and the navigator's listings at concrete inputs.
use dindexer.Common.{
  ℕ, ◌≡◌, refl, ap, if◌then◌else◌, arith, Option, some, none, [], ◌∷◌, map, Bytes, codes, Lacks,
  bytes_eq,
}
use dindexer.EntryPath.{
  EntryPath, parse, items_from, escape, push_item, push_items, push_piece, entry_path, to_string,
  group_id, points_to_group, level,
}
use dindexer.EntryPath.Grammar.{IsPlain, Plain, push_piece-to_string}
use dindexer.ListDirContent.{
  Backend, push_back, take_out, find_and_refresh_in_cache, names_at, listing_starting_by, listing,
  ls, ls_starting_by, ls_each,
}
use dindexer.ListDirContent.Cache.{ls_each-listing, ls_starting_by-ls}

abbrev entry : EntryPath
entry = record { stack = codes "7" ∷ codes "m" ∷ [] }

hex_escape : parse (codes "a\\x2fb/c") ≡ some (codes "a/b" ∷ codes "c" ∷ [])
unfolding parse items_from escape
hex_escape = refl

char_escape : parse (codes "//\\/\\xz/") ≡ some (codes "/xz" ∷ [])
unfolding parse items_from escape
char_escape = refl

lone_backslash : parse (codes "a/b\\") ≡ some (codes "a" ∷ codes "b" ∷ [])
unfolding parse items_from escape
lone_backslash = refl

ab_Lacks : Lacks b'\\' (codes "/a//b")
ab_Lacks = (omega arith, (omega arith, (omega arith, (omega arith, (omega arith, tt)))))

one_byte-IsPlain :
    (c : ℕ) → Lacks b'.' (c ∷ []) → Lacks b'/' (c ∷ []) → Lacks b'\\' (c ∷ []) → IsPlain (c ∷ [])
one_byte-IsPlain c (dot, _) slash back =
    (((λ e. dot (ap (λ s. head s) e)), λ e. cc), (λ e. cc), slash, back)
  where
    head : Bytes → ℕ
    head [] = 0
    head (d ∷ s) = d

entry-Plain : Plain entry
entry-Plain = (
  one_byte-IsPlain b'7' (omega arith, tt) (omega arith, tt) (omega arith, tt),
  (one_byte-IsPlain b'm' (omega arith, tt) (omega arith, tt) (omega arith, tt), tt),
)

push_piece-to_string_example : push_piece entry (to_string entry) ≡ entry
push_piece-to_string_example = push_piece-to_string entry entry entry-Plain

-- A database with one set that holds two files.
abbrev db : Backend
db = record {
  find_all_sets = 7 ∷ [];
  find_set_details = λ sets. (codes "7" ∷ codes "mixed" ∷ []) ∷ [];
  find_file_details = λ set lev path. (codes "m/a" ∷ []) ∷ (codes "m/b" ∷ []) ∷ [];
  find_paths_starting_by = λ set lev path. codes "m" ∷ [];
}

abbrev only_seven : Bytes → Option ℕ
only_seven s = if bytes_eq s (codes "7") then some 7 else none

abbrev root : EntryPath
root = record { stack = [] }

ls_each-listing_example :
    ls_each db only_seven (root ∷ entry ∷ root ∷ []) []
    ≡ map (listing db only_seven) (root ∷ entry ∷ root ∷ [])
ls_each-listing_example =
    ls_each-listing db only_seven (root ∷ entry ∷ root ∷ []) (tt, (entry-Plain, (tt, tt)))

abbrev set_seven : EntryPath
set_seven = record { stack = codes "7" ∷ [] }

names_m : (ls_starting_by db only_seven set_seven (codes "m") []).0 ≡ some (codes "m" ∷ [])
unfolding ls_starting_by listing_starting_by names_at find_and_refresh_in_cache take_out push_back
    push_piece entry_path push_items push_item parse items_from escape bytes_eq points_to_group
    group_id level
names_m = refl

ls_starting_by-ls_example :
    (ls db only_seven
      (push_piece set_seven (codes "m"))
      (ls_starting_by db only_seven set_seven (codes "m") []).1).0
    ≡ some (codes "m" ∷ [])
unfolding take_out
ls_starting_by-ls_example =
    ls_starting_by-ls db only_seven set_seven (codes "m") [] (codes "m" ∷ []) refl names_m
