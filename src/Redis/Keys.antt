-- ===== src/Redis/Keys.antt =====
-- src/backends/redis/tag_if_in_set.lua and dele_tag_if_in_set.lua: what the two scripts do to the keys
-- of the server. A script runs without interruption. `table.sort` is a parameter.
pub mod Lists
pub mod Consistent
pub mod AnySet
use dindexer.Common.{
  ℕ, ◌≡◌, ◌↔◌, Bool, true, false, not, ◌&&◌, ◌||◌, Option, some, none, List, [], ◌∷◌, ◌++◌, Bytes,
  codes, All, Among, NoRepeats, bytes_eq, if◌then◌else◌, is_empty, last?, pieces, keep_filled,
  separated, length, ◌==◌,
}
use dindexer.Redis.Find.{has_tag}
use dindexer.Redis.Tag.{ScriptRun, insert_tag}

-- `table.sort`: the elements of a list in another order.
pub record TableSort : Type 0 where
  pub sort : List Bytes → List Bytes
  pub sort_among : (l : List Bytes) (x : Bytes) → Among x (sort l) ↔ Among x l
  pub sort_once : (l : List Bytes) → NoRepeats l → NoRepeats (sort l)

-- The fields of files that the scripts use, and the sets of the tags, by their keys. A set without
-- elements is no key.
pub record KeySpace : Type 0 where
  pub group_id : Bytes → Option Bytes
  pub tags : Bytes → Option Bytes
  pub tag_set : Bytes → List Bytes

-- A map with another value at a key.
abbrev pub put_at {ℓ} : {A : Type ℓ} → (Bytes → A) → Bytes → A → Bytes → A
put_at f key v k = if bytes_eq k key then v else f k

-- `split_string`: the parts that are not empty.
abbrev pub split_string : Bytes → ℕ → List Bytes
split_string s sep = keep_filled (pieces sep s)

-- `table.concat` with a comma.
abbrev pub concat : List Bytes → Bytes
concat [] = []
concat (t ∷ ts) = t ++ separated b',' ts

-- The parts of a field of tags; a field that is not there is `false`.
abbrev pub tag_list_of : Option Bytes → List Bytes
tag_list_of none = []
tag_list_of (some s) = split_string s b','

abbrev pub is_missing_or_empty : Option Bytes → Bool
is_missing_or_empty none = true
is_missing_or_empty (some s) = is_empty s

unfoldable pub add_tag_to_list : TableSort → Option Bytes → Bytes → Bytes
unfolding has_tag
add_tag_to_list table tag_list new_tag =
    if is_missing_or_empty tag_list
    then new_tag
    else if has_tag new_tag (tag_list_of tag_list)
    then concat (table.sort (tag_list_of tag_list))
    else concat (table.sort (tag_list_of tag_list ++ new_tag ∷ []))

-- `table.remove` of the first part that is the tag.
unfoldable pub remove_first : Bytes → List Bytes → List Bytes
remove_first t [] = []
remove_first t (u ∷ us) = let rest = u ∷ remove_first t us in if bytes_eq u t then us else rest

unfoldable pub dele_tag_from_list : Option Bytes → Bytes → Bytes
unfolding remove_first
dele_tag_from_list tag_list dele_tag = concat (remove_first dele_tag (tag_list_of tag_list))

-- `SREM`.
unfoldable pub srem : List Bytes → Bytes → List Bytes
srem [] x = []
srem (y ∷ ys) x = let rest = srem ys x in if bytes_eq y x then rest else y ∷ rest

-- A value of Lua, as far as the scripts compare them.
pub data LuaValue : Type 0 where
  lua_string : Bytes → LuaValue
  lua_number : ℕ → LuaValue

-- `==` of Lua, which takes values of different types for different and converts none.
abbrev pub lua_eq : LuaValue → LuaValue → Bool
lua_eq (lua_string s) (lua_string t) = bytes_eq s t
lua_eq (lua_number n) (lua_number m) = n == m
lua_eq (lua_string s) (lua_number n) = false
lua_eq (lua_number n) (lua_string s) = false

-- `group_id ~= 0`: what a script gets in ARGV is a text.
abbrev pub is_not_zero : Bytes → Bool
is_not_zero group_id = not (lua_eq (lua_string group_id) (lua_number 0))

-- `found_group_id ~= group_id`.
abbrev pub other_group : Option Bytes → Bytes → Bool
other_group none group_id = true
other_group (some g) group_id = not (bytes_eq g group_id)

abbrev pub set_tags : KeySpace → Bytes → Bytes → Option Bytes → List Bytes → KeySpace
set_tags ks tag_key file_key field members = record {
  group_id = ks.group_id;
  tags = put_at ks.tags file_key field;
  tag_set = put_at ks.tag_set tag_key members;
}

-- The tag that a key names, behind the last colon. Every key that the program makes has one.
abbrev pub tag_of_key : Bytes → Bytes
tag_of_key key = last_or_empty (last? (split_string key b':'))
  where
    last_or_empty : Option Bytes → Bytes
    last_or_empty none = []
    last_or_empty (some t) = t

unfoldable pub tag_if_in_set : TableSort → Bytes → Bytes → Bytes → KeySpace → KeySpace
unfolding add_tag_to_list insert_tag
tag_if_in_set table tag_key file_key group_id ks =
    if is_not_zero group_id && other_group (ks.group_id file_key) group_id
    then ks
    else set_tags ks tag_key file_key
        (some (add_tag_to_list table (ks.tags file_key) (tag_of_key tag_key)))
        (insert_tag (ks.tag_set tag_key) file_key)

-- The field without the tag; an empty one is taken away.
abbrev pub field_of : Bytes → Option Bytes
field_of s = if is_empty s then none else some s

unfoldable pub dele_tag_if_in_set : Bytes → Bytes → Bytes → KeySpace → KeySpace
unfolding dele_tag_from_list srem
dele_tag_if_in_set tag_key file_key group_id ks =
    if is_not_zero group_id && other_group (ks.group_id file_key) group_id
    then ks
    else set_tags ks tag_key file_key
        (field_of (dele_tag_from_list (ks.tags file_key) (tag_of_key tag_key)))
        (srem (ks.tag_set tag_key) file_key)

-- The keys and the argument that tag.cpp gives to a script, where `text` is `lexical_cast` of an id.
module _ (text : ℕ → Bytes) where
  abbrev pub run_tag_key : ScriptRun → Bytes
  run_tag_key r = codes "dindexer:tag:" ++ r.tag

  abbrev pub run_file_key : ScriptRun → Bytes
  run_file_key r = codes "dindexer:file:" ++ text r.file_id

  -- The scripts of `tag_files`, one after the other.
  unfoldable pub run_tagging : TableSort → List ScriptRun → KeySpace → KeySpace
  unfolding tag_if_in_set
  run_tagging table [] ks = ks
  run_tagging table (r ∷ rs) ks =
      run_tagging table rs (tag_if_in_set table (run_tag_key r) (run_file_key r) (text r.set) ks)

  -- The scripts of `delete_tags`.
  unfoldable pub run_untagging : List ScriptRun → KeySpace → KeySpace
  unfolding dele_tag_if_in_set
  run_untagging [] ks = ks
  run_untagging (r ∷ rs) ks =
      run_untagging rs (dele_tag_if_in_set (run_tag_key r) (run_file_key r) (text r.set) ks)
