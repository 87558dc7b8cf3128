-- ===== src/Redis/Find.antt =====
-- src/backends/redis/find.cpp: what is found in the index. The replies of the server, the matches of
-- regular expressions, the conversion of numbers and upper case are parameters. A result is `none`
-- where the code throws, or reads the last element of an empty list.
pub mod Bursts
pub mod Tags
pub mod Files
pub mod Names
use dindexer.Common.{
  ℕ, ◌+◌, ◌-◌, ◌%◌, ◌^◌, ◌≡◌, Bool, true, false, ◌&&◌, ◌||◌, Option, some, none, List, [], ◌∷◌,
  ◌++◌, Bytes, codes, length, leb, ◌==◌, bytes_eq, if◌then◌else◌, last?, is_empty,
}
use dindexer.Boost.{Splitter}
use dindexer.Split

-- The reply to a request for three fields of a key; a field that is not there is nil.
pub record Row : Type 0 where
  pub first : Option Bytes
  pub second : Option Bytes
  pub third : Option Bytes

-- A step that may throw, in front of others that may.
abbrev pub and_then {ℓ κ} : {A : Type ℓ} {B : Type κ} → Option A → (A → Option B) → Option B
and_then none f = none
and_then (some a) f = f a

-- `std::find` in the parts that are not the end.
unfoldable pub has_tag : Bytes → List Bytes → Bool
has_tag t [] = false
has_tag t (u ∷ us) = let rest = has_tag t us in if bytes_eq u t then true else rest

-- The loop over the tags that are required.
unfoldable pub has_tags : List Bytes → List Bytes → Bool
unfolding has_tag
has_tags [] tags = true
has_tags (r ∷ rs) tags = let rest = has_tags rs tags in if has_tag r tags then rest else false

module _ {T : Type 0} (filter : Row → Bytes → Option Bool)
    (construct : Row → Bytes → Option T) where
  -- What one reply adds to the items that are found.
  abbrev pub add_item : Option Bool → Option T → Option (List T) → Option (List T)
  add_item none t rest = none
  add_item (some false) t rest = rest
  add_item (some true) none rest = none
  add_item (some true) (some t) none = none
  add_item (some true) (some t) (some ts) = some (t ∷ ts)

  unfoldable pub store_filtered_items : List Row → List Bytes → Option (List T)
  store_filtered_items [] ids = some []
  store_filtered_items (r ∷ rs) [] = some []
  store_filtered_items (r ∷ rs) (i ∷ is') =
      add_item (filter r i) (construct r i) (store_filtered_items rs is')

  -- `concatenate`: the items that were found so far, and those of a burst.
  abbrev pub concatenate : Option (List T) → Option (List T) → Option (List T)
  concatenate none ts = none
  concatenate (some r) none = none
  concatenate (some r) (some ts) = some (r ++ ts)

  abbrev pub prefetch_count : ℕ
  prefetch_count = 500

  module _ (hmget : Bytes → Row) (id_of : Bytes → Option Bytes) where
    -- The loop over the keys: the replies and ids of the burst, their count, and what is found.
    unfoldable pub bursts :
        List Bytes → List Row → List Bytes → ℕ → Option (List T) → Option (List T)
    unfolding store_filtered_items
    bursts [] batch ids curr_count retval =
        if curr_count == 0 then retval else concatenate retval (store_filtered_items batch ids)
    bursts (k ∷ ks) batch ids curr_count retval = and_then (id_of k) (λ i.
        let flushed =
          bursts ks [] [] 0
            (concatenate retval (store_filtered_items (batch ++ hmget k ∷ []) (ids ++ i ∷ []))) in
        let collected = bursts ks (batch ++ hmget k ∷ []) (ids ++ i ∷ []) (curr_count + 1) retval in
        if curr_count + 1 == prefetch_count then flushed else collected)

    unfoldable pub locate_in_bursts : List Bytes → Option (List T)
    unfolding bursts
    locate_in_bursts keys = bursts keys [] [] 0 (some [])

pub record LocatedItem : Type 0 where
  pub path : Bytes
  pub id : ℕ
  pub group_id : ℕ

pub record LocatedSet : Type 0 where
  pub desc : Bytes
  pub id : ℕ
  pub files_count : ℕ
  pub dir_count : ℕ

module _ (boost : Splitter) where
  pub all_tags_match : List Bytes → Bytes → Bool
  unfolding has_tags
  all_tags_match required taglist =
      let tags = Split.split_texts boost taglist b',' true true in
      if leb (length required) (length tags) then has_tags required tags else false

  -- The part of a key behind its last colon.
  unfoldable pub id_of_key : Bytes → Option Bytes
  id_of_key key = last? (Split.split_texts boost key b':' true true)

  -- The test for the tags, which reads the third field only if tags are asked for.
  pub tags_asked : List Bytes → Row → Option Bool
  unfolding all_tags_match
  tags_asked [] r = some true
  tags_asked (t ∷ ts) r = and_then r.third (λ taglist. some (all_tags_match (t ∷ ts) taglist))

  -- `regex_search` of a path for the expression is a parameter.
  pub matches : (Bytes → Bool) → List Bytes → Row → Bytes → Option Bool
  unfolding tags_asked
  matches regex_search tags r id =
      and_then (tags_asked tags r) (λ tagged.
        if tagged then and_then r.first (λ path. some (regex_search path)) else some false)

module _ (lexical_cast : Bytes → Option ℕ) where
  pub construct_item : Row → Bytes → Option LocatedItem
  construct_item r id = and_then r.first (λ path. and_then (lexical_cast id) (λ i.
      and_then (and_then r.second lexical_cast)
        (λ g. some (record { path = path; id = i; group_id = g }))))

  -- The difference of the counts is that of 32 bits.
  pub construct_set : Row → Bytes → Option LocatedSet
  construct_set r id = and_then (and_then r.second lexical_cast) (λ itm_count.
      and_then (and_then r.third lexical_cast) (λ dir_count. and_then r.first (λ desc.
        and_then (lexical_cast id) (λ i. some (record {
          desc = desc;
          id = i;
          files_count = (itm_count + 2 ^ 32 - dir_count) % 2 ^ 32;
          dir_count = dir_count;
        })))))

module _ (boost : Splitter) (lexical_cast : Bytes → Option ℕ) where
  unfoldable pub find_all_sets : List Bytes → Option (List ℕ)
  unfolding id_of_key
  find_all_sets [] = some []
  find_all_sets (k ∷ ks) =
      and_then (and_then (id_of_key boost k) lexical_cast)
        (λ i. and_then (find_all_sets ks) (λ is'. some (i ∷ is')))

  pub locate_in_db :
      (Bytes → Row) → List Bytes → (Bytes → Bool) → List Bytes → Option (List LocatedItem)
  unfolding locate_in_bursts matches construct_item id_of_key
  locate_in_db hmget keys regex_search tags =
      locate_in_bursts (matches boost regex_search tags) (construct_item lexical_cast) hmget
        (id_of_key boost) keys

  -- The ids that the set of a hash has, without those that are nil.
  abbrev pub present : List (Option Bytes) → List Bytes
  present [] = []
  present (none ∷ xs) = present xs
  present (some x ∷ xs) = x ∷ present xs

  abbrev pub rows_of : (Bytes → Row) → List Bytes → List Row
  rows_of hmget [] = []
  rows_of hmget (i ∷ is') = hmget (codes "dindexer:file:" ++ i) ∷ rows_of hmget is'

  -- `smembers` of the key of a hash is a parameter.
  pub locate_hash_in_db :
      (Bytes → Row) → Option (List (Option Bytes)) → List Bytes → Option (List LocatedItem)
  unfolding store_filtered_items tags_asked construct_item
  locate_hash_in_db hmget none tags = some []
  locate_hash_in_db hmget (some file_ids) tags =
      store_filtered_items (λ r id. tags_asked boost tags r) (construct_item lexical_cast)
        (rows_of hmget (present file_ids)) (present file_ids)
