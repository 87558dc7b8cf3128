-- ===== src/Launcher/FindActions.antt =====
-- src/main/findactions.c: the programs in the actions' directory. The entries of the directory and the
-- prefix of the build's configuration are parameters. A text of C is its bytes without the closing
-- zero; the names of entries are short enough for the buffer of `foreach_dir`.
use dindexer.Common.{
  ℕ, zero, suc, ◌+◌, ◌-◌, Bool, true, false, ◌&&◌, ◌||◌, Option, some, none, List, [], ◌∷◌, ◌++◌,
  map, Bytes, codes, length, drop, ◌==◌, bytes_eq, if◌then◌else◌,
}

-- An entry of the actions' directory; a directory may hold the program of an action.
pub record DirEntry : Type 0 where
  pub d_name : Bytes
  pub is_dir : Bool
  pub accessible : Bool

-- What follows the first slash, if there is one: `strchr`.
unfoldable pub after_slash : Bytes → Option Bytes
after_slash [] = none
after_slash (c ∷ s) = let rest = after_slash s in if c == b'/' then some s else rest

abbrev pub or_whole : Bytes → Option Bytes → Bytes
or_whole s none = s
or_whole s (some r) = r

-- How many slots of the array an action fills, and the actions themselves; `none` is a slot that is
-- allocated and never written.
abbrev pub Slots : Type 0
Slots = List (Option Bytes)

-- `strncmp` of a text with a whole prefix.
unfoldable pub has_prefix : Bytes → Bytes → Bool
has_prefix [] s = true
has_prefix (p ∷ ps) [] = false
has_prefix (p ∷ ps) (c ∷ s) = (c == p) && has_prefix ps s

-- `increase_actionlist`, for each action.
unfoldable pub count_actions : List Bytes → ℕ → ℕ
count_actions [] count = count
count_actions (a ∷ as') count = count_actions as' (count + 1)

-- `push_action`: an action beyond the count is left out.
unfoldable pub push_actions : List Bytes → ℕ → List Bytes → List Bytes
push_actions [] count list = list
push_actions (a ∷ as') count list =
    let full = push_actions as' count list in
    let pushed = push_actions as' count (list ++ a ∷ []) in
    if length list == count then full else pushed

-- The slots that stay empty.
abbrev pub unwritten : ℕ → Slots
unwritten zero = []
unwritten (suc n) = none ∷ unwritten n

module _ (prefix : Bytes) where
  -- The name is what follows the prefix, in the part behind the directory.
  unfoldable pub get_actionname : Bytes → Bytes
  unfolding after_slash
  get_actionname action = drop (length prefix) (or_whole action (after_slash action))

  -- What one entry adds to the actions: the program in a directory, or a program with the prefix.
  abbrev pub action_of : DirEntry → List Bytes
  action_of e =
      if bytes_eq e.d_name (codes ".") || bytes_eq e.d_name (codes "..")
      then []
      else if e.is_dir
      then (if e.accessible then (e.d_name ++ b'/' ∷ (prefix ++ e.d_name)) ∷ [] else [])
      else if has_prefix prefix e.d_name
      then e.d_name ∷ []
      else []

  unfoldable pub foreach_dir : List DirEntry → List Bytes
  unfolding has_prefix
  foreach_dir [] = []
  foreach_dir (e ∷ es) = action_of e ++ foreach_dir es

  -- The slots, before they are sorted. The directory is read twice.
  unfoldable pub find_slots : List DirEntry → List DirEntry → Slots
  unfolding foreach_dir count_actions push_actions
  find_slots first second =
      let count = count_actions (foreach_dir first) 0 in
      let list = push_actions (foreach_dir second) count [] in
      map some list ++ unwritten (count - length list)
