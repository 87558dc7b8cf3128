-- ===== src/EntryPath.antt =====
-- src/navigate/entrypath.cpp: the path that the navigator stands on, a stack whose first element is
-- the id of a set. The grammar that cuts a piece into its items is written out: its rules try their
-- alternatives in order, and stop at the first place where no item can go on.
pub mod Stack
pub mod Grammar
use dindexer.Common.{
  ℕ, suc, zero, ◌+◌, ◌*◌, ◌-◌, ◌%◌, ◌^◌, ◌≡◌, ◌≢◌, Bool, true, false, ◌&&◌, Option, some, none,
  List, [], ◌∷◌, ◌++◌, Bytes, All, Lacks, length, take, drop, ◌==◌, bytes_eq, if◌then◌else◌,
  is_empty, separated, leb,
}

pub record EntryPath : Type 0 where
  pub stack : List Bytes

-- One item: ".." drops the last item, "." does nothing, any other is appended.
unfoldable pub push_item : List Bytes → Bytes → List Bytes
push_item stack i =
    if bytes_eq i (b'.' ∷ b'.' ∷ [])
    then (if length stack == 0 then stack else take (length stack - 1) stack)
    else if bytes_eq i (b'.' ∷ [])
    then stack
    else stack ++ i ∷ []

-- The loop over the items of a piece.
unfoldable pub push_items : List Bytes → List Bytes → List Bytes
unfolding push_item
push_items stack [] = stack
push_items stack (i ∷ is') = push_items (push_item stack i) is'

abbrev pub starts_at_root : Bytes → Bool
starts_at_root [] = false
starts_at_root (c ∷ s) = c == b'/'

-- The value of a hexadecimal digit.
abbrev pub hex_digit : ℕ → Option ℕ
hex_digit c =
    if leb b'0' c && leb c b'9'
    then some (c - b'0')
    else if leb b'a' c && leb c b'f'
    then some (c - b'a' + 10)
    else if leb b'A' c && leb c b'F'
    then some (c - b'A' + 10)
    else none

-- `hex_chara` and `hex_to_str`: two digits are one byte.
abbrev pub hex_chara : Option ℕ → Option ℕ → Option ℕ
hex_chara (some a) (some b) = some (16 * a + b)
hex_chara (some a) none = none
hex_chara none b = none

-- The rule `hex_code`, on what follows a backslash.
abbrev pub hex_code : Bytes → Option ℕ
hex_code [] = none
hex_code (x ∷ []) = none
hex_code (x ∷ a ∷ []) = none
hex_code (x ∷ a ∷ b ∷ s) = if x == b'x' then hex_chara (hex_digit a) (hex_digit b) else none

-- The byte that an escape stands for, and how many bytes of the text follow the backslash.
abbrev pub hex_or_char : Option ℕ → Bytes → Option (ℕ × ℕ)
hex_or_char (some v) s = some (v, 3)
hex_or_char none [] = none
hex_or_char none (c ∷ s) = some (c, 1)

-- The rule `escape`, after its backslash.
unfoldable pub escape : Bytes → Option (ℕ × ℕ)
escape s = hex_or_char (hex_code s) s

-- What the item that goes on here still gets, and the items after it.
abbrev pub Items : Type 0
Items = Bytes × List Bytes

-- The item that goes on here, if any, in front of those after it.
abbrev pub closed : Items → List Bytes
closed (i, is') = if is_empty i then is' else i ∷ is'

abbrev pub with_chara : ℕ → Items → Items
with_chara c (i, is') = (c ∷ i, is')

-- The rules `start` and `diritem`; as many bytes as an escape takes are passed over. An escape that
-- stands for nothing ends the text.
unfoldable pub items_from : ℕ → Bytes → Items
unfolding escape
items_from skip [] = ([], [])
items_from (suc k) (c ∷ s) = items_from k s
items_from zero (c ∷ s) =
    if c == b'/'
    then ([], closed (items_from 0 s))
    else if c == b'\\'
    then elim (escape s) [ none ↦ ([], []) | some (v, k) ↦ with_chara v (items_from k s) ]
    else with_chara c (items_from 0 s)

-- `parse` with `PathGrammar`, which accepts a beginning of every text.
unfoldable pub parse : Bytes → Option (List Bytes)
unfolding items_from
parse piece = some (closed (items_from 0 piece))

-- A piece that the grammar refuses would change nothing.
unfoldable pub push_piece : EntryPath → Bytes → EntryPath
unfolding push_items parse
push_piece p piece = elim (parse piece) [
  | none ↦ p
  | some items ↦ record { stack = push_items (if starts_at_root piece then [] else p.stack) items }
]

unfoldable pub entry_path : Bytes → EntryPath
unfolding push_piece
entry_path piece = push_piece (record { stack = [] }) piece

-- Items with a slash between them: `infix_ostream_iterator`.
abbrev pub infix_slash : List Bytes → Bytes
infix_slash [] = []
infix_slash (i ∷ is') = i ++ separated b'/' is'

pub to_string : EntryPath → Bytes
to_string p = b'/' ∷ infix_slash p.stack

unfoldable pub level : EntryPath → ℕ
level p = if length p.stack == 0 then 0 else (length p.stack - 1) % 2 ^ 16

pub group_id_as_string : EntryPath → Bytes
group_id_as_string p = elim p.stack [ [] ↦ [] | i ∷ is' ↦ i ]

-- `boost::lexical_cast` of the first element to a number is a parameter, `none` if it throws.
unfoldable pub group_id : (Bytes → Option ℕ) → EntryPath → Option ℕ
group_id lexical_cast p = elim p.stack [ [] ↦ some 0 | i ∷ is' ↦ lexical_cast i ]

pub file_path : EntryPath → Bytes
file_path p = infix_slash (drop 1 p.stack)

unfoldable pub points_to_group : EntryPath → Bool
points_to_group p = length p.stack == 0
