-- ===== src/PathName.antt =====
-- src/machinery/pathname.hpp and pathname.cpp: a path as a pool of its atoms, with a flag for
-- absolute paths.
pub mod Atoms
pub mod Joint
pub mod Order
pub mod Edit
pub mod Parse
pub mod Reserve
pub mod Relative
use dindexer.Common.{
  ℕ, zero, suc, ◌+◌, ◌-◌, ◌≡◌, Bool, true, false, not, ◌&&◌, ◌||◌, Option, none, some, List, [],
  ◌∷◌, ◌++◌, map, Bytes, length, get_or, take, last?, ◌==◌, ltb, leb, if◌then◌else◌, bytes_eq, min,
  drop, StrRange,
}
use mathlib.Core.Option
use dindexer.Boost.{StringFind, Splitter}
use dindexer.Split
use dindexer.StringPool
use dindexer.StringPool.{StringPool, empty_pool, size, item, is_empty_pool}

abbrev pub slash : ℕ
slash = b'/'

pub record PathName : Type 0 where
  pub atoms : StringPool
  pub absolute : Bool

abbrev pub is_absolute : PathName → Bool
is_absolute p = p.absolute

abbrev pub atom_count : PathName → ℕ
atom_count p = size p.atoms

-- `operator[]`.
abbrev pub atom : PathName → ℕ → Bytes
atom p i = item p.atoms i

abbrev pub get_adjusted_atom_count : StringPool → ℕ → ℕ
get_adjusted_atom_count pool skip = if leb (size pool) skip then 0 else size pool - skip

-- The loop over the sizes of the atoms from `z` on, `rounds` of them.
unfoldable pub add_sizes : StringPool → ℕ → ℕ → ℕ → ℕ
add_sizes pool zero z reserve = reserve
add_sizes pool (suc rounds) z reserve =
    add_sizes pool rounds (suc z) (reserve + length (item pool z))

unfoldable pub calc_join_size : StringPool → Bool → ℕ → ℕ
calc_join_size pool abs skip =
    let count = get_adjusted_atom_count pool skip in
    if count == 0
    then (if is_empty_pool pool && abs then 1 else 0)
    else add_sizes pool count 0 (if abs then 1 else 0) + (count - 1)

-- The loop that writes the atoms from `z` on.
unfoldable pub join_atoms : StringPool → ℕ → ℕ → Bytes → Bytes → Bytes
join_atoms pool zero z mark out = out
join_atoms pool (suc rounds) z mark out =
    join_atoms pool rounds (suc z) (slash ∷ []) (out ++ (mark ++ item pool z))

unfoldable pub get_joint_atoms : StringPool → Bool → ℕ → Bytes
get_joint_atoms pool abs skip =
    let reserve = calc_join_size pool abs skip in
    if reserve == 0
    then []
    else if (reserve == 1) && abs
    then slash ∷ []
    else join_atoms pool (get_adjusted_atom_count pool skip) 0 (if abs then slash ∷ [] else []) []

-- How often `parDelim` begins a group, with `prev` the byte before.
pub count_grouped : Bytes → ℕ → ℕ → ℕ
count_grouped [] delim prev = 0
count_grouped (c ∷ s) delim prev =
    (if (delim == c) && not (prev == delim) then 1 else 0) + count_grouped s delim c

-- `std::find` of a byte: how many bytes stand before it.
unfoldable pub find_byte : ℕ → Bytes → Option ℕ
find_byte b [] = none
find_byte b (c ∷ s) = let rest = Option.map suc (find_byte b s) in if c == b then some 0 else rest

abbrev pub push_range : ℕ → ℕ → List StrRange → List StrRange
push_range from len out = if len == 0 then out else out ++ record { start = from; len = len } ∷ []

-- The loop of `split_path`: `s` is the text from the offset `from` to the end.
unfoldable pub split_loop : ℕ → ℕ → Bytes → List StrRange → List StrRange
split_loop zero from s out = out
split_loop (suc fuel) from s out = elim (find_byte slash s) [
  | none ↦ push_range from (length s) out
  | some n ↦ split_loop fuel (from + n + 1) (drop (n + 1) s) (push_range from n out)
]

-- Each round but the last drops a byte, so the length and one more round are enough.
unfoldable pub split_path : Bytes → List StrRange
unfolding split_loop
split_path s = split_loop (suc (length s)) 0 s []

abbrev pub begins_with_slash : Bytes → Bool
begins_with_slash [] = false
begins_with_slash (c ∷ s) = c == slash

abbrev pub ends_with_slash : Bytes → Bool
ends_with_slash s = elim (last? s) [ none ↦ false | some c ↦ c == slash ]

-- The number of atoms that the constructor reserves room for.
pub reserved_atoms : Bytes → ℕ
unfolding count_grouped
reserved_atoms s =
    count_grouped s slash 0
    + 1
    - (if ends_with_slash s then 1 else 0)
    - (if begins_with_slash s then 1 else 0)

unfoldable pub path : PathName → Bytes
path p = get_joint_atoms p.atoms p.absolute 0

pub str_path_size : PathName → ℕ
str_path_size p = calc_join_size p.atoms p.absolute 0

pub dirname : PathName → Bytes
dirname p = if atom_count p == 0 then [] else get_joint_atoms p.atoms p.absolute 1

pub basename : PathName → Bytes
basename p = if atom_count p == 0 then [] else atom p (atom_count p - 1)

unfoldable pub pop_right : PathName → PathName
pop_right p = record p { atoms = StringPool.pop p.atoms }

pub swap : PathName → PathName → PathName × PathName
swap p other = (
  record { atoms = other.atoms; absolute = other.absolute },
  record { atoms = p.atoms; absolute = p.absolute },
)

-- The loop that compares the atoms from `z` on: whether all of them agree.
unfoldable pub same_atoms : PathName → PathName → ℕ → ℕ → Bool
same_atoms p q zero z = true
same_atoms p q (suc rounds) z =
    let rest = same_atoms p q rounds (suc z) in
    if bytes_eq (atom p z) (atom q z) then rest else false

pub path_eq : PathName → PathName → Bool
path_eq p q = if atom_count p == atom_count q then same_atoms p q (atom_count p) 0 else false

unfoldable pub path_ne : PathName → PathName → Bool
path_ne p q = if atom_count p == atom_count q then not (same_atoms p q (atom_count p) 0) else true

unfoldable pub is_ancestor : PathName → PathName → ℕ → Bool
is_ancestor ancestor child max_levels =
    let anc = atom_count ancestor in
    let cld = atom_count child in
    if leb cld (anc + max_levels) || (max_levels == 0)
    then same_atoms ancestor child (min anc cld) 0
    else false

unfoldable pub are_siblings : PathName → PathName → Bool
are_siblings a b =
    let count = atom_count a in
    if not (count == atom_count b)
    then false
    else if leb count 1
    then true
    else same_atoms a b (count - 1) 0

-- The loop of `make_relative_path` that counts the leading atoms in common.
pub common_atoms : PathName → PathName → ℕ → ℕ → ℕ
common_atoms p q zero z = 0
common_atoms p q (suc rounds) z =
    let rest = suc (common_atoms p q rounds (suc z)) in
    if bytes_eq (atom p z) (atom q z) then rest else 0

module _ (find : StringFind) where
  -- The constructor.
  unfoldable pub path_name : Bytes → PathName
  path_name [] = record { atoms = empty_pool; absolute = false }
  path_name (c ∷ s) = record {
    atoms = StringPool.insert find empty_pool (split_path (c ∷ s)) (c ∷ s);
    absolute = c == slash;
  }

  pub join : PathName → PathName → PathName
  join p other = record p { atoms = StringPool.update_pool find p.atoms other.atoms }

  module _ (boost : Splitter) where
    -- `join` of a part of a source string: its atoms, as ranges of the source.
    pub join_part : PathName → StrRange → Bytes → PathName
    join_part p part source = record p {
      atoms =
          StringPool.insert find p.atoms (Split.split_part boost part source slash false true)
            source;
    }

    pub join_text : PathName → Bytes → PathName
    unfolding join_part
    join_text p text = join_part p (record { start = 0; len = length text }) text

    -- The loop that writes the "..".
    pub join_ellipses : ℕ → PathName → PathName
    unfolding join_text
    join_ellipses zero p = p
    join_ellipses (suc n) p = join_ellipses n (join_text p (b'.' ∷ b'.' ∷ []))

    -- The loop that writes the atoms of the other path from `z` on.
    pub join_rest : PathName → ℕ → ℕ → PathName → PathName
    unfolding join_part
    join_rest other zero z p = p
    join_rest other (suc n) z p =
        join_rest other n (suc z)
          (join_part p (StringPool.item_range other.atoms z) (StringPool.item_source other.atoms z))

    pub make_relative_path : PathName → PathName → PathName
    unfolding join_ellipses join_rest
    make_relative_path base other =
        let common = common_atoms other base (min (atom_count other) (atom_count base)) 0 in
        let start = path_name [] in
        if not base.absolute && other.absolute
        then other
        else join_rest other (atom_count other - common) common
            (join_ellipses (atom_count base - common) start)
