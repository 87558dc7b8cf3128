-- ===== src/StringPool.antt =====
-- src/machinery/stringpool.hpp and stringpool.inl: a pool of source texts with reference counts, and
-- a list of ranges into them. A `string_ref` into a source text is the range that it spans.
pub mod View
pub mod Sources
pub mod Valid
pub mod Update
pub mod Unref
pub mod Pop
use dindexer.Common.{
  ℕ, zero, suc, ◌+◌, ◌-◌, ◌^◌, Option, none, some, List, [], ◌∷◌, ◌++◌, map, Bytes, StrRange, slice,
  length, Bool, get_or, set, erase_at, take, last?, ◌==◌, if◌then◌else◌,
}
use mathlib.Core.Option
use dindexer.Boost.{StringFind}

-- `StringListPair`: a range and the index of its source in the pool.
pub record StringListPair : Type 0 where
  pub range : StrRange
  pub source : ℕ

-- An element of `PoolType`: a source text and the number of ranges that point into it.
pub record PoolItem : Type 0 where
  pub text : Bytes
  pub refs : ℕ

pub record StringPool : Type 0 where
  pub pool : List PoolItem
  pub strings : List StringListPair

abbrev pub empty_pool : StringPool
empty_pool = record { pool = []; strings = [] }

abbrev pub no_text : PoolItem
no_text = record { text = []; refs = 0 }

abbrev pub no_range : StringListPair
no_range = record { range = record { start = 0; len = 0 }; source = 0 }

-- `implem::start_pos`: the offset of a part in its source, 0 for the empty part.
abbrev pub start_pos : StrRange → ℕ
start_pos r = if r.len == 0 then 0 else r.start

abbrev pub size : StringPool → ℕ
size p = length p.strings

abbrev pub is_empty_pool : StringPool → Bool
is_empty_pool p = size p == 0

abbrev pub make_stringref : List PoolItem → StringListPair → Bytes
make_stringref pool s = slice s.range (get_or pool s.source no_text).text

-- `operator[]`, at an index in range.
abbrev pub item : StringPool → ℕ → Bytes
item p i = make_stringref p.pool (get_or p.strings i no_range)

-- The range that `operator[]` spans, and its source: `get_stringref_source`.
abbrev pub item_range : StringPool → ℕ → StrRange
item_range p i = (get_or p.strings i no_range).range

abbrev pub item_source : StringPool → ℕ → Bytes
item_source p i = (get_or p.pool (get_or p.strings i no_range).source no_text).text

module _ (boost : StringFind) where
  open boost use {find}

  -- `implem::clone_ifp`: the same text as a part of another source, if it occurs there.
  abbrev pub clone_ifp : Bytes → Bytes → Option StrRange
  clone_ifp t source = Option.map (λ i. record { start = i; len = length t }) (find source t)

  -- The loop over `m_pool`: the first source that holds the text gets one more reference.
  unfoldable pub clone_first : Bytes → List PoolItem → ℕ → Option (List PoolItem × StringListPair)
  clone_first t [] idx = none
  clone_first t (p ∷ ps) idx =
      let rest = Option.map (λ r. (p ∷ r.0, r.1)) (clone_first t ps (suc idx)) in
      elim (clone_ifp t p.text) [
        | some r ↦ some (
          record p { refs = p.refs + 1 } ∷ ps,
          record { range = record { start = start_pos r; len = r.len }; source = idx },
        )
        | none ↦ rest
      ]

  -- One round of `update`: `r` is the range of the text in its remote source, inside of it; `substr` throws
  -- for one that begins behind its end.
  unfoldable pub update_one : StringPool → Bytes → StrRange → StringPool
  update_one p remote r = elim (clone_first (slice r remote) p.pool 0) [
    | some (pool, s) ↦ record { pool = pool; strings = p.strings ++ s ∷ [] }
    | none ↦ record {
      pool = p.pool ++ record { text = remote; refs = 1 } ∷ [];
      strings =
          p.strings
          ++ record {
            range = record {
              start = start_pos (record { start = r.start; len = length (slice r remote) });
              len = length (slice r remote);
            };
            source = length p.pool;
          }
            ∷ [];
    }
  ]

  -- `update` over a range of pairs, whose indices go into `parBaseStrings`.
  unfoldable pub update : StringPool → List StringListPair → List Bytes → StringPool
  update p [] bases = p
  update p (s ∷ ss) bases = update (update_one p (get_or bases s.source []) s.range) ss bases

  pub update_pool : StringPool → StringPool → StringPool
  update_pool p other = update p other.strings (map (λ q. q.text) other.pool)

  unfoldable pub insert : StringPool → List StrRange → Bytes → StringPool
  insert p refs base =
      update p
        (map (λ r. record { range = record { start = start_pos r; len = r.len }; source = 0 }) refs)
        (base ∷ [])

-- `--` of a `std::size_t`, which wraps around at 0.
abbrev pub decremented : ℕ → ℕ
decremented zero = 2 ^ 64 - 1
decremented (suc n) = n

-- Take one reference from the element at an index, and the element away with its last one.
unfoldable pub unref : List PoolItem → ℕ → List PoolItem
unref pool i =
    let left = decremented (get_or pool i no_text).refs in
    if left == 0
    then erase_at pool i
    else set pool i (record { text = (get_or pool i no_text).text; refs = left })

-- The loop of `pop`, from the end of the pool, with `j` the source of the last range.
unfoldable pub pop_loop : ℕ → ℕ → StringPool → StringPool
pop_loop zero j p = p
pop_loop (suc z) j p =
    let rest = pop_loop z j p in
    if z == j then record { pool = unref p.pool z; strings = take (size p - 1) p.strings } else rest

unfoldable pub pop : StringPool → StringPool
pop p = elim (last? p.strings) [ none ↦ p | some s ↦ pop_loop (length p.pool) s.source p ]

pub swap : StringPool → StringPool → StringPool × StringPool
swap p other = (
  record { pool = other.pool; strings = other.strings },
  record { pool = p.pool; strings = p.strings },
)
