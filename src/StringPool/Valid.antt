-- ===== src/StringPool/Valid.antt =====
-- The well-formedness of a pool, and what one round of `update` does to it.
use dindexer.Boost.{StringFind}
use dindexer.Common.{
  StrRange, slice, ℕ, zero, suc, ◌+◌, ◌<◌, ◌≤◌, ◌≡◌, refl, ap, subst, ◌∙◌, inl, inr, some, List, [],
  ◌∷◌, ◌++◌, map, arith, Bytes, All, length, get_or, Option-cases, take, drop, length-take,
  length-drop,
}
use dindexer.StringPool.{
  StringPool, StringListPair, PoolItem, empty_pool, make_stringref, no_text, start_pos, clone_first,
  update_one,
}
use dindexer.StringPool.View.{ref, Cloned, Outcome, clone_first-Outcome, substr-start_pos}
use dindexer.StringPool.Sources.{Grows, count, Grows-below}

abbrev pub sources : StringPool → List ℕ
sources p = map (λ s. s.source) p.strings

-- The range lies inside its source.
abbrev pub Inside : List PoolItem → StringListPair → Type 0
Inside pool s = s.range.start + s.range.len ≤ length (get_or pool s.source no_text).text

-- Sources come into use in order, each reference count is the number of ranges into the source, and
-- each range lies inside its source.
pub record IsValid (p : StringPool) : Type 0 where
  pub grows : Grows 0 (sources p) (length p.pool)
  pub counted : (i : ℕ) → i < length p.pool → (get_or p.pool i no_text).refs ≡ count i (sources p)
  pub inside : All (Inside p.pool) p.strings

pub empty_pool-IsValid : IsValid empty_pool
empty_pool-IsValid = record { grows = refl; counted = λ i h. elim h [ ]; inside = tt }

-- Every source index is one of the pool.
abbrev pub Known : List PoolItem → List StringListPair → Type 0
Known pool = All (λ s. s.source < length pool)

pub Known-map :
    (pool : List PoolItem) (ss : List StringListPair)
    → All (λ s. s < length pool) (map (λ s. s.source) ss)
    → Known pool ss
Known-map pool [] h = tt
Known-map pool (s ∷ ss) (h, hs) = (h, Known-map pool ss hs)

pub IsValid-Known : (p : StringPool) → IsValid p → Known p.pool p.strings
IsValid-Known p v = Known-map p.pool p.strings (Grows-below 0 (sources p) (length p.pool) v.grows)

take-length-take : (n : ℕ) (xs : Bytes) → take (length (take n xs)) xs ≡ take n xs
take-length-take zero xs = refl
take-length-take (suc n) [] = refl
take-length-take (suc n) (x ∷ xs) = ap (λ r. x ∷ r) (take-length-take n xs)

-- How one round of `update` ends: a source that holds the text is reused, or the remote text becomes
-- the last source.
pub data Round (p : StringPool) (remote t : Bytes) (q : StringPool) : Type 0 where
  reuse :
      (s : StringListPair)
      → s.source < length p.pool
      → make_stringref p.pool s ≡ t
      → Inside p.pool s
      → q ≡ record { pool = ref p.pool s.source; strings = p.strings ++ s ∷ [] }
      → Round p remote t q
  grow :
      (s : StringListPair)
      → s.source ≡ length p.pool
      → slice s.range remote ≡ t
      → s.range.start + s.range.len ≤ length remote
      → q ≡ record {
        pool = p.pool ++ record { text = remote; refs = 1 } ∷ [];
        strings = p.strings ++ s ∷ [];
      }
      → Round p remote t q

fresh_range : Bytes → StrRange → StrRange
fresh_range remote r =
    let n = length (slice r remote) in
    record { start = start_pos (record { start = r.start; len = n }); len = n }

fresh_range-inside :
    (remote : Bytes) (r : StrRange)
    → (fresh_range remote r).start + (fresh_range remote r).len ≤ length remote
unfolding fresh_range
fresh_range-inside remote r =
    ground (arith, length-take r.len (drop r.start remote), length-drop r.start remote)

module _ (boost : StringFind) where
  pub update_one-Round :
      (p : StringPool) (remote : Bytes) (r : StrRange)
      → Round p remote (slice r remote) (update_one boost p remote r)
  unfolding update_one fresh_range
  update_one-Round p remote r = elim (Option-cases (clone_first boost (slice r remote) p.pool 0)) [
    | inl e ↦
        grow (record { range = fresh_range remote r; source = length p.pool }) refl
          (substr-start_pos r.start (length (slice r remote)) remote
            ∙ take-length-take r.len (drop r.start remote))
          (fresh_range-inside remote r) (rw (e, update_one))
    | inr ((pool, s), e) ↦ reused pool s e (
        subst (Outcome (slice r remote) p.pool 0) e
          (clone_first-Outcome boost (slice r remote) p.pool 0))
  ]
    where
      reused :
          (pool : List PoolItem) (s : StringListPair)
          → clone_first boost (slice r remote) p.pool 0 ≡ some (pool, s)
          → Cloned (slice r remote) p.pool 0 pool s
          → Round p remote (slice r remote) (update_one boost p remote r)
      reused pool s e c =
          let at_k : s.source ≡ c.k = omega (arith, c.source_at) in
          reuse s (omega (arith, at_k, c.in_pool)) (rw at_k c.same_text) (rw at_k c.inside)
            (rw (e, update_one) (rw (at_k, c.one_ref)))
