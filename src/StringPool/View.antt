-- ===== src/StringPool/View.antt =====
-- The texts that a pool holds, seen as a list.
use dindexer.Common.{
  slice, ℕ, zero, suc, ◌+◌, ◌<◌, ◌≤◌, ◌≡◌, refl, ap, ◌∙◌, inl, inr, Option, none, some, List, [],
  ◌∷◌, map, arith, Bytes, length, set, get_or, Option-cases, substr,
}
use mathlib.Core.Option
use dindexer.Boost.{StringFind}
use dindexer.StringPool.{
  StringPool, StringListPair, PoolItem, make_stringref, no_text, start_pos, clone_first,
}

-- The texts of the pool's ranges, in order.
abbrev pub texts : StringPool → List Bytes
texts p = map (make_stringref p.pool) p.strings

-- One more reference for the element at an index.
abbrev pub ref : List PoolItem → ℕ → List PoolItem
ref pool k =
    let q = get_or pool k no_text in set pool k (record { text = q.text; refs = q.refs + 1 })

pub get_or-ref_text :
    (pool : List PoolItem) (k i : ℕ)
    → (get_or (ref pool k) i no_text).text ≡ (get_or pool i no_text).text
get_or-ref_text [] k i = refl
get_or-ref_text (q ∷ pool) zero zero = refl
get_or-ref_text (q ∷ pool) zero (suc i) = refl
get_or-ref_text (q ∷ pool) (suc k) zero = refl
get_or-ref_text (q ∷ pool) (suc k) (suc i) = get_or-ref_text pool k i

-- What a successful `clone_first` did.
pub record Cloned (t : Bytes) (pool : List PoolItem) (idx : ℕ) (pool' : List PoolItem)
    (s : StringListPair) : Type 0 where
  pub k : ℕ
  pub in_pool : k < length pool
  pub source_at : s.source ≡ idx + k
  pub same_text : slice s.range (get_or pool k no_text).text ≡ t
  pub inside : s.range.start + s.range.len ≤ length (get_or pool k no_text).text
  pub one_ref : pool' ≡ ref pool k

pub substr-start_pos :
    (a l : ℕ) (s : Bytes) → substr (start_pos (record { start = a; len = l })) l s ≡ substr a l s
substr-start_pos a zero s = refl
substr-start_pos a (suc l) s = ap (λ (k : ℕ). substr k (suc l) s) (ground arith)

pub start_pos-le : (a l n : ℕ) → a + l ≤ n → start_pos (record { start = a; len = l }) + l ≤ n
start_pos-le a l n h = ground arith

-- The outcome of `clone_first`, when it finds the text in a source.
abbrev pub Outcome : Bytes → List PoolItem → ℕ → Option (List PoolItem × StringListPair) → Type 0
Outcome t pool idx none = Unit {0}
Outcome t pool idx (some (pool', s)) = Cloned t pool idx pool' s

Outcome-cons :
    (t : Bytes) (p : PoolItem) (ps : List PoolItem) (idx : ℕ)
    (o : Option (List PoolItem × StringListPair))
    → Outcome t ps (suc idx) o
    → Outcome t (p ∷ ps) idx (Option.map (λ r. (p ∷ r.0, r.1)) o)
Outcome-cons t p ps idx none c = tt
Outcome-cons t p ps idx (some (pool', s)) c = record {
  k = suc c.k;
  in_pool = omega (arith, c.in_pool);
  source_at = omega (arith, c.source_at);
  same_text = c.same_text;
  inside = c.inside;
  one_ref = ap (λ r. p ∷ r) c.one_ref;
}

module _ (boost : StringFind) where
  open boost use {find, find_within, find_occurs}

  pub clone_first-Outcome :
      (t : Bytes) (pool : List PoolItem) (idx : ℕ)
      → Outcome t pool idx (clone_first boost t pool idx)
  unfolding clone_first
  clone_first-Outcome t [] idx = tt
  clone_first-Outcome t (p ∷ ps) idx = elim (Option-cases (find p.text t)) [
    | inl e ↦ rw (e, clone_first) (Outcome-cons t p ps idx _ (clone_first-Outcome t ps (suc idx)))
    | inr (i, e) ↦
        rw (e, clone_first)
          record {
            k = 0;
            in_pool = omega arith;
            source_at = omega arith;
            same_text = substr-start_pos i (length t) p.text ∙ find_occurs p.text t i e;
            inside = start_pos-le i (length t) (length p.text) (find_within p.text t i e);
            one_ref = refl;
          }
  ]
