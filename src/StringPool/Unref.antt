-- ===== src/StringPool/Unref.antt =====
-- Taking the last reference of a pool: what is left of the sources (`pop` of src/machinery/stringpool.inl).
use dindexer.Common.{
  slice, ℕ, zero, suc, ◌-◌, ◌<◌, ◌≡◌, refl, ap, sym, subst, ◌∙◌, fun_ext, inl, inr, List, [], ◌∷◌,
  ◌++◌, map, arith, All, length, set, get_or, erase_at, take, length-append, get_or-append_left,
  length-set, ◌==◌, if◌then◌else◌, snoc-cases, Bool-cases, ==→eq, erase_at-last,
}
use dindexer.StringPool.{
  decremented, StringPool, StringListPair, PoolItem, make_stringref, no_text, size, unref, pop_loop,
}
use dindexer.StringPool.Sources.{
  Grows, count, count-append, count-pos, count_above, Grows-below, count_self,
}
use dindexer.StringPool.Valid.{Known, Known-map, Inside}

pub pop_loop_found :
    (z j : ℕ) (p : StringPool)
    → j < z
    → pop_loop z j p ≡ record { pool = unref p.pool j; strings = take (size p - 1) p.strings }
unfolding pop_loop
pop_loop_found zero j p h = elim h [ ]
pop_loop_found (suc z) j p h = elim (Bool-cases (z == j)) [
  | inl e ↦ rw (e, ==→eq z j e)
  | inr ne ↦ rw ne (pop_loop_found z j p (ground arith))
]

-- `q` is the pool after the last of its ranges lost its reference to the source `j`.
pub record Dropped (pool q : List PoolItem) (ss : List StringListPair) : Type 0 where
  pub same_texts : map (make_stringref q) ss ≡ map (make_stringref pool) ss
  pub grows : Grows 0 (map (λ s. s.source) ss) (length q)
  pub counted :
      (i : ℕ) → i < length q → (get_or q i no_text).refs ≡ count i (map (λ s. s.source) ss)
  pub inside : All (Inside q) ss

module _ (pool : List PoolItem) (j r : ℕ) where
  abbrev reset : List PoolItem
  reset = set pool j (record { text = (get_or pool j no_text).text; refs = r })

get_or-reset_text :
    (pool : List PoolItem) (j r i : ℕ)
    → (get_or (reset pool j r) i no_text).text ≡ (get_or pool i no_text).text
get_or-reset_text [] j r i = refl
get_or-reset_text (q ∷ pool) zero r zero = refl
get_or-reset_text (q ∷ pool) zero r (suc i) = refl
get_or-reset_text (q ∷ pool) (suc j) r zero = refl
get_or-reset_text (q ∷ pool) (suc j) r (suc i) = get_or-reset_text pool j r i

get_or-reset_refs :
    (pool : List PoolItem) (j r i : ℕ)
    → j < length pool
    → (get_or (reset pool j r) i no_text).refs
      ≡ (if i == j then r else (get_or pool i no_text).refs)
get_or-reset_refs [] j r i h = elim h [ ]
get_or-reset_refs (q ∷ pool) zero r zero h = refl
get_or-reset_refs (q ∷ pool) zero r (suc i) h = ground arith
get_or-reset_refs (q ∷ pool) (suc j) r zero h = ground arith
get_or-reset_refs (q ∷ pool) (suc j) r (suc i) h = ground (arith, get_or-reset_refs pool j r i)

Inside-reset :
    (pool : List PoolItem) (j r : ℕ) (ss : List StringListPair)
    → All (Inside pool) ss
    → All (Inside (reset pool j r)) ss
Inside-reset pool j r [] h = tt
Inside-reset pool j r (s ∷ ss) (h, hs) =
    (rw (get_or-reset_text pool j r s.source) h, Inside-reset pool j r ss hs)

unref_lem :
    (pool : List PoolItem) (j n : ℕ)
    → (get_or pool j no_text).refs ≡ suc n
    → unref pool j ≡ (if n == 0 then erase_at pool j else reset pool j n)
unfolding unref
unref_lem pool j n e =
    ap (λ (left : ℕ). if left == 0 then erase_at pool j else reset pool j left) (ap decremented e)

map-Known :
    (qs more : List PoolItem) (ss : List StringListPair)
    → Known qs ss
    → map (make_stringref (qs ++ more)) ss ≡ map (make_stringref qs) ss
map-Known qs more [] k = refl
map-Known qs more (s ∷ ss) (k, ks) =
    rw (get_or-append_left qs more s.source no_text k, map-Known qs more ss ks)

Inside-Known :
    (qs more : List PoolItem) (ss : List StringListPair)
    → Known qs ss
    → All (Inside (qs ++ more)) ss
    → All (Inside qs) ss
Inside-Known qs more [] k h = tt
Inside-Known qs more (s ∷ ss) (k, ks) (h, hs) =
    (rw (sym (get_or-append_left qs more s.source no_text k)) h, Inside-Known qs more ss ks hs)

-- The last range shared its source: the count falls and the source stays.
pub Dropped-shared :
    (pool : List PoolItem) (ss : List StringListPair) (j : ℕ)
    → Grows 0 (map (λ s. s.source) ss) (length pool)
    → ((i : ℕ)
        → i < length pool
        → (get_or pool i no_text).refs ≡ count i (map (λ s. s.source) ss ++ j ∷ []))
    → All (Inside pool) ss
    → j < length pool
    → Dropped pool (unref pool j) ss
Dropped-shared pool ss j g c inside h = rw e record {
  same_texts =
      ap (λ f. map f ss) (fun_ext (λ s. ap (slice s.range) (get_or-reset_text pool j n s.source)));
  grows = rw (length-set pool j (record { text = (get_or pool j no_text).text; refs = n })) g;
  counted = λ i hi.
      let hi' : i < length pool =
        omega (
          arith,
          hi,
          length-set pool j (record { text = (get_or pool j no_text).text; refs = n }),
        ) in
      get_or-reset_refs pool j n i h
      ∙ ground (arith, c i hi', count-append i (map (λ s. s.source) ss) (j ∷ []), ==→eq i j);
  inside = Inside-reset pool j n ss inside;
}
  where
    n : ℕ
    n = count j (map (λ s. s.source) ss)

    pos : 0 < n
    pos = count-pos 0 (map (λ s. s.source) ss) (length pool) j g (omega arith) h

    refs_j : (get_or pool j no_text).refs ≡ suc n
    refs_j = omega (arith, c j h, count-append j (map (λ s. s.source) ss) (j ∷ []), count_self j)

    e : unref pool j ≡ reset pool j n
    e = unref_lem pool j n refs_j ∙ ground (arith, pos)

-- The last range was the only one into its source, which is the last of the pool and goes.
Dropped-last :
    (qs : List PoolItem) (q : PoolItem) (ss : List StringListPair) (j : ℕ)
    → Grows 0 (map (λ s. s.source) ss) j
    → j ≡ length qs
    → ((i : ℕ)
        → i < length (qs ++ q ∷ [])
        → (get_or (qs ++ q ∷ []) i no_text).refs ≡ count i (map (λ s. s.source) ss ++ j ∷ []))
    → All (Inside (qs ++ q ∷ [])) ss
    → Dropped (qs ++ q ∷ []) (unref (qs ++ q ∷ []) j) ss
Dropped-last qs q ss j g at_end c inside = rw e record {
  same_texts = sym (map-Known qs (q ∷ []) ss known);
  grows = subst (λ k. Grows 0 (map (λ s. s.source) ss) k) at_end g;
  counted = λ i hi.
      ap (λ x. x.refs) (sym (get_or-append_left qs (q ∷ []) i no_text hi))
      ∙ ground (
        arith,
        c i (omega (arith, hi, length-append qs (q ∷ []))),
        count-append i (map (λ s. s.source) ss) (j ∷ []),
      );
  inside = Inside-Known qs (q ∷ []) ss known inside;
}
  where
    below : All (λ s. s < j) (map (λ s. s.source) ss)
    below = Grows-below 0 (map (λ s. s.source) ss) j g

    known : Known qs ss
    known = Known-map qs ss (subst (λ k. All (λ s. s < k) (map (λ s. s.source) ss)) at_end below)

    refs_j : (get_or (qs ++ q ∷ []) j no_text).refs ≡ 1
    refs_j =
        c j (omega (arith, at_end, length-append qs (q ∷ [])))
        ∙ omega (
          arith,
          count-append j (map (λ s. s.source) ss) (j ∷ []),
          count_self j,
          count_above (map (λ s. s.source) ss) j j below,
        )

    e : unref (qs ++ q ∷ []) j ≡ qs
    e = unref_lem (qs ++ q ∷ []) j 0 refs_j ∙ rw at_end (erase_at-last qs q)

pub Dropped-only :
    (pool : List PoolItem) (ss : List StringListPair) (j : ℕ)
    → Grows 0 (map (λ s. s.source) ss) j
    → ((i : ℕ)
        → i < length pool
        → (get_or pool i no_text).refs ≡ count i (map (λ s. s.source) ss ++ j ∷ []))
    → All (Inside pool) ss
    → suc j ≡ length pool
    → Dropped pool (unref pool j) ss
Dropped-only pool ss j g c inside last = elim (snoc-cases pool) [
  | inl e ↦ absurd (omega (arith, last, ap length e))
  | inr (qs, q, e) ↦
      subst
        (λ pl.
          ((i : ℕ)
            → i < length pl
            → (get_or pl i no_text).refs ≡ count i (map (λ s. s.source) ss ++ j ∷ []))
          → All (Inside pl) ss
          → Dropped pl (unref pl j) ss)
        (sym e)
        (Dropped-last qs q ss j g (omega (arith, last, ap length e, length-append qs (q ∷ [])))) c
        inside
]
