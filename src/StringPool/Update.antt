-- ===== src/StringPool/Update.antt =====
-- `update` and `insert` append the texts that they are given and keep the pool well-formed.
use dindexer.Boost.{StringFind}
use dindexer.Common.{
  StrRange, slice, ℕ, zero, suc, ◌+◌, ◌<◌, ◌≡◌, refl, ap, ap₂, sym, ◌∙◌, fun_ext, inl, inr, List,
  [], ◌∷◌, ◌++◌, map, map-append, append_assoc, append-nil, arith, Bytes, All, All-append, length,
  get_or, length-append, get_or-append_left, get_or-append_last, length-set, ◌==◌, if◌then◌else◌,
  Bool-cases, ==→eq,
}
use dindexer.StringPool.{
  StringPool, StringListPair, PoolItem, make_stringref, no_text, start_pos, update_one, update,
  update_pool, insert,
}
use dindexer.StringPool.View.{texts, ref, get_or-ref_text, substr-start_pos}
use dindexer.StringPool.Sources.{
  count, count-append, Grows-append, count_above, Grows-below, count_self,
}
use dindexer.StringPool.Valid.{
  IsValid, Known, Inside, sources, IsValid-Known, Round, reuse, grow, update_one-Round,
}

length-ref : (pool : List PoolItem) (k : ℕ) → length (ref pool k) ≡ length pool
length-ref pool k = length-set pool k _

get_or-ref_refs :
    (pool : List PoolItem) (k i : ℕ)
    → k < length pool
    → (get_or (ref pool k) i no_text).refs
      ≡ (get_or pool i no_text).refs + (if k == i then 1 else 0)
get_or-ref_refs [] k i h = elim h [ ]
get_or-ref_refs (q ∷ pool) zero zero h = refl
get_or-ref_refs (q ∷ pool) zero (suc i) h = ground arith
get_or-ref_refs (q ∷ pool) (suc k) zero h = ground arith
get_or-ref_refs (q ∷ pool) (suc k) (suc i) h = ground (arith, get_or-ref_refs pool k i)

make_stringref-ref :
    (pool : List PoolItem) (k : ℕ) → make_stringref (ref pool k) ≡ make_stringref pool
make_stringref-ref pool k = fun_ext (λ s. ap (slice s.range) (get_or-ref_text pool k s.source))

map-grown :
    (pool more : List PoolItem) (ss : List StringListPair)
    → Known pool ss
    → map (make_stringref (pool ++ more)) ss ≡ map (make_stringref pool) ss
map-grown pool more [] h = refl
map-grown pool more (s ∷ ss) (h, hs) =
    rw (get_or-append_left pool more s.source no_text h, map-grown pool more ss hs)

Inside-ref :
    (pool : List PoolItem) (k : ℕ) (ss : List StringListPair)
    → All (Inside pool) ss
    → All (Inside (ref pool k)) ss
Inside-ref pool k [] h = tt
Inside-ref pool k (s ∷ ss) (h, hs) =
    (rw (get_or-ref_text pool k s.source) h, Inside-ref pool k ss hs)

Inside-grown :
    (pool more : List PoolItem) (ss : List StringListPair)
    → Known pool ss
    → All (Inside pool) ss
    → All (Inside (pool ++ more)) ss
Inside-grown pool more [] k h = tt
Inside-grown pool more (s ∷ ss) (k, ks) (h, hs) =
    (rw (get_or-append_left pool more s.source no_text k) h, Inside-grown pool more ss ks hs)

counted-grown :
    (pool : List PoolItem) (remote : Bytes) (ss : List ℕ)
    → ((i : ℕ) → i < length pool → (get_or pool i no_text).refs ≡ count i ss)
    → All (λ s. s < length pool) ss
    → (i : ℕ) → i < length (pool ++ record { text = remote; refs = 1 } ∷ [])
    → (get_or (pool ++ record { text = remote; refs = 1 } ∷ []) i no_text).refs
      ≡ count i (ss ++ length pool ∷ [])
counted-grown pool remote ss counted below i h = elim (Bool-cases (i == length pool)) [
  | inl e ↦
      let e' : i ≡ length pool = ==→eq i (length pool) e in
      rw (e', get_or-append_last pool (record { text = remote; refs = 1 }) no_text)
        (omega (
          arith,
          count-append (length pool) ss (length pool ∷ []),
          count_self (length pool),
          count_above ss (length pool) (length pool) below,
        ))
  | inr ne ↦
      let lt : i < length pool =
        ground (arith, length-append pool (record { text = remote; refs = 1 } ∷ [])) in
      rw (get_or-append_left pool _ i no_text lt)
        (ground (arith, counted i lt, count-append i ss (length pool ∷ [])))
]

Round-texts :
    {p q : StringPool} {remote t : Bytes}
    → IsValid p
    → Round p remote t q
    → texts q ≡ texts p ++ t ∷ []
Round-texts {p} v (reuse s known same inside e) = rw (
  e,
  make_stringref-ref p.pool s.source,
  map-append (make_stringref p.pool) p.strings (s ∷ []),
  same,
)
Round-texts {p} {remote = remote} v (grow s at_end same inside e) = rw (
  e,
  map-append (make_stringref (p.pool ++ record { text = remote; refs = 1 } ∷ [])) p.strings
      (s ∷ []),
  map-grown p.pool _ p.strings (IsValid-Known p v),
  at_end,
  get_or-append_last p.pool (record { text = remote; refs = 1 }) no_text,
  same,
)

Round-IsValid : {p q : StringPool} {remote t : Bytes} → IsValid p → Round p remote t q → IsValid q
Round-IsValid {p} v (reuse s known same inside e) = rw e record {
  grows =
      rw (map-append (λ x. x.source) p.strings (s ∷ []), length-ref p.pool s.source)
        (Grows-append 0 (sources p) (length p.pool) (s.source ∷ []) (length p.pool) v.grows
          (inl (known, refl)));
  counted = λ i h.
      rw
        (
          map-append (λ x. x.source) p.strings (s ∷ []),
          count-append i (sources p) (s.source ∷ []),
          get_or-ref_refs p.pool s.source i known,
          v.counted i (omega (arith, h, length-ref p.pool s.source)),
        )
        (omega arith);
  inside =
      All-append (Inside (ref p.pool s.source)) p.strings (s ∷ [])
        (Inside-ref p.pool s.source p.strings v.inside)
        (Inside-ref p.pool s.source (s ∷ []) (inside, tt));
}
Round-IsValid {p} {remote = remote} v (grow s at_end same inside e) = rw e record {
  grows =
      rw
        (
          map-append (λ x. x.source) p.strings (s ∷ []),
          length-append p.pool (record { text = remote; refs = 1 } ∷ []),
        )
        (Grows-append 0 (sources p) (length p.pool) (s.source ∷ []) (length p.pool + 1) v.grows
          (inr (at_end, omega arith)));
  counted = λ i h.
      rw (map-append (λ x. x.source) p.strings (s ∷ []), at_end)
        (counted-grown p.pool remote (sources p) v.counted
          (Grows-below 0 (sources p) (length p.pool) v.grows) i h);
  inside =
      All-append (Inside (p.pool ++ record { text = remote; refs = 1 } ∷ [])) p.strings (s ∷ [])
        (Inside-grown p.pool _ p.strings (IsValid-Known p v) v.inside)
        (
          rw (at_end, get_or-append_last p.pool (record { text = remote; refs = 1 }) no_text)
              inside,
          tt,
        );
}

-- The texts that the pairs span in the base strings.
abbrev pub spans : List Bytes → List StringListPair → List Bytes
spans bases = map (λ s. slice s.range (get_or bases s.source []))

spans-refs :
    (base : Bytes) (rs : List StrRange)
    → spans
        (base ∷ [])
        (map (λ r. record { range = record { start = start_pos r; len = r.len }; source = 0 }) rs)
      ≡ map (λ r. slice r base) rs
spans-refs base [] = refl
spans-refs base (r ∷ rs) =
    ap₂ (λ x l. x ∷ l) (substr-start_pos r.start r.len base) (spans-refs base rs)

spans-pool :
    (pool : List PoolItem) (ss : List StringListPair)
    → spans (map (λ q. q.text) pool) ss ≡ map (make_stringref pool) ss
spans-pool pool ss =
    ap (λ f. map f ss) (fun_ext (λ s. ap (slice s.range) (get_or-text pool s.source)))
  where
    get_or-text :
        (pool : List PoolItem) (i : ℕ)
        → get_or (map (λ q. q.text) pool) i [] ≡ (get_or pool i no_text).text
    get_or-text [] i = refl
    get_or-text (q ∷ pool) zero = refl
    get_or-text (q ∷ pool) (suc i) = get_or-text pool i

module _ (boost : StringFind) where
  -- `update` keeps a well-formed pool well-formed: sources come into use in order, each reference
  -- count is the number of ranges into the source, and each range lies inside its source.
  pub update-IsValid :
      (p : StringPool) (ss : List StringListPair) (bases : List Bytes)
      → IsValid p
      → IsValid (update boost p ss bases)
  unfolding update
  update-IsValid p [] bases v = v
  update-IsValid p (s ∷ ss) bases v =
      update-IsValid (update_one boost p (get_or bases s.source []) s.range) ss bases
        (Round-IsValid v (update_one-Round boost p (get_or bases s.source []) s.range))

  -- For a well-formed pool, `update` appends the texts that its ranges span in their base strings,
  -- in order, and leaves the texts that the pool held as they were.
  pub texts-update :
      (p : StringPool) (ss : List StringListPair) (bases : List Bytes)
      → IsValid p
      → texts (update boost p ss bases) ≡ texts p ++ spans bases ss
  unfolding update
  texts-update p [] bases v = sym (append-nil (texts p))
  texts-update p (s ∷ ss) bases v =
      let r = update_one-Round boost p (get_or bases s.source []) s.range in
      texts-update (update_one boost p (get_or bases s.source []) s.range) ss bases
        (Round-IsValid v r)
      ∙ ap (λ l. l ++ spans bases ss) (Round-texts v r)
      ∙ append_assoc (texts p) _ (spans bases ss)

  pub insert-IsValid :
      (p : StringPool) (rs : List StrRange) (base : Bytes)
      → IsValid p
      → IsValid (insert boost p rs base)
  unfolding insert
  insert-IsValid p rs base = update-IsValid p _ (base ∷ [])

  -- `insert` appends the parts of the base string that it is given.
  pub texts-insert :
      (p : StringPool) (rs : List StrRange) (base : Bytes)
      → IsValid p
      → texts (insert boost p rs base) ≡ texts p ++ map (λ r. slice r base) rs
  unfolding insert
  texts-insert p rs base v =
      texts-update p _ (base ∷ []) v ∙ ap (λ l. texts p ++ l) (spans-refs base rs)

  pub update_pool-IsValid : (p other : StringPool) → IsValid p → IsValid (update_pool boost p other)
  unfolding update_pool
  update_pool-IsValid p other = update-IsValid p other.strings (map (λ q. q.text) other.pool)

  -- `update` from another pool appends that pool's texts.
  pub texts-update_pool :
      (p other : StringPool)
      → IsValid p
      → texts (update_pool boost p other) ≡ texts p ++ texts other
  unfolding update_pool
  texts-update_pool p other v =
      texts-update p other.strings _ v
      ∙ ap (λ l. texts p ++ l) (spans-pool other.pool other.strings)
