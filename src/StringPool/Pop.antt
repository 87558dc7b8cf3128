-- ===== src/StringPool/Pop.antt =====
-- `pop` takes the last text away and keeps the pool well-formed: the source that it erases is always
-- the last one, so no index has to be renumbered.
use dindexer.Common.{
  ℕ, suc, ◌-◌, ◌<◌, ◌≡◌, ap, sym, subst, ◌∙◌, ◌⊎◌, inl, inr, none, List, [], ◌∷◌, ◌++◌, map,
  map-append, arith, All, All-append_left, length, get_or, take, last?, length-append, length-map,
  snoc-cases, last?-append, take-append_length,
}
use dindexer.StringPool.{StringPool, StringListPair, make_stringref, no_text, size, unref, pop}
use dindexer.StringPool.View.{texts}
use dindexer.StringPool.Sources.{Grows, count, Grows-snoc}
use dindexer.StringPool.Valid.{IsValid, Inside, sources}
use dindexer.StringPool.Unref.{pop_loop_found, Dropped, Dropped-shared, Dropped-only}

-- `pop` of a well-formed pool that holds a text.
record Popped (p : StringPool) (ss : List StringListPair) (s : StringListPair) : Type 0 where
  known : s.source < length p.pool
  dropped : Dropped p.pool (unref p.pool s.source) ss

popped_lem :
    (p : StringPool) (ss : List StringListPair) (s : StringListPair)
    → IsValid p
    → p.strings ≡ ss ++ s ∷ []
    → Popped p ss s
popped_lem p ss s v e =
    let snoc : sources p ≡ map (λ x. x.source) ss ++ s.source ∷ [] =
      ap (map (λ x. x.source)) e ∙ map-append (λ x. x.source) ss (s ∷ []) in
    let inside : All (Inside p.pool) ss =
      All-append_left (Inside p.pool) ss (s ∷ []) (subst (All (Inside p.pool)) e v.inside) in
    let counted : ((i : ℕ)
        → i < length p.pool
        → (get_or p.pool i no_text).refs ≡ count i (map (λ x. x.source) ss ++ s.source ∷ [])) =
      λ i h. v.counted i h ∙ ap (count i) snoc in
    let (k, g, last) =
      Grows-snoc 0 (map (λ x. x.source) ss) s.source (length p.pool)
        (subst (λ l. Grows 0 l (length p.pool)) snoc v.grows) in
    cases inside counted k g last
  where
    cases :
        All (Inside p.pool) ss
        → ((i : ℕ)
            → i < length p.pool
            → (get_or p.pool i no_text).refs ≡ count i (map (λ x. x.source) ss ++ s.source ∷ []))
        → (k : ℕ) → Grows 0 (map (λ x. x.source) ss) k
        → (((s.source < k) × (k ≡ length p.pool)) ⊎ ((s.source ≡ k) × (suc k ≡ length p.pool)))
        → Popped p ss s
    cases inside counted k g (inl (lt, full)) = record {
      known = omega arith;
      dropped =
          Dropped-shared p.pool ss s.source (subst (λ n. Grows 0 (map (λ x. x.source) ss) n) full g)
            counted inside (omega arith);
    }
    cases inside counted k g (inr (at_end, full)) = record {
      known = omega arith;
      dropped =
          Dropped-only p.pool ss s.source
            (subst (λ n. Grows 0 (map (λ x. x.source) ss) n) (sym at_end) g) counted inside
            (omega arith);
    }

pop-snoc :
    (p : StringPool) (ss : List StringListPair) (s : StringListPair)
    → IsValid p
    → p.strings ≡ ss ++ s ∷ []
    → pop p ≡ record { pool = unref p.pool s.source; strings = ss }
unfolding pop
pop-snoc p ss s v e =
    rw (e, last?-append ss s, pop)
      (pop_loop_found (length p.pool) s.source p (popped_lem p ss s v e).known
        ∙ ap (λ l. record { pool = unref p.pool s.source; strings = l }) shorter)
  where
    shorter : take (size p - 1) p.strings ≡ ss
    shorter =
        ap (λ l. take (length l - 1) l) e
        ∙ ap (λ n. take n (ss ++ s ∷ [])) (omega (arith, length-append ss (s ∷ [])))
        ∙ take-append_length ss (s ∷ [])

pop-nil : (p : StringPool) → p.strings ≡ [] → pop p ≡ p
unfolding pop
pop-nil p e = let h : last? p.strings ≡ none = ap last? e in rw (h, pop)

-- `pop` takes exactly the last text of a well-formed pool, and nothing from an empty one.
pub texts-pop : (p : StringPool) → IsValid p → texts (pop p) ≡ take (size p - 1) (texts p)
texts-pop p v = elim (snoc-cases p.strings) [
  | inl e ↦ ap texts (pop-nil p e) ∙ rw e
  | inr (ss, s, e) ↦
      ap texts (pop-snoc p ss s v e)
      ∙ (popped_lem p ss s v e).dropped.same_texts
      ∙ sym (
          ap (λ l. take (length l - 1) (map (make_stringref p.pool) l)) e
          ∙ ap (λ l. take (length (ss ++ s ∷ []) - 1) l)
              (map-append (make_stringref p.pool) ss (s ∷ []))
          ∙ ap (λ n. take n (map (make_stringref p.pool) ss ++ make_stringref p.pool s ∷ []))
              (omega (arith, length-append ss (s ∷ []), length-map (make_stringref p.pool) ss))
          ∙ take-append_length (map (make_stringref p.pool) ss) (make_stringref p.pool s ∷ []))
]

-- `pop` keeps a well-formed pool well-formed.
pub pop-IsValid : (p : StringPool) → IsValid p → IsValid (pop p)
pop-IsValid p v = elim (snoc-cases p.strings) [
  | inl e ↦ subst IsValid (sym (pop-nil p e)) v
  | inr (ss, s, e) ↦
      let d = (popped_lem p ss s v e).dropped in
      subst IsValid (sym (pop-snoc p ss s v e))
        (record { grows = d.grows; counted = d.counted; inside = d.inside })
]
