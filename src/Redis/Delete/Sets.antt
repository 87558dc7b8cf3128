-- ===== src/Redis/Delete/Sets.antt =====
-- Which sets are deleted, and what is asked of the user before.
use dindexer.Common.{
  ℕ, suc, ◌+◌, ◌≡◌, ◌≢◌, refl, sym, inl, inr, Bool, some, none, List, [], ◌∷◌, arith, Bytes, length,
  All, Option-cases,
}
use dindexer.Redis.Delete.{
  Replies, Effect, fetch_set, fetch_hash, delete_set, map_set, dele_list, confirm_dele, ask,
  ranges_of,
}

-- No id stands twice.
abbrev pub Distinct : List ℕ → Type 0
Distinct [] = Unit {0}
Distinct (i ∷ is') = All (λ j. i ≢ j) is' × Distinct is'

abbrev IsFresh : ℕ → List (ℕ × Bytes) → Type 0
IsFresh k = All (λ e. k ≢ e.0)

length-map_set :
    (k : ℕ) (v : Bytes) (m : List (ℕ × Bytes))
    → IsFresh k m
    → length (map_set k v m) ≡ suc (length m)
unfolding map_set
length-map_set k v [] f = refl
length-map_set k v ((j, w) ∷ m) (f, fs) = ground (arith, length-map_set k v m fs)

IsFresh-map_set :
    (i k : ℕ) (v : Bytes) (m : List (ℕ × Bytes)) → i ≢ k → IsFresh i m → IsFresh i (map_set k v m)
unfolding map_set
IsFresh-map_set i k v [] ne f = (ne, tt)
IsFresh-map_set i k v ((j, w) ∷ m) ne (f, fs) = ground (arith, IsFresh-map_set i k v m ne fs)

IsFresh-All :
    (k : ℕ) (v : Bytes) (m : List (ℕ × Bytes)) (ids : List ℕ)
    → All (λ j. k ≢ j) ids
    → All (λ i. IsFresh i m) ids
    → All (λ i. IsFresh i (map_set k v m)) ids
IsFresh-All k v m [] d f = tt
IsFresh-All k v m (i ∷ ids) (d, ds) (f, fs) =
    (IsFresh-map_set i k v m (λ e. d (sym e)) f, IsFresh-All k v m ids ds fs)

module _ (replies : Replies) where
  length-dele_list :
      (ids : List ℕ) (m : List (ℕ × Bytes))
      → Distinct ids
      → All (λ i. IsFresh i m) ids
      → length (dele_list replies ids m) ≡ length m + length (ranges_of replies ids)
  unfolding dele_list ranges_of
  length-dele_list [] m d f = omega arith
  length-dele_list (id ∷ ids) m (d, ds) (f, fs) = elim (Option-cases (replies.set_info id)) [
    | inl e ↦ rw (e, dele_list, ranges_of) (length-dele_list ids m ds fs)
    | inr (info, e) ↦
        rw (e, dele_list, ranges_of)
          (omega (
            arith,
            length-dele_list ids (map_set id info.name m) ds (IsFresh-All id info.name m ids d fs),
            length-map_set id info.name m f,
          ))
  ]

  -- With distinct ids, as many id ranges are deleted as sets are shown to the user, as the source
  -- asserts.
  pub length-ranges_of :
      (ids : List ℕ) (conf : List (ℕ × Bytes) → Bool)
      → Distinct ids
      → length (ranges_of replies ids) ≡ (confirm_dele replies ids conf).1
  unfolding confirm_dele ranges_of
  length-ranges_of [] conf d = refl
  length-ranges_of (id ∷ ids) conf d = omega (
    arith,
    length-dele_list (id ∷ ids) [] d (none_yet (id ∷ ids)),
    counted (dele_list replies (id ∷ ids) []),
  )
    where
      none_yet : (ids : List ℕ) → All (λ i. IsFresh i []) ids
      none_yet [] = tt
      none_yet (i ∷ ids) = (tt, none_yet ids)

      counted : (m : List (ℕ × Bytes)) → length m ≡ (ask conf m).1
      counted [] = refl
      counted (e ∷ m) = refl

-- The ids of the sets that are deleted.
abbrev pub deleted_sets : List Effect → List ℕ
deleted_sets [] = []
deleted_sets (delete_set i ∷ es) = i ∷ deleted_sets es
deleted_sets (_ ∷ es) = deleted_sets es

-- The ids of the sets that are asked for.
abbrev pub fetched_sets : List Effect → List ℕ
fetched_sets [] = []
fetched_sets (fetch_set i ∷ es) = i ∷ fetched_sets es
fetched_sets (_ ∷ es) = fetched_sets es

-- What is sent besides questions.
abbrev pub changes : List Effect → List Effect
changes [] = []
changes (fetch_set i ∷ es) = changes es
changes (fetch_hash i ∷ es) = changes es
changes (e ∷ es) = e ∷ changes es

module _ (replies : Replies) where
  -- The ids that the server knows a set for.
  abbrev pub known : List ℕ → List ℕ
  known [] = []
  known (i ∷ ids) = elim (replies.set_info i) [ none ↦ known ids | some info ↦ i ∷ known ids ]
