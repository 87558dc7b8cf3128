-- ===== src/SearchPaths/Hits.antt =====
-- What the search for an entry finds, and that a directory is listed once (src/core/searchpaths.cpp).
use dindexer.Common.{
  ◌≡◌, ◌⊎◌, refl, ap, sym, ◌∙◌, inl, inr, Bool, true, false, ◌||◌, some, none, List, [], ◌∷◌, ◌++◌,
  Bytes, All, bytes_eq, bytes_eq_refl, bytes_eq→eq, Bool-cases, Option-cases,
}
use dindexer.SearchPaths.{
  Listing, SearchType, Predicate, hit_in, hit_or, first_hit, contains_path, add_path,
}

-- No directory is a later one of the list.
unfoldable pub Distinct : List Bytes → Type 0
Distinct [] = Unit
Distinct (q ∷ qs) = (contains_path qs q ≡ false) × Distinct qs

contains_last : (paths : List Bytes) (p : Bytes) → contains_path (paths ++ p ∷ []) p ≡ true
unfolding contains_path
contains_last [] p = rw (bytes_eq_refl p) refl
contains_last (q ∷ qs) p = elim (Bool-cases (bytes_eq q p)) [
  | inl e ↦ rw (e) refl
  | inr n ↦ rw (n) (contains_last qs p)
]

contains_append :
    (paths : List Bytes) (p q : Bytes)
    → contains_path paths q ≡ false
    → bytes_eq p q ≡ false
    → contains_path (paths ++ p ∷ []) q ≡ false
unfolding contains_path
contains_append [] p q h n = rw (n) refl
contains_append (r ∷ rs) p q h n = elim (Bool-cases (bytes_eq r q)) [
  | inl e ↦ cc (sym h ∙ ap (λ (b : Bool). b || contains_path rs q) e)
  | inr n' ↦
      rw (n') (contains_append rs p q (ap (λ (b : Bool). b || contains_path rs q) (sym n') ∙ h) n)
]

add_path-Distinct :
    (paths : List Bytes) (p : Bytes)
    → Distinct paths
    → contains_path paths p ≡ false
    → Distinct (paths ++ p ∷ [])
unfolding Distinct contains_path
add_path-Distinct [] p h n = (refl, tt)
add_path-Distinct (q ∷ qs) p (h, hs) n = elim (Bool-cases (bytes_eq q p)) [
  | inl e ↦ cc (sym n ∙ ap (λ (b : Bool). b || contains_path qs p) e)
  | inr m ↦ (
    contains_append qs p q h (flip m),
    add_path-Distinct qs p hs (ap (λ (b : Bool). b || contains_path qs p) (sym m) ∙ n),
  )
]
  where
    flip : bytes_eq q p ≡ false → bytes_eq p q ≡ false
    flip m = elim (Bool-cases (bytes_eq p q)) [
      | inl e ↦ cc (sym m ∙ ap (λ x. bytes_eq q x) (bytes_eq→eq p q e) ∙ bytes_eq_refl q)
      | inr f ↦ f
    ]

-- For a list of directories without repetitions, `add_path` leaves the directory in the list, and
-- the list without repetitions.
pub add_path-contains :
    (paths : List Bytes) (p : Bytes)
    → Distinct paths
    → (contains_path (add_path paths p) p ≡ true) × Distinct (add_path paths p)
unfolding add_path
add_path-contains paths p h = elim (Bool-cases (contains_path paths p)) [
  | inl e ↦ rw (e) (e, h)
  | inr n ↦ rw (n) (contains_last paths p, add_path-Distinct paths p h n)
]

first_hit_found :
    (listing : Listing) (dir : Bytes) (dirs : List Bytes) (predicate : Predicate)
    (type : SearchType) (p : Bytes)
    → hit_in predicate type dir (listing dir) ≡ some p
    → first_hit listing (dir ∷ dirs) predicate type ≡ p
unfolding first_hit
first_hit_found listing dir dirs predicate type p e =
    ap (λ o. hit_or o (first_hit listing dirs predicate type)) e

first_hit_missed :
    (listing : Listing) (dir : Bytes) (dirs : List Bytes) (predicate : Predicate)
    (type : SearchType)
    → hit_in predicate type dir (listing dir) ≡ none
    → first_hit listing (dir ∷ dirs) predicate type ≡ first_hit listing dirs predicate type
unfolding first_hit
first_hit_missed listing dir dirs predicate type n =
    ap (λ o. hit_or o (first_hit listing dirs predicate type)) n

-- `first_hit_impl` gives the hit in a directory of the list before which no directory has one, or
-- the empty text, and then no directory has one.
pub first_hit-first :
    (listing : Listing) (dirs : List Bytes) (predicate : Predicate) (type : SearchType)
    → ((before after : List Bytes) × (dir : Bytes) × (dirs ≡ before ++ dir ∷ after)
        × (hit_in predicate type dir (listing dir) ≡ some (first_hit listing dirs predicate type))
        × All (λ d. hit_in predicate type d (listing d) ≡ none) before)
      ⊎ ((first_hit listing dirs predicate type ≡ [])
          × All (λ d. hit_in predicate type d (listing d) ≡ none) dirs)
unfolding first_hit
first_hit-first listing [] predicate type = inr (refl, tt)
first_hit-first listing (dir ∷ dirs) predicate type =
    elim (Option-cases (hit_in predicate type dir (listing dir))) [
      | inr (p, e) ↦ inl (
        [],
        dirs,
        dir,
        refl,
        (e ∙ ap some (sym (first_hit_found listing dir dirs predicate type p e))),
        tt,
      )
      | inl n ↦ elim (first_hit-first listing dirs predicate type) [
        | inl (before, after, d, split, hit, none_before) ↦ inl (
          dir ∷ before,
          after,
          d,
          ap (λ l. dir ∷ l) split,
          (hit ∙ ap some (sym (first_hit_missed listing dir dirs predicate type n))),
          (n, none_before),
        )
        | inr (empty, none_all) ↦
            inr (first_hit_missed listing dir dirs predicate type n ∙ empty, (n, none_all))
      ]
    ]
