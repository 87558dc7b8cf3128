-- ===== src/ListDirContent/Cache.antt =====
-- The cache of listings gives what the database would give, and what it gives for a start of a name.
use dindexer.Common.{
  ℕ, suc, arith, ◌+◌, ◌≤◌, ◌≡◌, ◌⊎◌, refl, ap, ap₂, subst, sym, ◌∙◌, inl, inr, Bool, true, false,
  Option, some, none, List, [], ◌∷◌, ◌++◌, map, Bytes, All, All-append, length, drop, leb, bytes_eq,
  bytes_eq→eq, bytes_eq_refl, if◌then◌else◌, Bool-cases, length-append, length-drop,
}
use dindexer.EntryPath.{EntryPath, push_piece, to_string, level}
use dindexer.EntryPath.Grammar.{Plain, push_piece-to_string}
use dindexer.ListDirContent.{
  Backend, Cache, max_cached_lists, push_back, keep_first, take_out, put_last,
  find_and_refresh_in_cache, cached_or, listing, ls, listing_starting_by, ls_starting_by, ls_each,
}

-- Paths with the same text are the same path.
to_string_inj : (p q : EntryPath) → Plain p → Plain q → to_string p ≡ to_string q → p ≡ q
to_string_inj p q hp hq e =
    sym (push_piece-to_string p p hp) ∙ ap (push_piece p) e ∙ push_piece-to_string p q hq

-- What the result of a test says about it.
test-none {ℓ} :
    {A : Type ℓ} (b : Bool) (y : A) (o : Option A)
    → (if b then some y else o) ≡ none
    → (b ≡ false) × (o ≡ none)
test-none true y o h = cc
test-none false y o h = (refl, h)

test-some {ℓ} :
    {A : Type ℓ} (b : Bool) (y z : A) (o : Option A)
    → (if b then some y else o) ≡ some z
    → ((b ≡ true) × (y ≡ z)) ⊎ (o ≡ some z)
test-some true y z o h = inl (refl, cc)
test-some false y z o h = inr h

keep_first-some :
    (x : Bytes × List Bytes) (o : Option (List Bytes × Cache)) (l : List Bytes) (rest : Cache)
    → keep_first x o ≡ some (l, rest)
    → (r : Cache) × (o ≡ some (l, r)) × (rest ≡ x ∷ r)
keep_first-some x none l rest h = cc
keep_first-some x (some (k, r)) l rest h =
    let e : ◌≡◌ {A = List Bytes × Cache} (k, x ∷ r) (l, rest) = cc in
    (r, ap (λ z. some (z, r)) (ap (λ y. y.0) e), sym (ap (λ y. y.1) e))

keep_first-none :
    (x : Bytes × List Bytes) (o : Option (List Bytes × Cache)) → keep_first x o ≡ none → o ≡ none
keep_first-none x none h = refl
keep_first-none x (some (l, rest)) h = cc

-- What is not cached is neither the first listing nor among the others.
take_out-none :
    (p : Bytes) (m : List Bytes) (cache : Cache) (path : Bytes)
    → take_out ((p, m) ∷ cache) path ≡ none
    → (bytes_eq p path ≡ false) × (take_out cache path ≡ none)
unfolding take_out
take_out-none p m cache path h =
    let (n, o) =
      test-none (bytes_eq p path) (m, cache) (keep_first (p, m) (take_out cache path)) h in
    (n, keep_first-none (p, m) (take_out cache path) o)

take_out-append :
    (cache : Cache) (path : Bytes) (l : List Bytes)
    → take_out cache path ≡ none
    → take_out (cache ++ (path, l) ∷ []) path ≡ some (l, cache)
unfolding take_out
take_out-append [] path l h = rw (bytes_eq_refl path) refl
take_out-append ((p, m) ∷ cache) path l h =
    let (n, h') = take_out-none p m cache path h in rw (n, take_out-append cache path l h') refl

take_out-drop :
    (cache : Cache) (path : Bytes)
    → take_out cache path ≡ none
    → take_out (drop 1 cache) path ≡ none
unfolding take_out
take_out-drop [] path h = refl
take_out-drop ((p, m) ∷ cache) path h = (take_out-none p m cache path h).1

push_back-found :
    (cache : Cache) (path : Bytes) (l : List Bytes)
    → take_out cache path ≡ none
    → (rest : Cache) × (take_out (push_back cache (path, l)) path ≡ some (l, rest))
unfolding push_back
push_back-found cache path l h = elim (Bool-cases (leb max_cached_lists (length cache))) [
  | inl y ↦
      (drop 1 cache, rw (y) (take_out-append (drop 1 cache) path l (take_out-drop cache path h)))
  | inr n ↦ (cache, rw (n) (take_out-append cache path l h))
]

module _ (db : Backend) (lexical_cast : Bytes → Option ℕ) where
  -- A cached listing is that of some directory.
  abbrev pub IsListing : Bytes × List Bytes → Type 0
  IsListing (path, l) =
      (p : EntryPath) × Plain p × (to_string p ≡ path) × (listing db lexical_cast p ≡ some l)

  -- At most four listings, each what the database gives.
  abbrev pub Coherent : Cache → Type 0
  Coherent cache = (length cache ≤ max_cached_lists) × All IsListing cache

  -- What the first listing with a path is, and what is left without it.
  take_out-Coherent :
      (cache : Cache) (path : Bytes) (l : List Bytes) (rest : Cache)
      → take_out cache path ≡ some (l, rest)
      → All IsListing cache
      → IsListing (path, l) × All IsListing rest × (length cache ≡ 1 + length rest)
  unfolding take_out
  take_out-Coherent [] path l rest e h = cc
  take_out-Coherent ((p, m) ∷ cache) path l rest e (x, h) =
      elim (test-some (bytes_eq p path) (m, cache) (l, rest)
        (keep_first (p, m) (take_out cache path)) e) [
          | inl (same, eq) ↦
              let el : m ≡ l = ap (λ y. y.0) eq in
              let er : cache ≡ rest = ap (λ y. y.1) eq in
              (
                subst (λ z. IsListing (path, z)) el
                    (subst (λ z. IsListing (z, m)) (bytes_eq→eq p path same) x),
                subst (All IsListing) er h,
                ap (λ c. suc (length c)) er ∙ omega arith,
              )
          | inr found ↦
              let (r, er, e') = keep_first-some (p, m) (take_out cache path) l rest found in
              let (y, ys, n) = take_out-Coherent cache path l r er h in
              (y, subst (All IsListing) (sym e') (x, ys), omega (arith, n, ap length e'))
        ]

  push_back-Coherent :
      (cache : Cache) (x : Bytes × List Bytes)
      → Coherent cache
      → IsListing x
      → Coherent (push_back cache x)
  unfolding push_back
  push_back-Coherent cache x (short, h) hx =
      elim (Bool-cases (leb max_cached_lists (length cache))) [
        | inl y ↦ rw (y) (
          omega (arith, length-append (drop 1 cache) (x ∷ []), length-drop 1 cache),
          All-append IsListing (drop 1 cache) (x ∷ []) (All-drop cache h) (hx, tt),
        )
        | inr n ↦ rw (n) (
          ground (arith, length-append cache (x ∷ [])),
          All-append IsListing cache (x ∷ []) h (hx, tt),
        )
      ]
    where
      All-drop : (c : Cache) → All IsListing c → All IsListing (drop 1 c)
      All-drop [] h = tt
      All-drop (x ∷ c) (_, h) = h

  -- `ls` gives what the database would give, from a cache of its own making.
  ls-listing :
      (p : EntryPath) (cache : Cache)
      → Plain p
      → Coherent cache
      → ((ls db lexical_cast p cache).0 ≡ listing db lexical_cast p)
        × Coherent (ls db lexical_cast p cache).1
  unfolding ls find_and_refresh_in_cache
  ls-listing p cache hp (short, h) =
      go (take_out cache (to_string p)) (listing db lexical_cast p) refl refl
    where
      go :
          (found : Option (List Bytes × Cache)) (asked : Option (List Bytes))
          → take_out cache (to_string p) ≡ found
          → listing db lexical_cast p ≡ asked
          → ((cached_or (put_last (to_string p) found) (to_string p) asked cache).0 ≡ asked)
            × Coherent (cached_or (put_last (to_string p) found) (to_string p) asked cache).1
      go none none e a = (refl, (short, h))
      go none (some l) e a =
          (refl, push_back-Coherent cache (to_string p, l) (short, h) (p, hp, refl, a))
      go (some (l, rest)) asked e a =
          let ((q, hq, text, gives), hr, n) = take_out-Coherent cache (to_string p) l rest e h in
          (
            sym gives ∙ ap (listing db lexical_cast) (to_string_inj q p hq hp text) ∙ a,
            (
              omega (arith, short, n, length-append rest ((to_string p, l) ∷ [])),
              All-append IsListing rest ((to_string p, l) ∷ []) hr ((q, hq, text, gives), tt),
            ),
          )

  ls_each-Coherent :
      (ps : List EntryPath) (cache : Cache)
      → All Plain ps
      → Coherent cache
      → ls_each db lexical_cast ps cache ≡ map (listing db lexical_cast) ps
  unfolding ls_each
  ls_each-Coherent [] cache h c = refl
  ls_each-Coherent (p ∷ ps) cache (hp, h) c =
      let (e, c') = ls-listing p cache hp c in
      ap₂ (λ x xs. x ∷ xs) e (ls_each-Coherent ps (ls db lexical_cast p cache).1 h c')

  -- Listing directories one after the other, from the empty cache, gives for each of them what the
  -- database gives, if no element of their stacks is empty, is "." or "..", or has a slash or a
  -- backslash.
  pub ls_each-listing :
      (ps : List EntryPath)
      → All Plain ps
      → ls_each db lexical_cast ps [] ≡ map (listing db lexical_cast) ps
  ls_each-listing ps h = ls_each-Coherent ps [] h (omega arith, tt)

  -- The first time that a directory is asked for names with a start, and there is a result, that
  -- result is what a plain listing of the path with the start gives afterwards.
  pub ls_starting_by-ls :
      (dir : EntryPath) (start : Bytes) (cache : Cache) (names : List Bytes)
      → take_out cache (to_string (push_piece dir start)) ≡ none
      → (ls_starting_by db lexical_cast dir start cache).0 ≡ some names
      → (ls db lexical_cast
          (push_piece dir start)
          (ls_starting_by db lexical_cast dir start cache).1).0
        ≡ some names
  unfolding ls ls_starting_by find_and_refresh_in_cache
  ls_starting_by-ls dir start cache names fresh given =
      go (take_out cache (to_string p)) (listing_starting_by db lexical_cast (level dir) p) fresh
        given
    where
      p : EntryPath
      p = push_piece dir start

      go :
          (found : Option (List Bytes × Cache)) (asked : Option (List Bytes))
          → found ≡ none
          → (cached_or (put_last (to_string p) found) (to_string p) asked cache).0 ≡ some names
          → (cached_or
              (put_last (to_string p) (
                take_out
                  (cached_or (put_last (to_string p) found) (to_string p) asked cache).1
                  (to_string p)))
              (to_string p)
              (listing db lexical_cast p)
              (cached_or (put_last (to_string p) found) (to_string p) asked cache).1).0
            ≡ some names
      go none none n g = cc
      go none (some l) n g =
          let (rest, e) = push_back-found cache (to_string p) l fresh in
          ap
            (λ o.
              (cached_or (put_last (to_string p) o) (to_string p) (listing db lexical_cast p)
                (push_back cache (to_string p, l))).0)
            e
          ∙ g
      go (some x) asked n g = cc
