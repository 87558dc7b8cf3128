-- ===== src/Redis/Find/Names/Paths.antt =====
-- What the searches in names and paths find.
use dindexer.Common.{
  ℕ, ◌≡◌, ◌≢◌, ◌↔◌, refl, ap, ap₂, sym, ◌∙◌, subst, inl, inr, true, ◌&&◌, ◌||◌, Option, some, none,
  List, [], ◌∷◌, ◌++◌, map, Bytes, ◌==◌, ==→eq, ==_refl, Among, Bool-cases,
}
use dindexer.Redis.Find.Names.{
  begins_with, search_hits, find_hits, paths_below, path_replies, find_file_details, details_below,
  fronts, find_paths_starting_by,
}

begins_with-map :
    (up : ℕ → ℕ) (s t : Bytes)
    → begins_with (λ c d. up c == up d) s t ≡ begins_with (λ c d. c == d) (map up s) (map up t)
unfolding begins_with
begins_with-map up s [] = refl
begins_with-map up [] (d ∷ t) = refl
begins_with-map up (c ∷ s) (d ∷ t) = ap (λ b. (up c == up d) && b) (begins_with-map up s t)

-- Searching a name for a text that is not empty without regard to case is finding it in upper case.
pub search_hits-find_hits :
    (up : ℕ → ℕ) (s t : Bytes)
    → t ≢ []
    → search_hits (λ c d. up c == up d) s t ≡ find_hits (map up s) (map up t)
unfolding search_hits find_hits begins_with
search_hits-find_hits up s [] h = absurd (h refl)
search_hits-find_hits up [] (d ∷ t) h = refl
search_hits-find_hits up (c ∷ s) (d ∷ t) h =
    ap₂ (λ a b. a || b) (begins_with-map up (c ∷ s) (d ∷ t)) (search_hits-find_hits up s (d ∷ t) h)

first_same : (c d : ℕ) (s t : Bytes) → ◌≡◌ {A = Bytes} (c ∷ s) (d ∷ t) → c ≡ d
first_same c d s t e = cc

-- A text begins with another exactly when it is that text and more.
begins_with-append :
    (s t : Bytes) → (begins_with (λ c d. c == d) s t ≡ true) ↔ ((r : Bytes) × (s ≡ t ++ r))
unfolding begins_with
begins_with-append s [] = ((λ h. (s, refl)), λ h. refl)
begins_with-append [] (d ∷ t) = ((λ h. cc), λ h. cc h.1)
begins_with-append (c ∷ s) (d ∷ t) = elim (Bool-cases (c == d)) [
  | inl e ↦
      let (f, g) = begins_with-append s t in
      rw (e) (
        (λ h. let (r, er) = f h in (r, ap₂ (λ x xs. x ∷ xs) (==→eq c d e) er)),
        λ h. g (h.0, cc h.1),
      )
  | inr n ↦ rw (n) (
    (λ h. cc),
    λ h. absurd (cc (sym n ∙ ap (λ x. x == d) (first_same c d s (t ++ h.0) h.1) ∙ ==_refl d)),
  )
]

path_replies-Among :
    (hget : Bytes → Option Bytes) (lst : List (Option Bytes)) (o : Option Bytes)
    → Among o (path_replies hget lst) ↔ ((k : Bytes) × Among (some k) lst × (hget k ≡ o))
path_replies-Among hget [] o = ((λ h. absurd h), λ h. absurd h.1)
path_replies-Among hget (none ∷ xs) o =
    let (f, g) = path_replies-Among hget xs o in
    (
      (λ h. let (k, m, e) = f h in (k, inr m, e)),
      λ h. elim h.1 [ inl e ↦ absurd (cc e) | inr m ↦ g (h.0, m, h.2) ],
    )
path_replies-Among hget (some k ∷ xs) o =
    let (f, g) = path_replies-Among hget xs o in
    (
      (λ h. elim h [
        | inl e ↦ (k, inl refl, sym e)
        | inr m ↦ let (k', m', e) = f m in (k', inr m', e)
      ]),
      λ h. elim h.1 [ inl e ↦ inl (sym h.2 ∙ ap hget (cc e)) | inr m ↦ inr (g (h.0, m, h.2)) ],
    )

paths_below-Among :
    (rs : List (Option Bytes)) (dir path : Bytes)
    → Among path (fronts (paths_below rs dir))
      ↔ (Among (some path) rs × (begins_with (λ c d. c == d) path dir ≡ true))
unfolding paths_below
paths_below-Among [] dir path = ((λ h. absurd h), λ h. absurd h.0)
paths_below-Among (none ∷ rs) dir path =
    let (f, g) = paths_below-Among rs dir path in
    ((λ h. (inr (f h).0, (f h).1)), λ h. elim h.0 [ inl e ↦ absurd (cc e) | inr m ↦ g (m, h.1) ])
paths_below-Among (some p ∷ rs) dir path =
    let (f, g) = paths_below-Among rs dir path in
    elim (Bool-cases (begins_with (λ c d. c == d) p dir)) [
      | inl y ↦ rw (y) (
        (λ h. elim h [
          | inl e ↦ (inl (ap some e), ap (λ q. begins_with (λ c d. c == d) q dir) e ∙ y)
          | inr m ↦ (inr (f m).0, (f m).1)
        ]),
        λ h. elim h.0 [ inl e ↦ inl (same_path path p e) | inr m ↦ inr (g (m, h.1)) ],
      )
      | inr n ↦ rw (n) (
        (λ h. (inr (f h).0, (f h).1)),
        λ h. elim h.0 [
          | inl e ↦ absurd (
              cc (
                sym n
                ∙ ap (λ q. begins_with (λ c d. c == d) q dir) (sym (same_path path p e))
                ∙ h.1))
          | inr m ↦ g (m, h.1)
        ],
      )
    ]
  where
    same_path : (p q : Bytes) → some p ≡ some q → p ≡ q
    same_path p q e = cc

-- The paths that are found below a directory of a set are those of the items of its level that
-- begin with it, if the server has the level.
pub find_paths_starting_by-Among :
    (zrangebyscore : ℕ → ℕ → Option (List (Option Bytes))) (hget : Bytes → Option Bytes)
    (set lev : ℕ) (dir path : Bytes) (lst : List (Option Bytes))
    → zrangebyscore set lev ≡ some lst
    → Among path (find_paths_starting_by zrangebyscore hget set lev dir) ↔ (
        ((k : Bytes) × Among (some k) lst × (hget k ≡ some path))
        × ((r : Bytes) × (path ≡ dir ++ r)))
unfolding find_paths_starting_by find_file_details
find_paths_starting_by-Among zrangebyscore hget set lev dir path lst e =
    let (f, g) = paths_below-Among (path_replies hget lst) dir path in
    let (f', g') = path_replies-Among hget lst (some path) in
    let (f'', g'') = begins_with-append path dir in
    let same : find_paths_starting_by zrangebyscore hget set lev dir
        ≡ fronts (paths_below (path_replies hget lst) dir) =
      ap (λ o. fronts (details_below hget o dir)) e in
    (
      (λ h. let h' = f (subst (Among path) same h) in (f' h'.0, f'' h'.1)),
      λ h. subst (Among path) (sym same) (g (g' h.0, g'' h.1)),
    )
