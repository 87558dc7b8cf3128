-- ===== src/Launcher/Names.antt =====
-- The names of the actions that are found.
use dindexer.Common.{
  ◌≡◌, refl, ap, ap₂, ◌∙◌, inl, inr, Bool, true, false, ◌||◌, some, none, List, [], ◌∷◌, ◌++◌, map,
  map-append, Bytes, codes, All, Lacks, length, drop, drop-append_length, ◌==◌, ==→eq, bytes_eq,
  if◌then◌else◌, Bool-cases,
}
use dindexer.Launcher.FindActions.{
  DirEntry, after_slash, or_whole, has_prefix, get_actionname, action_of, foreach_dir,
}

after_slash-none : (s : Bytes) → Lacks b'/' s → after_slash s ≡ none
unfolding after_slash
after_slash-none [] h = refl
after_slash-none (c ∷ s) (n, h) = elim (Bool-cases (c == b'/')) [
  | inl e ↦ absurd (n (==→eq c b'/' e))
  | inr ne ↦ rw (ne) (after_slash-none s h)
]

after_slash-some : (s r : Bytes) → Lacks b'/' s → after_slash (s ++ b'/' ∷ r) ≡ some r
unfolding after_slash
after_slash-some [] r h = refl
after_slash-some (c ∷ s) r (n, h) = elim (Bool-cases (c == b'/')) [
  | inl e ↦ absurd (n (==→eq c b'/' e))
  | inr ne ↦ rw (ne) (after_slash-some s r h)
]

module _ (prefix : Bytes) where
  -- The name that an entry gives an action: that of the directory, or what follows the prefix.
  abbrev pub name_of : DirEntry → List Bytes
  name_of e =
      if bytes_eq e.d_name (codes ".") || bytes_eq e.d_name (codes "..")
      then []
      else if e.is_dir
      then (if e.accessible then e.d_name ∷ [] else [])
      else if has_prefix prefix e.d_name
      then drop (length prefix) e.d_name ∷ []
      else []

  abbrev pub names_of : List DirEntry → List Bytes
  names_of [] = []
  names_of (e ∷ es) = name_of e ++ names_of es

  in_dir : (d : Bytes) → Lacks b'/' d → get_actionname prefix (d ++ b'/' ∷ (prefix ++ d)) ≡ d
  unfolding get_actionname
  in_dir d h =
      ap (λ o. drop (length prefix) (or_whole (d ++ b'/' ∷ (prefix ++ d)) o))
        (after_slash-some d (prefix ++ d) h)
      ∙ drop-append_length prefix d

  beside : (d : Bytes) → Lacks b'/' d → get_actionname prefix d ≡ drop (length prefix) d
  unfolding get_actionname
  beside d h = ap (λ o. drop (length prefix) (or_whole d o)) (after_slash-none d h)

  action_of-name :
      (e : DirEntry)
      → Lacks b'/' e.d_name
      → map (get_actionname prefix) (action_of prefix e) ≡ name_of e
  action_of-name e h =
      by_case (bytes_eq e.d_name (codes ".") || bytes_eq e.d_name (codes "..")) e.is_dir
        e.accessible (has_prefix prefix e.d_name)
    where
      by_case :
          (dots dir there pre : Bool)
          → map (get_actionname prefix) (
              if dots
              then []
              else if dir
              then (if there then (e.d_name ++ b'/' ∷ (prefix ++ e.d_name)) ∷ [] else [])
              else if pre
              then e.d_name ∷ []
              else [])
            ≡ (if dots
                then []
                else if dir
                then (if there then e.d_name ∷ [] else [])
                else if pre
                then drop (length prefix) e.d_name ∷ []
                else [])
      by_case true dir there pre = refl
      by_case false true true pre = ap (λ x. x ∷ []) (in_dir e.d_name h)
      by_case false true false pre = refl
      by_case false false there true = ap (λ x. x ∷ []) (beside e.d_name h)
      by_case false false there false = refl

  -- The names of the actions that are found: of a directory that holds the program of its action,
  -- the directory's own, and of a program with the prefix, what follows that; no name of an entry
  -- has a slash.
  pub get_actionname-foreach_dir :
      (es : List DirEntry)
      → All (λ e. Lacks b'/' e.d_name) es
      → map (get_actionname prefix) (foreach_dir prefix es) ≡ names_of es
  unfolding foreach_dir
  get_actionname-foreach_dir [] h = refl
  get_actionname-foreach_dir (e ∷ es) (h, hs) =
      map-append (get_actionname prefix) (action_of prefix e) (foreach_dir prefix es)
      ∙ ap₂ (λ a b. a ++ b) (action_of-name e h) (get_actionname-foreach_dir es hs)
