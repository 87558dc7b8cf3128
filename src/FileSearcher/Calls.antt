-- ===== src/FileSearcher/Calls.antt =====
-- Which entries the search hands to its callback, and with which statistics.
use dindexer.Common.{
  ◌≡◌, refl, ap, ◌∙◌, inl, inr, Bool, true, false, List, [], ◌∷◌, ◌++◌, Bytes, if◌then◌else◌, ◌||◌,
  Bool-cases, drop,
}
use dindexer.FileSearcher.{
  FileStats, Answer, EntryType, unreadable_directory, directory, file, no_stat, broken_link, link,
  unknown, Entry, Callback, is_nil, is_ignored, has_extension, unless_stopped, dir_stats,
  file_stats, handle_dir, handle_file, by_type, print_name, search,
}

abbrev pub Call : Type 0
Call = Bytes × FileStats

abbrev pub when : Bool → Call → List Call
when true c = c ∷ []
when false c = []

-- Every directory is reported, and every file and every link that leads somewhere, if no extensions
-- are given or its path has one of them.
abbrev pub calls_of : List Bytes → EntryType → Entry → List Call
calls_of exts unreadable_directory e = (e.path, dir_stats e e.is_link) ∷ []
calls_of exts directory e = (e.path, dir_stats e e.is_link) ∷ []
calls_of exts file e =
    when (is_nil exts || has_extension exts e.path) (e.path, file_stats e e.is_link)
calls_of exts link e = when (is_nil exts || has_extension exts e.path) (e.path, file_stats e true)
calls_of exts no_stat e = []
calls_of exts broken_link e = []
calls_of exts unknown e = []

abbrev pub calls : List Bytes → List Entry → List Call
calls exts [] = []
calls exts (e ∷ es) = calls_of exts e.type e ++ calls exts es

module _ {S : Type 0} (callback : Callback S) where
  -- The callback on each call in turn, until it wants to stop.
  abbrev pub run_calls : S → List Call → S
  run_calls s [] = s
  run_calls s (c ∷ cs) =
      let r = callback s c.0 c.1 in let rest = run_calls r.0 cs in if r.1 then rest else r.0

  module _ (extensions ignore_paths : List Bytes) where
    abbrev outcome : S × Answer → (S → S) → S
    outcome r k = unless_stopped r.1 r.0 (k r.0)

    dir_calls :
        (s : S) (e : Entry) (readable is_link : Bool) (cs : List Call)
        → outcome
            (handle_dir callback extensions ignore_paths s e readable is_link)
            (λ t. run_calls t cs)
          ≡ run_calls s ((e.path, dir_stats e is_link) ∷ cs)
    dir_calls s e readable is_link cs =
        elim (Bool-cases (callback s e.path (dir_stats e is_link)).1) [
          | inr n ↦ rw (n) refl
          | inl y ↦ elim (Bool-cases readable) [
            | inr n ↦ rw (y, n) refl
            | inl y' ↦ elim (Bool-cases (is_ignored ignore_paths (drop e.base e.path))) [
              | inl i ↦ rw (y, y', i) refl
              | inr i ↦ rw (y, y', i) refl
            ]
          ]
        ]

    file_calls :
        (s : S) (e : Entry) (is_link : Bool) (cs : List Call)
        → outcome (handle_file callback extensions ignore_paths s e is_link) (λ t. run_calls t cs)
          ≡ run_calls s (
              when
                (is_nil extensions || has_extension extensions e.path)
                (e.path, file_stats e is_link)
              ++ cs)
    file_calls s e is_link cs = elim (Bool-cases (callback s e.path (file_stats e is_link)).1) [
      | inr n ↦ elim (Bool-cases (is_nil extensions)) [
        | inl y ↦ rw (y, n) refl
        | inr y ↦ elim (Bool-cases (has_extension extensions e.path)) [
          | inl h ↦ rw (y, h, n) refl
          | inr h ↦ rw (y, h) refl
        ]
      ]
      | inl n ↦ elim (Bool-cases (is_nil extensions)) [
        | inl y ↦ rw (y, n) refl
        | inr y ↦ elim (Bool-cases (has_extension extensions e.path)) [
          | inl h ↦ rw (y, h, n) refl
          | inr h ↦ rw (y, h) refl
        ]
      ]
    ]

    type_calls :
        (t : EntryType) (s : S) (e : Entry) (cs : List Call)
        → outcome (by_type callback extensions ignore_paths t s e) (λ u. run_calls u cs)
          ≡ run_calls s (calls_of extensions t e ++ cs)
    type_calls unreadable_directory s e cs = dir_calls s e false e.is_link cs
    type_calls directory s e cs = dir_calls s e true e.is_link cs
    type_calls file s e cs = file_calls s e e.is_link cs
    type_calls link s e cs = file_calls s e true cs
    type_calls no_stat s e cs = refl
    type_calls broken_link s e cs = refl
    type_calls unknown s e cs = refl

    -- The search runs its callback on every directory, and on every file and every link that leads
    -- somewhere whose path has one of the extensions, or on all of these if there are none, in
    -- order and until the callback wants to stop.
    pub search-run_calls :
        (s : S) (es : List Entry)
        → search callback extensions ignore_paths s es ≡ run_calls s (calls extensions es)
    unfolding search print_name
    search-run_calls s [] = refl
    search-run_calls s (e ∷ es) =
        ap
          (λ x.
            unless_stopped (print_name callback extensions ignore_paths s e).1
              (print_name callback extensions ignore_paths s e).0 x)
          (search-run_calls (print_name callback extensions ignore_paths s e).0 es)
        ∙ type_calls e.type s e (calls extensions es)
