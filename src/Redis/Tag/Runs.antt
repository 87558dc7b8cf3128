-- ===== src/Redis/Tag/Runs.antt =====
-- Which tags are deleted from which files.
use dindexer.Common.{
  ℕ, ◌≡◌, ◌↔◌, ◌⊎◌, refl, ap, ap₂, sym, ◌∙◌, inl, inr, true, not, ◌&&◌, some, List, [], ◌∷◌, ◌++◌,
  Bytes, StrRange, slice, All, ◌==◌, bytes_eq, bytes_eq→eq, Bool-cases, keep_filled, pieces, take,
  take-nil, drop-nil, Among, Among-append,
}
use dindexer.Boost.{Splitter}
use dindexer.Split.{split_texts_lem}
use dindexer.Redis.Tag.{
  ScriptRun, tag_runs, run_id_based_script, ScannedFile, insert_tag, insert_tags, RegexSearch,
  any_regex, tag_texts, collect_tags, delete_all_tags, fields, with_fields, matched, runs_of,
  invalid_group_id, scan_tags, delete_all_tags_by_regex,
}

pub insert_tag-Among :
    (t : Bytes) (set : List Bytes) (u : Bytes)
    → Among t (insert_tag set u) ↔ (Among t set ⊎ (t ≡ u))
unfolding insert_tag
insert_tag-Among t [] u = (
  (λ h. elim h [ inl e ↦ inr e | inr k ↦ absurd k ]),
  λ h. elim h [ inl k ↦ absurd k | inr e ↦ inl e ],
)
insert_tag-Among t (v ∷ vs) u = elim (Bool-cases (bytes_eq v u)) [
  | inl e ↦
      rw (e) ((λ h. inl h), λ h. elim h [ inl k ↦ k | inr q ↦ inl (q ∙ sym (bytes_eq→eq v u e)) ])
  | inr n ↦
      let ih = insert_tag-Among t vs u in
      rw (n) (
        (λ h. elim h [
          | inl e ↦ inl (inl e)
          | inr k ↦ elim (ih.0 k) [ inl a ↦ inl (inr a) | inr b ↦ inr b ]
        ]),
        λ h. elim h [
          | inl a ↦ elim a [ inl e ↦ inl e | inr k ↦ inr (ih.1 (inl k)) ]
          | inr b ↦ inr (ih.1 (inr b))
        ],
      )
]

insert_tags-Among :
    (t : Bytes) (set ts : List Bytes) → Among t (insert_tags set ts) ↔ (Among t set ⊎ Among t ts)
unfolding insert_tags
insert_tags-Among t set [] = ((λ h. inl h), λ h. elim h [ inl k ↦ k | inr z ↦ absurd z ])
insert_tags-Among t set (u ∷ us) =
    let ih = insert_tags-Among t (insert_tag set u) us in
    let one = insert_tag-Among t set u in
    (
      (λ h. elim (ih.0 h) [
        | inl a ↦ elim (one.0 a) [ inl k ↦ inl k | inr e ↦ inr (inl e) ]
        | inr b ↦ inr (inr b)
      ]),
      λ h. elim h [
        | inl k ↦ ih.1 (inl (one.1 (inl k)))
        | inr b ↦ elim b [ inl e ↦ ih.1 (inl (one.1 (inr e))) | inr k ↦ ih.1 (inr k) ]
      ],
    )

run_id_based_script-nil : (set : ℕ) (ids : List ℕ) → run_id_based_script ids [] set ≡ []
unfolding run_id_based_script
run_id_based_script-nil set [] = refl
run_id_based_script-nil set (i ∷ ids) = run_id_based_script-nil set ids

abbrev pub run : Bytes → ℕ → ℕ → ScriptRun
run t id set = record { tag = t; file_id = id; set = set }

tag_runs-Among :
    (t : Bytes) (id i set : ℕ) (ts : List Bytes)
    → Among (run t id set) (tag_runs i ts set) ↔ ((id ≡ i) × Among t ts)
tag_runs-Among t id i set [] = ((λ h. absurd h), λ h. absurd h.1)
tag_runs-Among t id i set (u ∷ us) =
    let ih = tag_runs-Among t id i set us in
    (
      (λ h. elim h [
        | inl e ↦ (ap (λ r. r.file_id) e, inl (ap (λ r. r.tag) e))
        | inr k ↦ ((ih.0 k).0, inr (ih.0 k).1)
      ]),
      λ h. elim h.1 [ inl e ↦ inl (ap₂ (λ v j. run v j set) e h.0) | inr k ↦ inr (ih.1 (h.0, k)) ],
    )

script-Among :
    (t : Bytes) (id set : ℕ) (ids : List ℕ) (ts : List Bytes)
    → Among (run t id set) (run_id_based_script ids ts set) ↔ (Among id ids × Among t ts)
unfolding run_id_based_script
script-Among t id set [] ts = ((λ h. absurd h), λ h. absurd h.0)
script-Among t id set (i ∷ ids) ts =
    let ih = script-Among t id set ids ts in
    let here = tag_runs-Among t id i set ts in
    let both = Among-append (run t id set) (tag_runs i ts set) (run_id_based_script ids ts set) in
    (
      (λ h. elim (both.0 h) [
        | inl a ↦ (inl (here.0 a).0, (here.0 a).1)
        | inr b ↦ (inr (ih.0 b).0, (ih.0 b).1)
      ]),
      λ h. elim h.0 [
        | inl e ↦ both.1 (inl (here.1 (e, h.1)))
        | inr k ↦ both.1 (inr (ih.1 (k, h.1)))
      ],
    )

module _ (boost : Splitter) where
  open boost use {trim, trim_texts, trim_copy}

  -- One of the files has the tag.
  abbrev pub Tagged : (ℕ → Bytes) → Bytes → List ℕ → Type 0
  Tagged replies t [] = ⊥
  Tagged replies t (id ∷ ids) = Among t (tag_texts boost (replies id)) ⊎ Tagged replies t ids

  collect_tags-Among :
      (replies : ℕ → Bytes) (t : Bytes) (ids : List ℕ) (set : List Bytes)
      → Among t (collect_tags boost replies ids set) ↔ (Among t set ⊎ Tagged replies t ids)
  unfolding collect_tags
  collect_tags-Among replies t [] set = ((λ h. inl h), λ h. elim h [ inl k ↦ k | inr z ↦ absurd z ])
  collect_tags-Among replies t (id ∷ ids) set =
      let ih = collect_tags-Among replies t ids (insert_tags set (tag_texts boost (replies id))) in
      let one = insert_tags-Among t set (tag_texts boost (replies id)) in
      (
        (λ h. elim (ih.0 h) [
          | inl a ↦ elim (one.0 a) [ inl k ↦ inl k | inr m ↦ inr (inl m) ]
          | inr b ↦ inr (inr b)
        ]),
        λ h. elim h [
          | inl k ↦ ih.1 (inl (one.1 (inl k)))
          | inr b ↦ elim b [ inl m ↦ ih.1 (inl (one.1 (inr m))) | inr k ↦ ih.1 (inr k) ]
        ],
      )

  -- Deleting all tags of files runs the script for a file and a tag exactly when the file is among
  -- those given and some of them has the tag.
  pub delete_all_tags-Among :
      (replies : ℕ → Bytes) (ids : List ℕ) (set : ℕ) (t : Bytes) (id : ℕ)
      → Among (run t id set) (delete_all_tags boost replies ids set)
        ↔ (Among id ids × Tagged replies t ids)
  unfolding delete_all_tags
  delete_all_tags-Among replies ids set t id =
      let both = script-Among t id set ids (collect_tags boost replies ids []) in
      let tagged = collect_tags-Among replies t ids [] in
      (
        (λ h. ((both.0 h).0, elim (tagged.0 (both.0 h).1) [ inl z ↦ absurd z | inr k ↦ k ])),
        λ h. both.1 (h.0, tagged.1 (inr h.1)),
      )

  trim-nil : trim [] ≡ []
  trim-nil =
      sym (trim_texts [] (record { start = 0; len = 0 }))
      ∙ slice-nil (trim_copy [] (record { start = 0; len = 0 }))
    where
      slice-nil : (r : StrRange) → slice r [] ≡ []
      slice-nil r = ap (take r.len) (drop-nil r.start) ∙ take-nil r.len

  no_tags : tag_texts boost [] ≡ []
  unfolding pieces
  no_tags = split_texts_lem boost [] b',' true true ∙ ap (λ x. keep_filled (x ∷ [])) trim-nil

  -- The server has both fields of the file.
  abbrev pub HasFields : ScannedFile → Type 0
  HasFields f = ((p : Bytes) × (f.path ≡ some p)) × ((t : Bytes) × (f.tags ≡ some t))

  scan_tags-nil :
      (find : RegexSearch) (files : List ScannedFile) (regexes : List Bytes) (set : ℕ)
      (ids : List ℕ)
      → All HasFields files
      → (ids' : List ℕ) × (scan_tags boost find files regexes set ([], ids) ≡ some ([], ids'))
  unfolding scan_tags
  scan_tags-nil find [] regexes set ids h = (ids, refl)
  scan_tags-nil find (f ∷ fs) regexes set ids (((p, path), (t, tags)), hs) =
      let (a, ea) = scan_tags-nil find fs regexes set (ids ++ f.id ∷ []) hs in
      let (b, eb) = scan_tags-nil find fs regexes set ids hs in
      let k = (λ (q s : Bytes).
        scan_tags boost find fs regexes set
          (matched boost (any_regex find q regexes) f.id (tag_texts boost s) ([], ids))) in
      let read : with_fields boost (fields boost f.path f.tags) k ≡ k p [] =
        ap (λ o. with_fields boost (fields boost o f.tags) k) path
        ∙ ap (λ o. with_fields boost (fields boost (some p) o) k) tags in
      let none_new : k p []
          ≡ scan_tags boost find fs regexes set
              (matched boost (any_regex find p regexes) f.id [] ([], ids)) =
        ap
          (λ ts.
            scan_tags boost find fs regexes set
              (matched boost (any_regex find p regexes) f.id ts ([], ids)))
          no_tags in
      elim (Bool-cases (not (set == invalid_group_id) && not (set == f.group_id))) [
        | inl c ↦ (b, rw (c) eb)
        | inr c ↦ elim (Bool-cases (any_regex find p regexes)) [
          | inl y ↦ (a, rw (c) (read ∙ none_new ∙ rw (y, insert_tags) ea))
          | inr n ↦ (b, rw (c) (read ∙ none_new ∙ rw (n) eb))
        ]
      ]

  -- Deleting all tags of files by regular expressions runs no script at all, if the server has the
  -- path and the tags of each file that the scan finds.
  pub delete_all_tags_by_regex-nil :
      (find : RegexSearch) (files : List ScannedFile) (regexes : List Bytes) (set : ℕ)
      → All HasFields files
      → delete_all_tags_by_regex boost find files regexes set ≡ some []
  unfolding delete_all_tags_by_regex
  delete_all_tags_by_regex-nil find files regexes set h =
      let (ids, e) = scan_tags-nil find files regexes set [] h in
      ap (runs_of boost set) e ∙ ap some (run_id_based_script-nil set ids)
