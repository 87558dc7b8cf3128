-- ===== src/ContentType/Video.antt =====
-- When a listing is taken for a video disc.
use dindexer.Common.{
  ℕ, suc, ◌≤◌, ◌<◌, ◌≡◌, ◌↔◌, ◌⊎◌, refl, sym, subst, inl, inr, Bool, true, false, not, ◌&&◌, List,
  [], ◌∷◌, Bytes, arith, length, ◌==◌, ltb, leb, if◌then◌else◌, All, Bool-cases,
}
use dindexer.Boost.{StringFind}
use dindexer.RecordData.{FileRecordData, rel_path}
use dindexer.SetListing.{SetListingView, view_begin, is_end}
use dindexer.SetListing.Helpers.{
  count_listing_items, count_listing_items_recursive, flattened_listing,
}
use dindexer.ContentType.{
  MediaTypes, cd_rom, directory, dvd, ContentTypes, empty, generic, video_dvd, video_cd, Fnmatch,
  any_match, check_missing_from, check_missing_content, is_nil, dvd_files, cd_files,
  identify_video_dvd, identify_video_cd, guess_content_type, run_checkers, is_dvd, is_directory,
  is_cd_rom,
}

-- A record of the list matches the pattern.
abbrev pub HasMatch : Fnmatch → List FileRecordData → Bytes → Type 0
HasMatch fnmatch [] pattern = ⊥
HasMatch fnmatch (r ∷ rs) pattern =
    (fnmatch pattern (rel_path r) ≡ true) ⊎ HasMatch fnmatch rs pattern

any_match_iff :
    (fnmatch : Fnmatch) (rs : List FileRecordData) (p : Bytes)
    → (any_match fnmatch rs p ≡ true) ↔ HasMatch fnmatch rs p
unfolding any_match
any_match_iff fnmatch [] p = ((λ h. cc), λ h. absurd h)
any_match_iff fnmatch (r ∷ rs) p = elim (Bool-cases (fnmatch p (rel_path r))) [
  | inl e ↦ rw e ((λ h. inl refl), λ h. refl)
  | inr ne ↦ rw ne (
    (λ h. inr ((any_match_iff fnmatch rs p).0 h)),
    λ h. elim h [ inl e ↦ cc | inr k ↦ (any_match_iff fnmatch rs p).1 k ],
  )
]

-- No pattern is reported missing exactly when each has a match.
pub check_missing_content-HasMatch :
    (fnmatch : Fnmatch) (content : List FileRecordData) (checks : List Bytes)
    → (is_nil (check_missing_content fnmatch content checks) ≡ true)
      ↔ All (HasMatch fnmatch content) checks
unfolding check_missing_content
check_missing_content-HasMatch fnmatch content checks = go checks 0
  where
    go :
        (checks : List Bytes) (z : ℕ)
        → (is_nil (check_missing_from fnmatch content z checks) ≡ true)
          ↔ All (HasMatch fnmatch content) checks
    go [] z = ((λ h. tt), λ h. refl)
    go (p ∷ ps) z = elim (Bool-cases (any_match fnmatch content p)) [
      | inl e ↦ rw e (
        (λ h. ((any_match_iff fnmatch content p).0 e, (go ps (suc z)).0 h)),
        λ h. (go ps (suc z)).1 h.1,
      )
      | inr ne ↦ rw ne ((λ h. cc), λ h. cc ((any_match_iff fnmatch content p).1 h.0))
    ]

-- What the checker for video DVDs asks of the medium and its content.
abbrev pub IsVideoDvd :
    StringFind → Fnmatch → MediaTypes → SetListingView → List FileRecordData → Type 0
IsVideoDvd find fnmatch media content flat =
    ((media ≡ dvd) ⊎ (media ≡ directory))
    × (2 ≤ count_listing_items find content)
    × All (HasMatch fnmatch flat) dvd_files

abbrev pub IsVideoCd :
    StringFind → Fnmatch → MediaTypes → SetListingView → List FileRecordData → Type 0
IsVideoCd find fnmatch media content flat =
    ((media ≡ cd_rom) ⊎ (media ≡ directory))
    × (4 ≤ count_listing_items find content)
    × All (HasMatch fnmatch flat) cd_files

tests_iff :
    (wrong : Bool) (items least : ℕ) (nothing_missing : Bool) {P Q : Type 0}
    → (wrong ≡ false) ↔ P
    → (nothing_missing ≡ true) ↔ Q
    → ((if wrong then false else if ltb items least then false else nothing_missing) ≡ true)
      ↔ (P × (least ≤ items) × Q)
tests_iff true items least m p q = ((λ h. cc), λ h. cc (p.1 h.0))
tests_iff false items least m p q = elim (Bool-cases (ltb items least)) [
  | inl few ↦ rw few ((λ h. cc), λ h. absurd (ground arith))
  | inr enough ↦ rw enough ((λ h. (p.0 refl, ground arith, q.0 h)), λ h. q.1 h.2)
]

dvd_medium :
    (m : MediaTypes)
    → ((not (is_dvd m) && not (is_directory m)) ≡ false) ↔ ((m ≡ dvd) ⊎ (m ≡ directory))
dvd_medium m = ground arith

cd_medium :
    (m : MediaTypes)
    → ((not (is_cd_rom m) && not (is_directory m)) ≡ false) ↔ ((m ≡ cd_rom) ⊎ (m ≡ directory))
cd_medium m = ground arith

-- The decision, from the outcomes of its tests.
chain : Bool → Bool → Bool → ℕ → ContentTypes
chain nothing is_dvd_video is_cd_video total =
    let cd = if leb total 200 then (if is_cd_video then video_cd else generic) else generic in
    if nothing
    then empty
    else if leb total 100
    then (if is_dvd_video then video_dvd else cd)
    else cd

chain-dvd :
    (e d c : Bool) (n : ℕ) {P : Type 0}
    → (d ≡ true) ↔ P
    → (chain e d c n ≡ video_dvd) ↔ ((e ≡ false) × (n ≤ 100) × P)
unfolding chain
chain-dvd true d c n p = ((λ h. cc), λ h. cc (h.0))
chain-dvd false false c n p = ((λ h. absurd (not_dvd c n h)), λ h. cc (p.1 h.2))
  where
    not_dvd : (c : Bool) (n : ℕ) → chain false false c n ≡ video_dvd → ⊥
    not_dvd c n h = ground arith
chain-dvd false true c n p = ((λ h. (refl, small c n h, p.0 refl)), λ h. large c n h.1)
  where
    small : (c : Bool) (n : ℕ) → chain false true c n ≡ video_dvd → n ≤ 100
    small c n h = ground arith

    large : (c : Bool) (n : ℕ) → n ≤ 100 → chain false true c n ≡ video_dvd
    large c n h = ground arith

chain-cd :
    (e d c : Bool) (n : ℕ) {P : Type 0}
    → (c ≡ true) ↔ P
    → (chain e d c n ≡ video_cd) ↔ ((e ≡ false) × (n ≤ 200) × P × ((d ≡ false) ⊎ (100 < n)))
unfolding chain
chain-cd true d c n p = ((λ h. cc), λ h. cc (h.0))
chain-cd false d false n p = ((λ h. absurd (not_cd d n h)), λ h. cc (p.1 h.2))
  where
    not_cd : (d : Bool) (n : ℕ) → chain false d false n ≡ video_cd → ⊥
    not_cd d n h = ground arith
chain-cd false d true n p =
    ((λ h. (refl, (small d n h).0, p.0 refl, (small d n h).1)), λ h. large d n h.1 h.3)
  where
    small :
        (d : Bool) (n : ℕ) → chain false d true n ≡ video_cd → (n ≤ 200) × ((d ≡ false) ⊎ (100 < n))
    small d n h = ground arith

    large : (d : Bool) (n : ℕ) → n ≤ 200 → (d ≡ false) ⊎ (100 < n) → chain false d true n ≡ video_cd
    large d n h k = ground arith

module _ (find : StringFind) (fnmatch : Fnmatch) (media : MediaTypes)
    (content : SetListingView) where
  identify_video_dvd_iff :
      (flat : List FileRecordData)
      → (identify_video_dvd find fnmatch media content flat ≡ true)
        ↔ IsVideoDvd find fnmatch media content flat
  unfolding identify_video_dvd
  identify_video_dvd_iff flat =
      tests_iff _ (count_listing_items find content) 2 _ (dvd_medium media)
        (check_missing_content-HasMatch fnmatch flat dvd_files)

  identify_video_cd_iff :
      (flat : List FileRecordData)
      → (identify_video_cd find fnmatch media content flat ≡ true)
        ↔ IsVideoCd find fnmatch media content flat
  unfolding identify_video_cd
  identify_video_cd_iff flat =
      tests_iff _ (count_listing_items find content) 4 _ (cd_medium media)
        (check_missing_content-HasMatch fnmatch flat cd_files)

  abbrev pub total_entries : ℕ → ℕ
  total_entries entries_count =
      if not (entries_count == 0)
      then entries_count
      else count_listing_items_recursive find (suc (length content.range)) content

  abbrev pub flattened : List FileRecordData
  flattened = flattened_listing find (suc (length content.range)) content

  chain_lem :
      (n : ℕ)
      → guess_content_type find fnmatch media content n
        ≡ chain
            (is_end find (view_begin find content))
            (identify_video_dvd find fnmatch media content flattened)
            (identify_video_cd find fnmatch media content flattened)
            (total_entries n)
  unfolding guess_content_type run_checkers chain
  chain_lem n = refl

  -- Content is taken for a video DVD exactly when the view is not empty, holds at most 100 entries
  -- in all, two or more of them directly, stands on a DVD or in a directory, and has a match of
  -- each of the DVD's file patterns.
  pub guess_content_type-video_dvd :
      (entries_count : ℕ)
      → (guess_content_type find fnmatch media content entries_count ≡ video_dvd) ↔ (
          (is_end find (view_begin find content) ≡ false)
          × (total_entries entries_count ≤ 100)
          × IsVideoDvd find fnmatch media content flattened)
  guess_content_type-video_dvd n =
      subst
        (λ t. (t ≡ video_dvd) ↔ (
          (is_end find (view_begin find content) ≡ false)
          × (total_entries n ≤ 100)
          × IsVideoDvd find fnmatch media content flattened))
        (sym (chain_lem n))
        (chain-dvd _ _ (identify_video_cd find fnmatch media content flattened) (total_entries n)
          (identify_video_dvd_iff flattened))

  -- Content is taken for a video CD exactly when the view is not empty, holds at most 200 entries,
  -- four or more of them directly, stands on a CD or in a directory, has a match of each of the
  -- CD's file patterns, and is no video DVD or holds more than 100 entries.
  pub guess_content_type-video_cd :
      (entries_count : ℕ)
      → (guess_content_type find fnmatch media content entries_count ≡ video_cd) ↔ (
          (is_end find (view_begin find content) ≡ false)
          × (total_entries entries_count ≤ 200)
          × IsVideoCd find fnmatch media content flattened
          × ((identify_video_dvd find fnmatch media content flattened ≡ false)
              ⊎ (100 < total_entries entries_count)))
  guess_content_type-video_cd n =
      subst
        (λ t. (t ≡ video_cd) ↔ (
          (is_end find (view_begin find content) ≡ false)
          × (total_entries n ≤ 200)
          × IsVideoCd find fnmatch media content flattened
          × ((identify_video_dvd find fnmatch media content flattened ≡ false)
              ⊎ (100 < total_entries n))))
        (sym (chain_lem n))
        (chain-cd _ (identify_video_dvd find fnmatch media content flattened) _ (total_entries n)
          (identify_video_cd_iff flattened))
