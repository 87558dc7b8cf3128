-- ===== src/Postgres/Navigate/Rows.antt =====
-- The rows come back as they were.
use dindexer.Common.{
  ℕ, ◌+◌, ◌<◌, ◌≡◌, refl, sym, ap, ◌∙◌, arith, true, false, Option, some, none, List, [], ◌∷◌, ◌++◌,
  Bytes, length, length-append, All, ◌==◌, ==_refl, append-nil, append_assoc, map, codes,
}
use dindexer.Postgres.Navigate.{
  SetDetails, FileDetails, and_then, last_size, expand_array, push_last, push_back, push_all,
  flatten, find_set_details, find_file_details, query_no_conditions, query_files_in_dir,
  set_details_map, file_details_map,
}
use dindexer.Postgres.{Query}

module _ (n : ℕ) where
  last_size-snoc :
      (list : List (List Bytes)) (r : List Bytes) → last_size n 0 (list ++ r ∷ []) ≡ length r
  last_size-snoc [] r = refl
  last_size-snoc (q ∷ []) r = refl
  last_size-snoc (q ∷ p ∷ list) r = last_size-snoc (p ∷ list) r

  push_last-snoc :
      (x : Bytes) (list : List (List Bytes)) (r : List Bytes)
      → push_last n 0 x (list ++ r ∷ []) ≡ list ++ (r ++ x ∷ []) ∷ []
  unfolding push_last
  push_last-snoc x [] r = refl
  push_last-snoc x (q ∷ []) r = refl
  push_last-snoc x (q ∷ p ∷ list) r = ap (λ l. q ∷ l) (push_last-snoc x (p ∷ list) r)

  expand_array-room :
      (list : List (List Bytes)) (r : List Bytes)
      → length r < n
      → expand_array n 0 (list ++ r ∷ []) ≡ some (list ++ r ∷ [])
  unfolding expand_array
  expand_array-room list r h =
      let differs : (last_size n 0 (list ++ r ∷ []) == n) ≡ false =
        rw (last_size-snoc list r) (ground arith) in
      rw differs refl

  expand_array-full :
      (list : List (List Bytes))
      → last_size n 0 list ≡ n
      → expand_array n 0 list ≡ some (list ++ [] ∷ [])
  unfolding expand_array
  expand_array-full list h =
      let full : (last_size n 0 list == n) ≡ true = rw h (==_refl n) in rw full refl

  -- The last row has room.
  push_back-room :
      (x : Bytes) (list : List (List Bytes)) (r : List Bytes)
      → length r < n
      → push_back n 0 x (list ++ r ∷ []) ≡ some (list ++ (r ++ x ∷ []) ∷ [])
  unfolding push_back
  push_back-room x list r h =
      ap (λ o. and_then o (λ l. some (push_last n 0 x l))) (expand_array-room list r h)
      ∙ ap some (push_last-snoc x list r)

  -- The last row is full, or there is none.
  push_back-full :
      (x : Bytes) (list : List (List Bytes))
      → last_size n 0 list ≡ n
      → push_back n 0 x list ≡ some (list ++ (x ∷ []) ∷ [])
  unfolding push_back
  push_back-full x list h =
      ap (λ o. and_then o (λ l. some (push_last n 0 x l))) (expand_array-full list h)
      ∙ ap some (push_last-snoc x list [])

  push_all-room :
      (xs : List Bytes) (list : List (List Bytes)) (r : List Bytes)
      → length r + length xs ≡ n
      → push_all n 0 xs (list ++ r ∷ []) ≡ some (list ++ (r ++ xs) ∷ [])
  unfolding push_all
  push_all-room [] list r h = ap (λ q. some (list ++ q ∷ [])) (sym (append-nil r))
  push_all-room (x ∷ xs) list r h =
      ap (λ o. and_then o (λ l. push_all n 0 xs l)) (push_back-room x list r (omega arith))
      ∙ push_all-room xs list (r ++ x ∷ []) (omega (arith, length-append r (x ∷ [])))
      ∙ ap (λ q. some (list ++ q ∷ [])) (append_assoc r (x ∷ []) xs)

  push_all-append :
      (xs ys : List Bytes) (list : List (List Bytes))
      → push_all n 0 (xs ++ ys) list ≡ and_then (push_all n 0 xs list) (λ l. push_all n 0 ys l)
  unfolding push_all
  push_all-append [] ys list = refl
  push_all-append (x ∷ xs) ys list = go (push_back n 0 x list) (λ l. push_all-append xs ys l)
    where
      go :
          (o : Option (List (List Bytes)))
          → ((l : List (List Bytes))
              → push_all n 0 (xs ++ ys) l ≡ and_then (push_all n 0 xs l) (λ l. push_all n 0 ys l))
          → and_then o (λ l. push_all n 0 (xs ++ ys) l)
            ≡ and_then (and_then o (λ l. push_all n 0 xs l)) (λ l. push_all n 0 ys l)
      go none k = refl
      go (some l) k = k l

  push_all-row :
      (r : List Bytes) (list : List (List Bytes))
      → length r ≡ n
      → 0 < n
      → last_size n 0 list ≡ n
      → push_all n 0 r list ≡ some (list ++ r ∷ [])
  unfolding push_all
  push_all-row [] list h z l = absurd (omega arith)
  push_all-row (x ∷ r) list h z l =
      ap (λ o. and_then o (λ l. push_all n 0 r l)) (push_back-full x list l)
      ∙ push_all-room r list (x ∷ []) (omega arith)

  push_all-flatten :
      (rows list : List (List Bytes))
      → All (λ r. length r ≡ n) rows
      → 0 < n
      → last_size n 0 list ≡ n
      → push_all n 0 (flatten rows) list ≡ some (list ++ rows)
  unfolding push_all
  push_all-flatten [] list a z l = ap some (sym (append-nil list))
  push_all-flatten (r ∷ rows) list (a, as') z l =
      push_all-append r (flatten rows) list
      ∙ ap (λ o. and_then o (λ l. push_all n 0 (flatten rows) l)) (push_all-row r list a z l)
      ∙ push_all-flatten rows (list ++ r ∷ []) as' z (last_size-snoc list r ∙ a)
      ∙ ap some (append_assoc list (r ∷ []) rows)

-- When each row that the server has for their query is as wide as the columns asked for, and at
-- least one is asked for, `find_set_details` and `find_file_details` put the values of the reply
-- together to the same rows again, and do not throw.
pub find_details-rows :
    (reply : Query → List (List Bytes)) (sets : List SetDetails) (files : List FileDetails)
    (ids : List ℕ) (set level : ℕ) (dir : Bytes)
    → 0 < length sets
    → All
        (λ r. length r ≡ length sets)
        (reply (query_no_conditions (map set_details_map sets) (codes "sets") ids))
    → 0 < length files
    → All
        (λ r. length r ≡ length files)
        (reply (query_files_in_dir (map file_details_map files) dir level set))
    → (find_set_details reply sets ids
        ≡ some (reply (query_no_conditions (map set_details_map sets) (codes "sets") ids)))
      × (find_file_details reply files set level dir
          ≡ some (reply (query_files_in_dir (map file_details_map files) dir level set)))
unfolding find_set_details find_file_details
find_details-rows reply sets files ids set level dir z a y b = (
  push_all-flatten (length sets)
      (reply (query_no_conditions (map set_details_map sets) (codes "sets") ids)) [] a z refl,
  push_all-flatten (length files)
      (reply (query_files_in_dir (map file_details_map files) dir level set)) [] b y refl,
)
