-- ===== src/SetListing/Order.antt =====
-- The order of the records is a strict weak order, and insertion at the lower bound keeps a list sorted.
use dindexer.Common.{
  ℕ, zero, suc, ◌≡◌, refl, subst, inl, inr, true, false, List, [], ◌∷◌, ◌++◌, arith, Bytes, take,
  drop, All, All-map, Bool-cases,
}
use mathlib.Core.List.{Perm, perm_middle}
use mathlib.Core.List.Perm
use dindexer.Common.{take-append-drop}
use dindexer.RecordData.{FileRecordData}
use dindexer.SetListing.{
  SearchKey, key, bytes_lt, file_record_data_lt, lower_bound, insert_sorted, sort_list,
}

bytes_lt_irrefl : (s : Bytes) → bytes_lt s s ≡ false
unfolding bytes_lt
bytes_lt_irrefl [] = refl
bytes_lt_irrefl (c ∷ s) = ground (arith, bytes_lt_irrefl s)

bytes_lt_asymm : (s t : Bytes) → bytes_lt s t ≡ true → bytes_lt t s ≡ false
unfolding bytes_lt
bytes_lt_asymm s [] h = cc
bytes_lt_asymm [] (d ∷ t) h = refl
bytes_lt_asymm (c ∷ s) (d ∷ t) h = ground (arith, bytes_lt_asymm s t)

bytes_lt_split : (s t u : Bytes) → bytes_lt s u ≡ true → bytes_lt s t ≡ false → bytes_lt t u ≡ true
unfolding bytes_lt
bytes_lt_split s t [] h n = cc
bytes_lt_split [] [] (e ∷ u) h n = refl
bytes_lt_split [] (d ∷ t) (e ∷ u) h n = cc
bytes_lt_split (c ∷ s) [] (e ∷ u) h n = refl
bytes_lt_split (c ∷ s) (d ∷ t) (e ∷ u) h n = ground (arith, bytes_lt_split s t u)

-- No record is before itself.
pub file_record_data_lt_irrefl : (a : SearchKey) → file_record_data_lt a a ≡ false
unfolding file_record_data_lt
file_record_data_lt_irrefl a = ground (arith, bytes_lt_irrefl a.abs_path)

pub file_record_data_lt_asymm :
    (a b : SearchKey) → file_record_data_lt a b ≡ true → file_record_data_lt b a ≡ false
unfolding file_record_data_lt
file_record_data_lt_asymm a b h = ground (arith, bytes_lt_asymm a.abs_path b.abs_path)

-- If `a` is before `c`, any `b` that `a` is not before is before `c`.
pub file_record_data_lt_split :
    (a b c : SearchKey)
    → file_record_data_lt a c ≡ true
    → file_record_data_lt a b ≡ false
    → file_record_data_lt b c ≡ true
unfolding file_record_data_lt
file_record_data_lt_split a b c h n =
    ground (arith, bytes_lt_split a.abs_path b.abs_path c.abs_path)

-- `x` may stand behind `r`.
abbrev pub NotBefore : FileRecordData → FileRecordData → Type 0
NotBefore r x = file_record_data_lt (key x) (key r) ≡ false

-- No record stands behind one that it is before.
abbrev pub IsSorted : List FileRecordData → Type 0
IsSorted [] = Unit {0}
IsSorted (r ∷ rs) = All (NotBefore r) rs × IsSorted rs

NotBefore-trans : (a b c : FileRecordData) → NotBefore a b → NotBefore b c → NotBefore a c
NotBefore-trans a b c h k = elim (Bool-cases (file_record_data_lt (key c) (key a))) [
  | inl e ↦ cc (file_record_data_lt_split (key c) (key b) (key a) e k)
  | inr ne ↦ ne
]

All-NotBefore :
    (a b : FileRecordData) (rs : List FileRecordData)
    → NotBefore a b
    → All (NotBefore b) rs
    → All (NotBefore a) rs
All-NotBefore a b rs h = All-map (NotBefore b) (NotBefore a) (λ c k. NotBefore-trans a b c h k) rs

lower_bound-before :
    (rs : List FileRecordData) (k : SearchKey)
    → All (λ r. file_record_data_lt (key r) k ≡ true) (take (lower_bound rs k) rs)
unfolding lower_bound
lower_bound-before [] k = tt
lower_bound-before (r ∷ rs) k = elim (Bool-cases (file_record_data_lt (key r) k)) [
  | inl e ↦ rw e (e, lower_bound-before rs k)
  | inr ne ↦ rw ne tt
]

lower_bound-behind :
    (rs : List FileRecordData) (x : FileRecordData)
    → IsSorted rs
    → All (NotBefore x) (drop (lower_bound rs (key x)) rs)
unfolding lower_bound
lower_bound-behind [] x s = tt
lower_bound-behind (r ∷ rs) x (h, s) = elim (Bool-cases (file_record_data_lt (key r) (key x))) [
  | inl e ↦ rw e (lower_bound-behind rs x s)
  | inr ne ↦ rw ne (ne, All-NotBefore x r rs ne h)
]

-- `lower_bound` splits a sorted list at the first record that is not before the key: all records in
-- front of it are before the key, and the key is before or equal to all behind it.
pub lower_bound_splits :
    (rs : List FileRecordData) (x : FileRecordData)
    → IsSorted rs
    → All (λ r. file_record_data_lt (key r) (key x) ≡ true) (take (lower_bound rs (key x)) rs)
      × All (NotBefore x) (drop (lower_bound rs (key x)) rs)
lower_bound_splits rs x s = (lower_bound-before rs (key x), lower_bound-behind rs x s)

All-insert :
    (P : FileRecordData → Type 0) (rs : List FileRecordData) (n : ℕ) (x : FileRecordData)
    → All P rs
    → P x
    → All P (take n rs ++ x ∷ drop n rs)
All-insert P rs zero x h p = (p, h)
All-insert P [] (suc n) x h p = (p, tt)
All-insert P (r ∷ rs) (suc n) x (hr, h) p = (hr, All-insert P rs n x h p)

-- Inserting a record at its lower bound keeps a sorted list sorted.
pub insert_sorted-IsSorted :
    (rs : List FileRecordData) (x : FileRecordData) → IsSorted rs → IsSorted (insert_sorted rs x)
unfolding insert_sorted
insert_sorted-IsSorted [] x s = (tt, tt)
insert_sorted-IsSorted (r ∷ rs) x (h, s) = elim (Bool-cases (file_record_data_lt (key r) (key x))) [
  | inl e ↦
      rw (e, lower_bound)
        (
          All-insert (NotBefore r) rs (lower_bound rs (key x)) x h
              (file_record_data_lt_asymm (key r) (key x) e),
          insert_sorted-IsSorted rs x s,
        )
  | inr ne ↦ rw (ne, lower_bound) ((ne, All-NotBefore x r rs ne h), (h, s))
]

pub insert_sorted-perm :
    (rs : List FileRecordData) (x : FileRecordData) → Perm (insert_sorted rs x) (x ∷ rs)
unfolding insert_sorted
insert_sorted-perm rs x =
    subst (λ l. Perm (insert_sorted rs x) (x ∷ l)) (take-append-drop (lower_bound rs (key x)) rs)
      (perm_middle (take (lower_bound rs (key x)) rs) (drop (lower_bound rs (key x)) rs))

-- `sort_list` gives a sorted list of the same records.
pub sort_list-IsSorted :
    (rs : List FileRecordData) → IsSorted (sort_list rs) × Perm (sort_list rs) rs
unfolding sort_list
sort_list-IsSorted [] = (tt, Perm.refl [])
sort_list-IsSorted (r ∷ rs) =
    let ih = sort_list-IsSorted rs in
    (
      insert_sorted-IsSorted (sort_list rs) r ih.0,
      Perm.trans (insert_sorted-perm (sort_list rs) r) (Perm.cons r ih.1),
    )
