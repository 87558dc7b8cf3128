-- ===== src/PathName/Reserve.antt =====
-- The constructor reserves room for exactly the atoms that it finds.
use dindexer.Common.{
  ℕ, ◌+◌, ◌≡◌, ◌≢◌, refl, sym, ap, ◌∙◌, Bool, false, inl, inr, [], ◌∷◌, arith, Bytes, length,
  if◌then◌else◌, ◌==◌, Bool-cases, pieces, pieces-cons, length-map, ==→eq,
}
use dindexer.PathName.{
  slash, count_grouped, reserved_atoms, split_path, begins_with_slash, ends_with_slash,
}
use dindexer.PathName.Parse.{components, split_path-components}

abbrev as_ℕ : Bool → ℕ
as_ℕ b = if b then 1 else 0

-- Only the first byte sees whether the byte before is a slash.
count_after :
    (s : Bytes) (prev : ℕ)
    → prev ≢ slash
    → count_grouped s slash prev ≡ count_grouped s slash slash + as_ℕ (begins_with_slash s)
unfolding count_grouped
count_after [] prev h = refl
count_after (c ∷ s) prev h = ground arith

components-cons :
    (c d : ℕ) (s : Bytes)
    → c ≢ slash
    → length (components (c ∷ d ∷ s))
      ≡ length (components (d ∷ s)) + as_ℕ (begins_with_slash (d ∷ s))
unfolding pieces
components-cons c d s h = elim (Bool-cases (d == slash)) [
  | inl e ↦ rw (e, ne) (omega arith)
  | inr e ↦ let (p, ps, k) = pieces-cons slash s in rw (e, ne, k) (omega arith)
]
  where
    ne : (c == slash) ≡ false
    ne = ground arith

count-skip :
    (c : ℕ) (s : Bytes) → c ≢ slash → count_grouped (c ∷ s) slash slash ≡ count_grouped s slash c
unfolding count_grouped
count-skip c s h = ground arith

count-slash : (s : Bytes) → count_grouped (slash ∷ s) slash slash ≡ count_grouped s slash slash
unfolding count_grouped
count-slash s = omega arith

count_single :
    (c : ℕ)
    → count_grouped (c ∷ []) slash slash + 1
      ≡ length (components (c ∷ [])) + as_ℕ (ends_with_slash (c ∷ []))
unfolding count_grouped pieces
count_single c = ground arith

components-slash : (s : Bytes) → components (slash ∷ s) ≡ components s
unfolding pieces
components-slash s = refl

count_lem :
    (c : ℕ) (s : Bytes)
    → count_grouped (c ∷ s) slash slash + 1
      ≡ length (components (c ∷ s)) + as_ℕ (ends_with_slash (c ∷ s))
count_lem c [] = count_single c
count_lem c (d ∷ s) = elim (Bool-cases (c == slash)) [
  | inl e ↦
      rw (==→eq c slash e)
        (omega (arith, count_lem d s, count-slash (d ∷ s), ap length (components-slash (d ∷ s))))
  | inr ne ↦
      let h : c ≢ slash = ground arith in
      omega (
        arith,
        count_lem d s,
        count_after (d ∷ s) c h,
        components-cons c d s h,
        count-skip c (d ∷ s) h,
      )
]

-- The constructor reserves room for exactly as many atoms as `split_path` then finds, for every
-- text that is not empty.
pub reserved_atoms-length :
    (c : ℕ) (s : Bytes) → reserved_atoms (c ∷ s) ≡ length (split_path (c ∷ s))
unfolding reserved_atoms
reserved_atoms-length c s =
    let found : length (split_path (c ∷ s)) ≡ length (components (c ∷ s)) =
      sym (length-map _ (split_path (c ∷ s))) ∙ ap length (split_path-components (c ∷ s)) in
    let h : 0 ≢ slash = omega arith in omega (arith, found, count_lem c s, count_after (c ∷ s) 0 h)
