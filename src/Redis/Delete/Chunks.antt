-- ===== src/Redis/Delete/Chunks.antt =====
-- Which ids `chunked_run` covers. The second loop begins at a multiple of the chunk size and not where
-- the first one ended, so that the two only meet if the first id is such a multiple.
use dindexer.Common.{
  ℕ, zero, suc, ◌+◌, ◌-◌, ◌*◌, ◌/◌, ◌%◌, ◌≤◌, ◌<◌, ◌≡◌, ◌↔◌, ◌⊎◌, inl, inr, List, [], ◌∷◌, ◌++◌,
  arith, Bool-cases, ◌==◌, ==→eq, ltb, ltb→lt,
}
use dindexer.Redis.Delete.{ids_from, run_chunks, run_single, chunked_run}

-- The id is among the keys of a command.
abbrev pub Has : ℕ → List ℕ → Type 0
Has x [] = ⊥
Has x (y ∷ ys) = (x ≡ y) ⊎ Has x ys

-- The id is among the keys of some command.
abbrev pub Runs : ℕ → List (List ℕ) → Type 0
Runs x [] = ⊥
Runs x (c ∷ cs) = Has x c ⊎ Runs x cs

Runs-append : (x : ℕ) (cs ds : List (List ℕ)) → Runs x (cs ++ ds) ↔ (Runs x cs ⊎ Runs x ds)
Runs-append x [] ds = ((λ h. inr h), λ h. elim h [ inl k ↦ absurd k | inr k ↦ k ])
Runs-append x (c ∷ cs) ds = (
  (λ h. elim h [
    | inl k ↦ inl (inl k)
    | inr k ↦ elim ((Runs-append x cs ds).0 k) [ inl a ↦ inl (inr a) | inr b ↦ inr b ]
  ]),
  λ h. elim h [
    | inl k ↦ elim k [ inl a ↦ inl a | inr b ↦ inr ((Runs-append x cs ds).1 (inl b)) ]
    | inr k ↦ inr ((Runs-append x cs ds).1 (inr k))
  ],
)

ids_from-Has : (x from count : ℕ) → Has x (ids_from from count) ↔ ((from ≤ x) × (x < from + count))
unfolding ids_from
ids_from-Has x from zero = ((λ h. absurd h), λ h. absurd (omega arith))
ids_from-Has x from (suc count) =
    let ih = ids_from-Has x (suc from) count in
    (
      λ h. elim h [ inl e ↦ omega arith | inr k ↦ let b = ih.0 k in omega arith ],
      λ h. elim (Bool-cases (x == from)) [
        | inl e ↦ inl (==→eq x from e)
        | inr ne ↦ inr (ih.1 (ground arith))
      ],
    )

run_single-Runs : (x i rounds : ℕ) → Runs x (run_single i rounds) ↔ ((i ≤ x) × (x < i + rounds))
unfolding run_single
run_single-Runs x i zero = ((λ h. absurd h), λ h. absurd (omega arith))
run_single-Runs x i (suc rounds) =
    let ih = run_single-Runs x (suc i) rounds in
    (
      λ h. elim h [
        | inl e ↦ elim e [ inl at ↦ omega arith | inr z ↦ absurd z ]
        | inr k ↦ let b = ih.0 k in omega arith
      ],
      λ h. elim (Bool-cases (x == i)) [
        | inl e ↦ inl (inl (==→eq x i e))
        | inr ne ↦ inr (ih.1 (ground arith))
      ],
    )

run_chunks-Runs :
    (chunk x from rounds i : ℕ)
    → Runs x (run_chunks chunk from rounds i)
      ↔ ((i * chunk + from ≤ x) × (x < (i + rounds) * chunk + from))
unfolding run_chunks
run_chunks-Runs chunk x from zero i = ((λ h. absurd h), λ h. absurd (omega arith))
run_chunks-Runs chunk x from (suc rounds) i =
    let ih = run_chunks-Runs chunk x from rounds (suc i) in
    let one = ids_from-Has x (i * chunk + from) chunk in
    (
      λ h. elim h [
        | inl a ↦ let b = one.0 a in omega arith
        | inr k ↦ let b = ih.0 k in omega arith
      ],
      λ h. elim (Bool-cases (ltb x (i * chunk + from + chunk))) [
        | inl e ↦ inl (one.1 (h.0, ltb→lt _ _ e))
        | inr ne ↦ let le : i * chunk + from + chunk ≤ x = ground arith in inr (ih.1 (omega arith))
      ],
    )

-- The commands of `chunked_run`, in chunks of 8, cover exactly the ids of the whole chunks, and
-- those from the last multiple of 8 up to the end of the range.
pub chunked_run-Runs :
    (x from count : ℕ)
    → Runs x (chunked_run 8 from count) ↔ (
        ((from ≤ x) × (x < from + count / 8 * 8))
        ⊎ (((from + count) / 8 * 8 ≤ x) × (x < from + count)))
unfolding chunked_run
chunked_run-Runs x from count =
    let start : ℕ = (from + count) / 8 * 8 in
    let both =
      Runs-append x (run_chunks 8 from (count / 8) 0) (run_single start (from + count - start)) in
    let first = run_chunks-Runs 8 x from (count / 8) 0 in
    let second = run_single-Runs x start (from + count - start) in
    (
      λ h. elim (both.0 h) [
        | inl a ↦ inl (let b = first.0 a in omega arith)
        | inr a ↦ inr (let b = second.0 a in omega arith)
      ],
      λ h. elim h [
        | inl a ↦ both.1 (inl (first.1 (omega arith)))
        | inr a ↦ both.1 (inr (second.1 (omega arith)))
      ],
    )

-- If the first id is a multiple of 8, the commands of `chunked_run` cover exactly the ids of the
-- range.
pub chunked_run_aligned :
    (x from count : ℕ)
    → from % 8 ≡ 0
    → Runs x (chunked_run 8 from count) ↔ ((from ≤ x) × (x < from + count))
chunked_run_aligned x from count h =
    let all = chunked_run-Runs x from count in
    (
      λ r. elim (all.0 r) [ inl a ↦ omega arith | inr a ↦ omega arith ],
      λ r. elim (Bool-cases (ltb x (from + count / 8 * 8))) [
        | inl e ↦ all.1 (inl (r.0, ltb→lt _ _ e))
        | inr ne ↦ let le : from + count / 8 * 8 ≤ x = ground arith in all.1 (inr (omega arith))
      ],
    )

-- If the remainders of the first id and of the count by 8 add up to 8 or more, the id behind the
-- whole chunks belongs to the range, and no command of `chunked_run` covers it.
pub chunked_run_misses :
    (from count : ℕ)
    → 8 ≤ from % 8 + count % 8
    → (from + count / 8 * 8 < from + count)
      × (¬ Runs (from + count / 8 * 8) (chunked_run 8 from count))
chunked_run_misses from count h = (
  omega arith,
  λ r. elim ((chunked_run-Runs (from + count / 8 * 8) from count).0 r) [
    | inl a ↦ omega arith
    | inr a ↦ omega arith
  ],
)

-- If at least one id is to be deleted, and the remainder of the first id by 8 and the count add up
-- to less than 8, the commands of `chunked_run` cover every id before the range down to the
-- multiple of 8 below it.
pub chunked_run_strays :
    (x from count : ℕ)
    → 0 < count
    → from % 8 + count < 8
    → from / 8 * 8 ≤ x
    → x < from
    → Runs x (chunked_run 8 from count)
chunked_run_strays x from count pos few lo hi =
    (chunked_run-Runs x from count).1 (inr (omega arith))
