-- ===== src/StringPool/Sources.antt =====
-- The order in which the ranges of a pool use its sources: each source is first used when it stands
-- at the end of the pool, which is what lets `pop` erase it without renumbering.
use dindexer.Common.{
  ℕ, suc, ◌+◌, ◌<◌, ◌≤◌, ◌≡◌, refl, sym, subst, ◌⊎◌, inl, inr, List, [], ◌∷◌, ◌++◌, arith, ◌==◌,
  if◌then◌else◌, All,
}

-- Reading the source of each range in turn: from `n` sources in use to `m`.
abbrev pub Grows : ℕ → List ℕ → ℕ → Type 0
Grows n [] m = n ≡ m
Grows n (s ∷ ss) m = ((s < n) × Grows n ss m) ⊎ ((s ≡ n) × Grows (suc n) ss m)

-- How many ranges point into the source `i`.
abbrev pub count : ℕ → List ℕ → ℕ
count i [] = 0
count i (s ∷ ss) = (if s == i then 1 else 0) + count i ss

pub count-append : (i : ℕ) (ss ts : List ℕ) → count i (ss ++ ts) ≡ count i ss + count i ts
count-append i [] ts = omega arith
count-append i (s ∷ ss) ts = omega (arith, count-append i ss ts)

pub count_self : (s : ℕ) → count s (s ∷ []) ≡ 1
count_self s = ground arith

pub Grows-mono : (n : ℕ) (ss : List ℕ) (m : ℕ) → Grows n ss m → n ≤ m
Grows-mono n [] m g = omega arith
Grows-mono n (s ∷ ss) m (inl (h, g)) = Grows-mono n ss m g
Grows-mono n (s ∷ ss) m (inr (h, g)) = omega (arith, Grows-mono (suc n) ss m g)

pub Grows-below : (n : ℕ) (ss : List ℕ) (m : ℕ) → Grows n ss m → All (λ s. s < m) ss
Grows-below n [] m g = tt
Grows-below n (s ∷ ss) m (inl (h, g)) = (omega (arith, Grows-mono n ss m g), Grows-below n ss m g)
Grows-below n (s ∷ ss) m (inr (h, g)) =
    (omega (arith, Grows-mono (suc n) ss m g), Grows-below (suc n) ss m g)

pub Grows-append :
    (n : ℕ) (ss : List ℕ) (m : ℕ) (ts : List ℕ) (k : ℕ)
    → Grows n ss m
    → Grows m ts k
    → Grows n (ss ++ ts) k
Grows-append n [] m ts k g h = subst (λ x. Grows x ts k) (sym g) h
Grows-append n (s ∷ ss) m ts k (inl (p, g)) h = inl (p, Grows-append n ss m ts k g h)
Grows-append n (s ∷ ss) m ts k (inr (p, g)) h = inr (p, Grows-append (suc n) ss m ts k g h)

-- The last range reuses a source, or is the first to use the last one.
pub Grows-snoc :
    (n : ℕ) (ss : List ℕ) (s m : ℕ)
    → Grows n (ss ++ s ∷ []) m
    → (k : ℕ) × Grows n ss k × (((s < k) × (k ≡ m)) ⊎ ((s ≡ k) × (suc k ≡ m)))
Grows-snoc n [] s m g = (n, refl, g)
Grows-snoc n (t ∷ ss) s m (inl (h, g)) =
    let (k, g', last) = Grows-snoc n ss s m g in (k, inl (h, g'), last)
Grows-snoc n (t ∷ ss) s m (inr (h, g)) =
    let (k, g', last) = Grows-snoc (suc n) ss s m g in (k, inr (h, g'), last)

-- Every source that came into use is used.
pub count-pos : (n : ℕ) (ss : List ℕ) (m i : ℕ) → Grows n ss m → n ≤ i → i < m → 0 < count i ss
count-pos n [] m i g lo hi = absurd (omega arith)
count-pos n (s ∷ ss) m i (inl (h, g)) lo hi = omega (arith, count-pos n ss m i g lo hi)
count-pos n (s ∷ ss) m i (inr (h, g)) lo hi = ground (arith, count-pos (suc n) ss m i g)

pub count_above : (ss : List ℕ) (m i : ℕ) → All (λ s. s < m) ss → m ≤ i → count i ss ≡ 0
count_above [] m i h le = refl
count_above (s ∷ ss) m i (h, hs) le = ground (arith, count_above ss m i hs le)
