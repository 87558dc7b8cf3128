-- ===== src/Common/Membership.antt =====
-- What is in a list, and lists without repetitions.
use Prim.Native.Nat.{◌≤◌}
use mathlib.Core.Path.{◌≡◌, sym, ap, subst}
use mathlib.Core.Logic.{◌↔◌, ◌⊎◌, inl, inr}
use mathlib.Core.List.{List, [], ◌∷◌, ◌++◌}
use native.Mathlib.Omega.{arith}
use dindexer.Common.Lists.{length, length-append, All}

-- The element is in the list.
abbrev pub Among : {A : Type 0} → A → List A → Type 0
Among x [] = ⊥
Among x (y ∷ ys) = (x ≡ y) ⊎ Among x ys

pub Among-append :
    {A : Type 0} (x : A) (xs ys : List A) → Among x (xs ++ ys) ↔ (Among x xs ⊎ Among x ys)
Among-append x [] ys = ((λ h. inr h), λ h. elim h [ inl k ↦ absurd k | inr k ↦ k ])
Among-append x (y ∷ xs) ys = (
  (λ h. elim h [
    | inl e ↦ inl (inl e)
    | inr k ↦ elim ((Among-append x xs ys).0 k) [ inl a ↦ inl (inr a) | inr b ↦ inr b ]
  ]),
  λ h. elim h [
    | inl a ↦ elim a [ inl e ↦ inl e | inr k ↦ inr ((Among-append x xs ys).1 (inl k)) ]
    | inr b ↦ inr ((Among-append x xs ys).1 (inr b))
  ],
)

-- No element of the list stands in it twice.
abbrev pub NoRepeats : {A : Type 0} → List A → Type 0
NoRepeats [] = Unit
NoRepeats (x ∷ xs) = (Among x xs → ⊥) × NoRepeats xs

-- A list around one of its elements.
around :
    {A : Type 0} (x : A) (ys : List A)
    → Among x ys
    → (before : List A) × (after : List A) × (ys ≡ before ++ x ∷ after)
around x [] h = absurd h
around x (y ∷ ys) h = elim h [
  | inl e ↦ ([], ys, ap (λ z. z ∷ ys) (sym e))
  | inr k ↦ let (b, a, e) = around x ys k in (y ∷ b, a, ap (λ z. y ∷ z) e)
]

-- Another element of the list stands before or behind.
elsewhere :
    {A : Type 0} (x z : A) (before after : List A)
    → (z ≡ x → ⊥)
    → Among z (before ++ x ∷ after)
    → Among z (before ++ after)
elsewhere x z before after n h = elim ((Among-append z before (x ∷ after)).0 h) [
  | inl b ↦ (Among-append z before after).1 (inl b)
  | inr a ↦ elim a [ inl e ↦ absurd (n e) | inr k ↦ (Among-append z before after).1 (inr k) ]
]

All-elsewhere :
    {A : Type 0} (x : A) (before after zs : List A)
    → (Among x zs → ⊥)
    → All (λ z. Among z (before ++ x ∷ after)) zs
    → All (λ z. Among z (before ++ after)) zs
All-elsewhere x before after [] n h = tt
All-elsewhere x before after (z ∷ zs) n (h, hs) = (
  elsewhere x z before after (λ e. n (inl (sym e))) h,
  All-elsewhere x before after zs (λ k. n (inr k)) hs,
)

-- A list without repetitions is not longer than one that has all of its elements.
pub length-NoRepeats :
    {A : Type 0} (xs ys : List A) → NoRepeats xs → All (λ x. Among x ys) xs → length xs ≤ length ys
length-NoRepeats [] ys d h = omega arith
length-NoRepeats (x ∷ xs) ys (d, ds) (h, hs) =
    let (b, a, e) = around x ys h in
    let hs' = subst (λ l. All (λ z. Among z l) xs) e hs in
    omega (
      arith,
      length-NoRepeats xs (b ++ a) ds (All-elsewhere x b a xs d hs'),
      length-append b a,
      length-append b (x ∷ a),
      ap length e,
    )
