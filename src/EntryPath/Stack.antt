-- ===== src/EntryPath/Stack.antt =====
-- What pushing a piece does to the stack of an entry path (src/navigate/entrypath.cpp).
use dindexer.Common.{
  ℕ, zero, suc, ◌-◌, ◌≡◌, ◌≢◌, refl, ap, sym, ◌∙◌, inl, inr, Bool, true, false, List, [], ◌∷◌, ◌++◌,
  append_assoc, append-nil, Bytes, All, All-append, length, take, ◌==◌, bytes_eq, bytes_eq→eq,
  bytes_eq_refl, if◌then◌else◌, Bool-cases,
}
use dindexer.EntryPath.{
  EntryPath, push_item, push_items, push_piece, starts_at_root, parse, closed, items_from,
}

abbrev pub this_dir : Bytes
this_dir = b'.' ∷ []

abbrev pub parent_dir : Bytes
parent_dir = b'.' ∷ b'.' ∷ []

-- Neither "." nor "..".
abbrev pub IsName : Bytes → Type 0
IsName i = (i ≢ this_dir) × (i ≢ parent_dir)

All-take {ℓ} : {A : Type ℓ} (P : A → Type 0) (n : ℕ) (l : List A) → All P l → All P (take n l)
All-take P zero l h = tt
All-take P (suc n) [] h = tt
All-take P (suc n) (x ∷ l) (h, hs) = (h, All-take P n l hs)

differ : (i d : Bytes) → bytes_eq i d ≡ false → i ≢ d
differ i d n e = cc (sym n ∙ ap (λ x. bytes_eq x d) e ∙ bytes_eq_refl d)

same : (i d : Bytes) → i ≢ d → bytes_eq i d ≡ false
same i d n = elim (Bool-cases (bytes_eq i d)) [ inl e ↦ absurd (n (bytes_eq→eq i d e)) | inr f ↦ f ]

push_item-IsName :
    (stack : List Bytes) (i : Bytes) → All IsName stack → All IsName (push_item stack i)
unfolding push_item
push_item-IsName stack i h = elim (Bool-cases (bytes_eq i parent_dir)) [
  | inl e ↦ elim (Bool-cases (length stack == 0)) [
    | inl z ↦ rw (e, z) h
    | inr nz ↦ rw (e, nz) (All-take IsName (length stack - 1) stack h)
  ]
  | inr ne ↦ elim (Bool-cases (bytes_eq i this_dir)) [
    | inl e ↦ rw (ne, e) h
    | inr ne' ↦
        rw (ne, ne')
          (All-append IsName stack (i ∷ []) h ((differ i this_dir ne', differ i parent_dir ne), tt))
  ]
]

push_items-IsName :
    (stack items : List Bytes) → All IsName stack → All IsName (push_items stack items)
unfolding push_items
push_items-IsName stack [] h = h
push_items-IsName stack (i ∷ is') h =
    push_items-IsName (push_item stack i) is' (push_item-IsName stack i h)

push_item-plain : (stack : List Bytes) (i : Bytes) → IsName i → push_item stack i ≡ stack ++ i ∷ []
unfolding push_item
push_item-plain stack i (h, h') = rw (same i parent_dir h', same i this_dir h) refl

push_items-plain :
    (stack items : List Bytes) → All IsName items → push_items stack items ≡ stack ++ items
unfolding push_items
push_items-plain stack [] h = sym (append-nil stack)
push_items-plain stack (i ∷ is') (h, hs) =
    push_items-plain (push_item stack i) is' hs
    ∙ ap (λ (s : List Bytes). s ++ is') (push_item-plain stack i h)
    ∙ append_assoc stack (i ∷ []) is'

root_or_stack-IsName :
    (p : EntryPath) (piece : Bytes)
    → All IsName p.stack
    → All IsName (if starts_at_root piece then [] else p.stack)
root_or_stack-IsName p piece h = elim (Bool-cases (starts_at_root piece)) [
  | inl r ↦ rw (r) tt
  | inr r ↦ rw (r) h
]

-- If no element of the stack of an entry path is "." or "..", then none is after a piece is pushed,
-- whatever the piece and whatever its items.
pub push_piece-IsName :
    (p : EntryPath) (piece : Bytes) → All IsName p.stack → All IsName (push_piece p piece).stack
unfolding push_piece parse
push_piece-IsName p piece h =
    push_items-IsName _ (closed (items_from 0 piece)) (root_or_stack-IsName p piece h)

-- The items of a piece, none of which is "." or "..", replace the stack if the piece starts with a
-- slash, and are appended to it otherwise.
pub push_piece-appends :
    (p : EntryPath) (piece : Bytes) (items : List Bytes)
    → closed (items_from 0 piece) ≡ items
    → All IsName items
    → (push_piece p piece).stack ≡ (if starts_at_root piece then items else p.stack ++ items)
unfolding push_piece parse
push_piece-appends p piece items e h =
    ap (push_items (if starts_at_root piece then [] else p.stack)) e ∙ start (starts_at_root piece)
  where
    start :
        (b : Bool)
        → push_items (if b then [] else p.stack) items ≡ (if b then items else p.stack ++ items)
    start true = push_items-plain [] items h
    start false = push_items-plain p.stack items h
