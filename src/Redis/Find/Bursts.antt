-- ===== src/Redis/Find/Bursts.antt =====
-- Asking for the keys in bursts gives what asking for all of them at once gives.
use dindexer.Common.{
  ℕ, arith, ◌+◌, ◌≡◌, refl, ap, ap₂, sym, ◌∙◌, inl, inr, Bool, true, false, Option, some, none,
  List, [], ◌∷◌, ◌++◌, map, append_assoc, append-nil, Bytes, length, length-append, ◌==◌,
  Bool-cases, Option-cases, ==→eq,
}
use dindexer.Redis.Find.{
  Row, add_item, store_filtered_items, concatenate, bursts, locate_in_bursts, and_then,
  prefetch_count,
}

-- The ids of all keys.
abbrev pub ids_of : (Bytes → Option Bytes) → List Bytes → Option (List Bytes)
ids_of id_of [] = some []
ids_of id_of (k ∷ ks) = and_then (id_of k) (λ i. and_then (ids_of id_of ks) (λ is'. some (i ∷ is')))

and_then-some {ℓ κ μ} :
    {A : Type ℓ} {B : Type κ} {C : Type μ} (o : Option A) (h : A → B) (g : B → Option C)
    → and_then (and_then o (λ x. some (h x))) g ≡ and_then o (λ x. g (h x))
and_then-some none h g = refl
and_then-some (some a) h g = refl

and_then_ext {ℓ κ} :
    {A : Type ℓ} {B : Type κ} (o : Option A) (f g : A → Option B)
    → ((a : A) → f a ≡ g a)
    → and_then o f ≡ and_then o g
and_then_ext none f g e = refl
and_then_ext (some a) f g e = e a

module _ {T : Type 0} (filter : Row → Bytes → Option Bool)
    (construct : Row → Bytes → Option T) where
  add_item-concatenate :
      (f : Option Bool) (t : Option T) (xs ys : Option (List T))
      → add_item filter construct f t (concatenate filter construct xs ys)
        ≡ concatenate filter construct (add_item filter construct f t xs) ys
  add_item-concatenate none t xs ys = refl
  add_item-concatenate (some false) t xs ys = refl
  add_item-concatenate (some true) none xs ys = refl
  add_item-concatenate (some true) (some t) none ys = refl
  add_item-concatenate (some true) (some t) (some xs) none = refl
  add_item-concatenate (some true) (some t) (some xs) (some ys) = refl

  concatenate-nil : (xs : Option (List T)) → concatenate filter construct (some []) xs ≡ xs
  concatenate-nil none = refl
  concatenate-nil (some xs) = refl

  concatenate-nil_right : (xs : Option (List T)) → concatenate filter construct xs (some []) ≡ xs
  concatenate-nil_right none = refl
  concatenate-nil_right (some xs) = ap some (append-nil xs)

  concatenate_assoc :
      (xs ys zs : Option (List T))
      → concatenate filter construct (concatenate filter construct xs ys) zs
        ≡ concatenate filter construct xs (concatenate filter construct ys zs)
  concatenate_assoc none ys zs = refl
  concatenate_assoc (some xs) none zs = refl
  concatenate_assoc (some xs) (some ys) none = refl
  concatenate_assoc (some xs) (some ys) (some zs) = ap some (append_assoc xs ys zs)

  store-append :
      (rs : List Row) (is' : List Bytes) (rs' : List Row) (js : List Bytes)
      → length rs ≡ length is'
      → store_filtered_items filter construct (rs ++ rs') (is' ++ js)
        ≡ concatenate filter construct
            (store_filtered_items filter construct rs is')
            (store_filtered_items filter construct rs' js)
  unfolding store_filtered_items
  store-append [] [] rs' js h = sym (concatenate-nil _)
  store-append [] (i ∷ is') rs' js h = absurd (omega arith)
  store-append (r ∷ rs) [] rs' js h = absurd (omega arith)
  store-append (r ∷ rs) (i ∷ is') rs' js h =
      ap (add_item filter construct (filter r i) (construct r i))
        (store-append rs is' rs' js (omega arith))
      ∙ add_item-concatenate (filter r i) (construct r i)
          (store_filtered_items filter construct rs is')
          (store_filtered_items filter construct rs' js)

  -- What is found so far, and what the replies of one more key and of others add.
  store-reassoc :
      (batch : List Row) (ids : List Bytes) (r : Row) (i : Bytes) (rs : List Row) (js : List Bytes)
      → store_filtered_items filter construct ((batch ++ r ∷ []) ++ rs) ((ids ++ i ∷ []) ++ js)
        ≡ store_filtered_items filter construct (batch ++ r ∷ rs) (ids ++ i ∷ js)
  store-reassoc batch ids r i rs js =
      ap₂ (store_filtered_items filter construct) (append_assoc batch (r ∷ []) rs)
        (append_assoc ids (i ∷ []) js)

  store-flushed :
      (retval : Option (List T)) (batch : List Row) (ids : List Bytes) (r : Row) (i : Bytes)
      (rs : List Row) (js : List Bytes)
      → length batch ≡ length ids
      → concatenate filter construct
          (concatenate filter construct retval
            (store_filtered_items filter construct (batch ++ r ∷ []) (ids ++ i ∷ [])))
          (store_filtered_items filter construct rs js)
        ≡ concatenate filter construct retval
            (store_filtered_items filter construct (batch ++ r ∷ rs) (ids ++ i ∷ js))
  store-flushed retval batch ids r i rs js h =
      concatenate_assoc retval
        (store_filtered_items filter construct (batch ++ r ∷ []) (ids ++ i ∷ []))
        (store_filtered_items filter construct rs js)
      ∙ ap (concatenate filter construct retval) (
          sym (
            store-append (batch ++ r ∷ []) (ids ++ i ∷ []) rs js
              (omega (arith, h, length-append batch (r ∷ []), length-append ids (i ∷ []))))
          ∙ store-reassoc batch ids r i rs js)

  no_replies :
      (retval : Option (List T)) (batch : List Row) (ids : List Bytes)
      → length batch ≡ 0
      → concatenate filter construct retval (store_filtered_items filter construct batch ids)
        ≡ retval
  unfolding store_filtered_items
  no_replies retval [] ids h = concatenate-nil_right retval
  no_replies retval (r ∷ rs) ids h = absurd (omega arith)

  module _ (hmget : Bytes → Row) (id_of : Bytes → Option Bytes) where
    -- What is found so far, and what the replies that are waiting and those of all other keys add.
    abbrev pub located : List Bytes → List Row → List Bytes → Option (List T) → Option (List T)
    located keys batch ids retval = and_then (ids_of id_of keys) (λ is'.
        concatenate filter construct retval
          (store_filtered_items filter construct (batch ++ map hmget keys) (ids ++ is')))

    -- The same for a first key whose id is known.
    abbrev located_with :
        Bytes → Bytes → List Bytes → List Row → List Bytes → Option (List T) → Option (List T)
    located_with k i ks batch ids retval =
        and_then (and_then (ids_of id_of ks) (λ js. some (i ∷ js))) (λ is'.
          concatenate filter construct retval
            (store_filtered_items filter construct (batch ++ hmget k ∷ map hmget ks) (ids ++ is')))

    located-cons :
        (k i : Bytes) (ks : List Bytes) (batch : List Row) (ids : List Bytes)
        (retval : Option (List T))
        → length batch ≡ length ids
        → (located ks (batch ++ hmget k ∷ []) (ids ++ i ∷ []) retval
            ≡ located_with k i ks batch ids retval)
          × (located ks [] [] (
                concatenate filter construct retval
                  (store_filtered_items filter construct (batch ++ hmget k ∷ []) (ids ++ i ∷ [])))
              ≡ located_with k i ks batch ids retval)
    located-cons k i ks batch ids retval h = (
      and_then_ext (ids_of id_of ks) _ _ (λ js.
            ap (concatenate filter construct retval)
              (store-reassoc batch ids (hmget k) i (map hmget ks) js))
          ∙ whole,
      and_then_ext (ids_of id_of ks) _ _
            (λ js. store-flushed retval batch ids (hmget k) i (map hmget ks) js h)
          ∙ whole,
    )
      where
        g : List Bytes → Option (List T)
        g is' =
            concatenate filter construct retval
              (store_filtered_items filter construct (batch ++ hmget k ∷ map hmget ks) (ids ++ is'))

        whole : and_then (ids_of id_of ks) (λ js. g (i ∷ js)) ≡ located_with k i ks batch ids retval
        whole = sym (and_then-some (ids_of id_of ks) (λ js. i ∷ js) g)

    bursts-located :
        (keys : List Bytes) (batch : List Row) (ids : List Bytes) (n : ℕ) (retval : Option (List T))
        → length batch ≡ n
        → length ids ≡ n
        → bursts filter construct hmget id_of keys batch ids n retval
          ≡ located keys batch ids retval
    unfolding bursts
    bursts-located [] batch ids n retval hb hi = elim (Bool-cases (n == 0)) [
      | inl z ↦
          rw (z, append-nil batch, append-nil ids)
            (sym (no_replies retval batch ids (omega (arith, hb, ==→eq n 0 z))))
      | inr nz ↦ rw (nz, append-nil batch, append-nil ids) refl
    ]
    bursts-located (k ∷ ks) batch ids n retval hb hi = elim (Option-cases (id_of k)) [
      | inl e ↦ rw (e) refl
      | inr (i, e) ↦
          let (later, flushed) = located-cons k i ks batch ids retval (hb ∙ sym hi) in
          elim (Bool-cases (n + 1 == prefetch_count filter construct)) [
            | inl y ↦ rw (e, y) (bursts-located ks [] [] 0 _ refl refl ∙ flushed)
            | inr no' ↦
                rw (e, no')
                  (bursts-located ks (batch ++ hmget k ∷ []) (ids ++ i ∷ []) (n + 1) retval
                      (omega (arith, hb, length-append batch (hmget k ∷ [])))
                      (omega (arith, hi, length-append ids (i ∷ [])))
                    ∙ later)
          ]
    ]

    -- Asking in bursts of 500 finds what asking for all keys at once finds, in the same order: the
    -- items that the replies to all keys give, each with its id. It throws when that does.
    pub locate_in_bursts-store_filtered_items :
        (keys : List Bytes)
        → locate_in_bursts filter construct hmget id_of keys
          ≡ and_then
              (ids_of id_of keys)
              (λ ids. store_filtered_items filter construct (map hmget keys) ids)
    unfolding locate_in_bursts
    locate_in_bursts-store_filtered_items keys =
        bursts-located keys [] [] 0 (some []) refl refl
        ∙ and_then_ext (ids_of id_of keys) _ _ (λ ids. concatenate-nil _)
