-- ===== src/Redis/Keys/Lists.antt =====
-- The lists of tags that the scripts write.
use dindexer.Common.{
  ◌≡◌, ◌≢◌, ◌↔◌, ◌⊎◌, refl, ap, sym, ◌∙◌, subst, inl, inr, true, Option, some, none, List, [], ◌∷◌,
  ◌++◌, Bytes, All, All-append, Among, Among-append, NoRepeats, Lacks, Filled, bytes_eq,
  bytes_eq→eq, bytes_eq_refl, Bool-cases, pieces, pieces_whole, pieces-Lacks, pieces-separated,
  keep_filled, keep_filled_id, keep_filled-Filled, keep_filled-All,
}
use dindexer.Redis.Find.{has_tag}
use dindexer.Redis.Find.Tags.{has_tag-Among}
use dindexer.Redis.Keys.{
  TableSort, concat, tag_list_of, add_tag_to_list, remove_first, dele_tag_from_list, srem, field_of,
  is_missing_or_empty,
}

-- A tag that the fields of files can hold, and keys can name.
abbrev pub IsTag : Bytes → Type 0
IsTag t = Filled t × Lacks b',' t × Lacks b':' t

-- A part of a field.
abbrev pub IsPart : Bytes → Type 0
IsPart t = Filled t × Lacks b',' t

All-of-Among : (P : Bytes → Type 0) (l : List Bytes) → ((x : Bytes) → Among x l → P x) → All P l
All-of-Among P [] h = tt
All-of-Among P (x ∷ l) h = (h x (inl refl), All-of-Among P l (λ y k. h y (inr k)))

All-Among : (P : Bytes → Type 0) (l : List Bytes) (x : Bytes) → All P l → Among x l → P x
All-Among P [] x h k = absurd k
All-Among P (y ∷ l) x (h, hs) k = elim k [
  | inl e ↦ subst P (sym e) h
  | inr m ↦ All-Among P l x hs m
]

All-both : (P Q : Bytes → Type 0) (l : List Bytes) → All P l → All Q l → All (λ x. P x × Q x) l
All-both P Q [] h k = tt
All-both P Q (x ∷ l) (h, hs) (k, ks) = ((h, k), All-both P Q l hs ks)

-- What a field of tags is split into.
pub tag_list_of-IsPart : (o : Option Bytes) → All IsPart (tag_list_of o)
tag_list_of-IsPart none = tt
tag_list_of-IsPart (some s) =
    All-both Filled (Lacks b',') (keep_filled (pieces b',' s)) (keep_filled-Filled (pieces b',' s))
      (keep_filled-All (Lacks b',') (pieces b',' s) (pieces-Lacks b',' s))

All-0 : (l : List Bytes) → All IsPart l → All Filled l
All-0 [] h = tt
All-0 (x ∷ l) ((f, n), h) = (f, All-0 l h)

All-1 : (l : List Bytes) → All IsPart l → All (Lacks b',') l
All-1 [] h = tt
All-1 (x ∷ l) ((f, n), h) = (n, All-1 l h)

-- Splitting a list that was written gives the list back.
pub tag_list_of-concat : (l : List Bytes) → All IsPart l → tag_list_of (some (concat l)) ≡ l
unfolding pieces
tag_list_of-concat [] h = refl
tag_list_of-concat (t ∷ ts) ((f, n), h) =
    ap keep_filled (pieces-separated b',' t ts n (All-1 ts h))
    ∙ keep_filled_id (t ∷ ts) (f, All-0 ts h)

pub field_of-concat : (l : List Bytes) → All IsPart l → tag_list_of (field_of (concat l)) ≡ l
field_of-concat [] h = refl
field_of-concat ([] ∷ ts) ((f, n), h) = absurd (f refl)
field_of-concat ((c ∷ t) ∷ ts) h = tag_list_of-concat ((c ∷ t) ∷ ts) h

missing-nil : (o : Option Bytes) → is_missing_or_empty o ≡ true → tag_list_of o ≡ []
unfolding pieces
missing-nil none h = refl
missing-nil (some []) h = refl
missing-nil (some (c ∷ s)) h = cc

NoRepeats-snoc :
    (l : List Bytes) (t : Bytes) → NoRepeats l → (Among t l → ⊥) → NoRepeats (l ++ t ∷ [])
NoRepeats-snoc [] t d n = ((λ h. h), tt)
NoRepeats-snoc (x ∷ l) t (d, ds) n = (
  (λ h. elim ((Among-append x l (t ∷ [])).0 h) [
    | inl k ↦ d k
    | inr k ↦ elim k [ inl e ↦ n (inl (sym e)) | inr z ↦ z ]
  ]),
  NoRepeats-snoc l t ds (λ k. n (inr k)),
)

-- Writing a sorted list, and reading it again.
sorted-read :
    (table : TableSort) (l : List Bytes)
    → All IsPart l
    → NoRepeats l
    → ((x : Bytes) → Among x (tag_list_of (some (concat (table.sort l)))) ↔ Among x l)
      × NoRepeats (tag_list_of (some (concat (table.sort l))))
sorted-read table l h once =
    let parts : All IsPart (table.sort l) =
      All-of-Among IsPart (table.sort l)
        (λ x k. All-Among IsPart l x h ((table.sort_among l x).0 k)) in
    let e = tag_list_of-concat (table.sort l) parts in
    (
      (λ x. subst (λ z. Among x z ↔ Among x l) (sym e) (table.sort_among l x)),
      subst NoRepeats (sym e) (table.sort_once l once),
    )

-- A list with the elements of another and one more, none of them twice.
abbrev pub Adds : List Bytes → Bytes → List Bytes → Type 0
Adds l t m = ((x : Bytes) → Among x m ↔ (Among x l ⊎ (x ≡ t))) × NoRepeats m

Adds-same :
    (l m : List Bytes) (t : Bytes)
    → Among t l
    → (((x : Bytes) → Among x m ↔ Among x l) × NoRepeats m)
    → Adds l t m
Adds-same l m t there (same, once) = (
  (λ x. (
    (λ h. inl ((same x).0 h)),
    λ h. elim h [
      | inl k ↦ (same x).1 k
      | inr e ↦ (same x).1 (subst (λ z. Among z l) (sym e) there)
    ],
  )),
  once,
)

Adds-snoc :
    (l m : List Bytes) (t : Bytes)
    → (((x : Bytes) → Among x m ↔ Among x (l ++ t ∷ [])) × NoRepeats m)
    → Adds l t m
Adds-snoc l m t (same, once) = (
  (λ x. (
    (λ h. elim ((Among-append x l (t ∷ [])).0 ((same x).0 h)) [
      | inl k ↦ inl k
      | inr k ↦ elim k [ inl e ↦ inr e | inr z ↦ absurd z ]
    ]),
    λ h. elim h [
      | inl k ↦ (same x).1 ((Among-append x l (t ∷ [])).1 (inl k))
      | inr e ↦ (same x).1 ((Among-append x l (t ∷ [])).1 (inr (inl e)))
    ],
  )),
  once,
)

-- Adding a tag to a field: the tags that the field has then, none of them twice.
pub add_tag_to_list-Adds :
    (table : TableSort) (o : Option Bytes) (t : Bytes)
    → IsPart t
    → NoRepeats (tag_list_of o)
    → Adds (tag_list_of o) t (tag_list_of (some (add_tag_to_list table o t)))
unfolding add_tag_to_list
add_tag_to_list-Adds table o t (f, n) once = elim (Bool-cases (is_missing_or_empty o)) [
  | inl y ↦
      let one : tag_list_of (some t) ≡ t ∷ [] =
        ap keep_filled (pieces_whole b',' t n) ∙ keep_filled_id (t ∷ []) (f, tt) in
      let none_yet = missing-nil o y in
      rw (y) (
        subst (λ l. Adds l t (tag_list_of (some t))) (sym none_yet)
          (subst (λ m. Adds [] t m) (sym one)
            (
              (λ x. (
                (λ h. elim h [ inl e ↦ inr e | inr z ↦ absurd z ]),
                λ h. elim h [ inl z ↦ absurd z | inr e ↦ inl e ],
              )),
              ((λ h. h), tt),
            )))
  | inr ne ↦ elim (Bool-cases (has_tag t (tag_list_of o))) [
    | inl there ↦
        rw (ne, there)
          (Adds-same (tag_list_of o) _ t ((has_tag-Among t (tag_list_of o)).0 there)
            (sorted-read table (tag_list_of o) (tag_list_of-IsPart o) once))
    | inr new ↦
        rw (ne, new)
          (Adds-snoc (tag_list_of o) _ t (
            sorted-read table (tag_list_of o ++ t ∷ [])
              (All-append IsPart (tag_list_of o) (t ∷ []) (tag_list_of-IsPart o) ((f, n), tt))
              (NoRepeats-snoc (tag_list_of o) t once
                (λ k. cc (sym new ∙ (has_tag-Among t (tag_list_of o)).1 k)))))
  ]
]

remove_first-Among :
    (t : Bytes) (l : List Bytes)
    → NoRepeats l
    → ((x : Bytes) → Among x (remove_first t l) ↔ (Among x l × (x ≢ t)))
      × NoRepeats (remove_first t l)
unfolding remove_first
remove_first-Among t [] d = ((λ x. ((λ h. absurd h), λ h. h.0)), tt)
remove_first-Among t (u ∷ us) (d, ds) = elim (Bool-cases (bytes_eq u t)) [
  | inl e ↦
      let u_t = bytes_eq→eq u t e in
      rw (e) (
        (λ x. (
          (λ h. (inr h, λ q. d (subst (λ z. Among z us) (q ∙ sym u_t) h))),
          λ h. elim h.0 [ inl q ↦ absurd (h.1 (q ∙ u_t)) | inr k ↦ k ],
        )),
        ds,
      )
  | inr n ↦
      let (same, once) = remove_first-Among t us ds in
      rw (n) (
        (λ x. (
          (λ h. elim h [
            | inl q ↦
                (inl q, λ r. cc (sym n ∙ ap (λ z. bytes_eq z t) (sym q ∙ r) ∙ bytes_eq_refl t))
            | inr k ↦ (inr ((same x).0 k).0, ((same x).0 k).1)
          ]),
          λ h. elim h.0 [ inl q ↦ inl q | inr k ↦ inr ((same x).1 (k, h.1)) ],
        )),
        ((λ k. d ((same u).0 k).0), once),
      )
]

-- Taking a tag out of a field: the tags that the field has then, none of them twice.
pub dele_tag_from_list-Among :
    (o : Option Bytes) (t : Bytes)
    → NoRepeats (tag_list_of o)
    → ((x : Bytes)
        → Among x (tag_list_of (field_of (dele_tag_from_list o t)))
          ↔ (Among x (tag_list_of o) × (x ≢ t)))
      × NoRepeats (tag_list_of (field_of (dele_tag_from_list o t)))
unfolding dele_tag_from_list
dele_tag_from_list-Among o t once =
    let (same, once') = remove_first-Among t (tag_list_of o) once in
    let parts : All IsPart (remove_first t (tag_list_of o)) =
      All-of-Among IsPart (remove_first t (tag_list_of o))
        (λ x k. All-Among IsPart (tag_list_of o) x (tag_list_of-IsPart o) ((same x).0 k).0) in
    let e = field_of-concat (remove_first t (tag_list_of o)) parts in
    (
      (λ x. subst (λ l. Among x l ↔ (Among x (tag_list_of o) × (x ≢ t))) (sym e) (same x)),
      subst NoRepeats (sym e) once',
    )

pub srem-Among : (l : List Bytes) (x y : Bytes) → Among y (srem l x) ↔ (Among y l × (y ≢ x))
unfolding srem
srem-Among [] x y = ((λ h. absurd h), λ h. h.0)
srem-Among (z ∷ zs) x y = elim (Bool-cases (bytes_eq z x)) [
  | inl e ↦
      let ih = srem-Among zs x y in
      rw (e) (
        (λ h. (inr (ih.0 h).0, (ih.0 h).1)),
        λ h. elim h.0 [ inl q ↦ absurd (h.1 (q ∙ bytes_eq→eq z x e)) | inr k ↦ ih.1 (k, h.1) ],
      )
  | inr n ↦
      let ih = srem-Among zs x y in
      rw (n) (
        (λ h. elim h [
          | inl q ↦ (inl q, λ r. cc (sym n ∙ ap (λ w. bytes_eq w x) (sym q ∙ r) ∙ bytes_eq_refl x))
          | inr k ↦ (inr (ih.0 k).0, (ih.0 k).1)
        ]),
        λ h. elim h.0 [ inl q ↦ inl q | inr k ↦ inr (ih.1 (k, h.1)) ],
      )
]
