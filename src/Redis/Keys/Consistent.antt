-- ===== src/Redis/Keys/Consistent.antt =====
-- The fields of files and the sets of tags agree, whatever scripts are run.
use dindexer.Common.{
  ◌≡◌, ◌≢◌, ◌↔◌, ◌⊎◌, refl, arith, ap, sym, ◌∙◌, subst, inl, inr, false, Option, some, none, List,
  [], ◌∷◌, ◌++◌, Bytes, codes, Among, NoRepeats, Filled, bytes_eq, bytes_eq→eq, bytes_eq_refl,
  Bool-cases, drop, last?, pieces-sep, pieces_whole, keep_filled,
}
use dindexer.Redis.Tag.{insert_tag}
use dindexer.Redis.Tag.Runs.{insert_tag-Among}
use dindexer.Redis.Keys.{
  TableSort, KeySpace, put_at, tag_list_of, add_tag_to_list, dele_tag_from_list, srem, field_of,
  other_group, set_tags, tag_of_key, tag_if_in_set, dele_tag_if_in_set,
}
use dindexer.Redis.Keys.Lists.{IsTag, add_tag_to_list-Adds, dele_tag_from_list-Among, srem-Among}

-- The key of a tag, as the backend writes it.
abbrev pub key_of_tag : Bytes → Bytes
key_of_tag t = codes "dindexer:tag:" ++ t

tag_of_key-key_of_tag : (t : Bytes) → IsTag t → tag_of_key (key_of_tag t) ≡ t
tag_of_key-key_of_tag t (f, c, n) =
    ap (λ ps. last_of (keep_filled ps))
      (pieces-sep b':' (codes "dindexer") (codes "tag:" ++ t) (
        omega arith,
        (
          omega arith,
          (
            omega arith,
            (omega arith, (omega arith, (omega arith, (omega arith, (omega arith, tt))))),
          ),
        ),
      )
        ∙ ap (λ ps. codes "dindexer" ∷ ps)
            (pieces-sep b':' (codes "tag") t (omega arith, (omega arith, (omega arith, tt)))
              ∙ ap (λ ps. codes "tag" ∷ ps) (pieces_whole b':' t n)))
    ∙ last_part t f
  where
    last_of : List Bytes → Bytes
    last_of ps = elim (last? ps) [ none ↦ [] | some u ↦ u ]

    last_part :
        (t : Bytes) → Filled t → last_of (keep_filled (codes "dindexer" ∷ codes "tag" ∷ t ∷ [])) ≡ t
    last_part [] f = absurd (f refl)
    last_part (c ∷ t) f = refl

-- A file is in the set of a tag exactly when its field has the tag, and no field has a tag twice.
abbrev pub Consistent : KeySpace → Type 0
Consistent ks =
    ((t : Bytes)
      → IsTag t
      → (file : Bytes)
      → Among file (ks.tag_set (key_of_tag t)) ↔ Among t (tag_list_of (ks.tags file)))
    × ((file : Bytes) → NoRepeats (tag_list_of (ks.tags file)))

key_of_tag_inj : (t u : Bytes) → key_of_tag t ≡ key_of_tag u → t ≡ u
key_of_tag_inj t u e = ap (drop 13) e

iff_trans : {A B C : Type 0} → A ↔ B → B ↔ C → A ↔ C
iff_trans (f, g) (h, k) = ((λ a. h (f a)), λ c. g (k c))

iff_sym : {A B : Type 0} → A ↔ B → B ↔ A
iff_sym (f, g) = (g, f)

differ : (x y : Bytes) → bytes_eq x y ≡ false → x ≢ y
differ x y n e = cc (sym n ∙ ap (λ z. bytes_eq z y) e ∙ bytes_eq_refl y)

-- What a map has at a key after a value is put: at that key, and at another.
put_at-at {ℓ} :
    {A : Type ℓ} (f : Bytes → A) (key : Bytes) (v : A) (k : Bytes)
    → ((k ≡ key) × (put_at f key v k ≡ v)) ⊎ ((k ≢ key) × (put_at f key v k ≡ f k))
put_at-at f key v k = elim (Bool-cases (bytes_eq k key)) [
  | inl e ↦ inl (bytes_eq→eq k key e, rw (e) refl)
  | inr n ↦ inr (differ k key n, rw (n) refl)
]

-- A new field of one file and a new set of one tag: they agree on each other, and with what was there
-- on all else.
set_tags-Consistent :
    (ks : KeySpace) (t file : Bytes) (field : Option Bytes) (members : List Bytes)
    → IsTag t
    → Consistent ks
    → ((f : Bytes) → f ≢ file → Among f members ↔ Among f (ks.tag_set (key_of_tag t)))
    → ((x : Bytes) → x ≢ t → Among x (tag_list_of field) ↔ Among x (tag_list_of (ks.tags file)))
    → (Among file members ↔ Among t (tag_list_of field))
    → NoRepeats (tag_list_of field)
    → Consistent (set_tags ks (key_of_tag t) file field members)
set_tags-Consistent ks t file field members tag (agree, once) a b c d = (agree', once')
  where
    once' : (f : Bytes) → NoRepeats (tag_list_of (put_at ks.tags file field f))
    once' f = elim (put_at-at ks.tags file field f) [
      | inl (_, e) ↦ subst (λ o. NoRepeats (tag_list_of o)) (sym e) d
      | inr (_, e) ↦ subst (λ o. NoRepeats (tag_list_of o)) (sym e) (once f)
    ]

    over :
        (f u : Bytes) (m m' : List Bytes) (o o' : Option Bytes)
        → m ≡ m'
        → o ≡ o'
        → Among f m' ↔ Among u (tag_list_of o')
        → Among f m ↔ Among u (tag_list_of o)
    over f u m m' o o' em eo h =
        subst (λ x. Among f x ↔ Among u (tag_list_of o)) (sym em)
          (subst (λ x. Among f m' ↔ Among u (tag_list_of x)) (sym eo) h)

    agree' :
        (u : Bytes)
        → IsTag u
        → (f : Bytes)
        → Among f (put_at ks.tag_set (key_of_tag t) members (key_of_tag u))
          ↔ Among u (tag_list_of (put_at ks.tags file field f))
    agree' u tag' f = elim (put_at-at ks.tag_set (key_of_tag t) members (key_of_tag u)) [
      | inl (ku, em) ↦
          let ut = key_of_tag_inj u t ku in
          elim (put_at-at ks.tags file field f) [
            | inl (ff, eo) ↦ over f u _ members _ field em eo (
                subst (λ x. Among x members ↔ Among u (tag_list_of field)) (sym ff)
                  (subst (λ x. Among file members ↔ Among x (tag_list_of field)) (sym ut) c))
            | inr (nf, eo) ↦ over f u _ members _ (ks.tags f) em eo (
                iff_trans (a f nf) (
                  subst
                    (λ x. Among f (ks.tag_set (key_of_tag t)) ↔ Among x (tag_list_of (ks.tags f)))
                    (sym ut) (agree t tag f)))
          ]
      | inr (nk, em) ↦
          let nu : u ≢ t = λ e. nk (ap key_of_tag e) in
          elim (put_at-at ks.tags file field f) [
            | inl (ff, eo) ↦ over f u _ (ks.tag_set (key_of_tag u)) _ field em eo (
                iff_trans (agree u tag' f) (
                  subst (λ x. Among u (tag_list_of (ks.tags x)) ↔ Among u (tag_list_of field))
                    (sym ff) (iff_sym (b u nu))))
            | inr (nf, eo) ↦
                over f u _ (ks.tag_set (key_of_tag u)) _ (ks.tags f) em eo (agree u tag' f)
          ]
    ]

tag_if_in_set-Consistent :
    (table : TableSort) (t file group : Bytes) (ks : KeySpace)
    → IsTag t
    → Consistent ks
    → Consistent (tag_if_in_set table (key_of_tag t) file group ks)
unfolding tag_if_in_set
tag_if_in_set-Consistent table t file group ks (f, c, n) h =
    elim (Bool-cases (other_group (ks.group_id file) group)) [
      | inl y ↦ rw (y) h
      | inr same ↦
          let name = tag_of_key-key_of_tag t (f, c, n) in
          let (adds, once) = add_tag_to_list-Adds table (ks.tags file) t (f, c) (h.1 file) in
          let added = (λ (g : Bytes). insert_tag-Among g (ks.tag_set (key_of_tag t)) file) in
          rw (same) (
            subst
              (λ u. Consistent (
                set_tags ks (key_of_tag t) file (some (add_tag_to_list table (ks.tags file) u))
                  (insert_tag (ks.tag_set (key_of_tag t)) file)))
              (sym name)
              (set_tags-Consistent ks t file (some (add_tag_to_list table (ks.tags file) t))
                (insert_tag (ks.tag_set (key_of_tag t)) file) (f, c, n) h
                (λ g ne. (
                  (λ k. elim ((added g).0 k) [ inl m ↦ m | inr e ↦ absurd (ne e) ]),
                  λ k. (added g).1 (inl k),
                ))
                (λ x ne. (
                  (λ k. elim ((adds x).0 k) [ inl m ↦ m | inr e ↦ absurd (ne e) ]),
                  λ k. (adds x).1 (inl k),
                ))
                ((λ k. (adds t).1 (inr refl)), λ k. (added file).1 (inr refl)) once))
    ]

dele_tag_if_in_set-Consistent :
    (t file group : Bytes) (ks : KeySpace)
    → IsTag t
    → Consistent ks
    → Consistent (dele_tag_if_in_set (key_of_tag t) file group ks)
unfolding dele_tag_if_in_set
dele_tag_if_in_set-Consistent t file group ks (f, c, n) h =
    elim (Bool-cases (other_group (ks.group_id file) group)) [
      | inl y ↦ rw (y) h
      | inr same ↦
          let name = tag_of_key-key_of_tag t (f, c, n) in
          let (left, once) = dele_tag_from_list-Among (ks.tags file) t (h.1 file) in
          let kept = (λ (g : Bytes). srem-Among (ks.tag_set (key_of_tag t)) file g) in
          rw (same) (
            subst
              (λ u. Consistent (
                set_tags ks (key_of_tag t) file (field_of (dele_tag_from_list (ks.tags file) u))
                  (srem (ks.tag_set (key_of_tag t)) file)))
              (sym name)
              (set_tags-Consistent ks t file (field_of (dele_tag_from_list (ks.tags file) t))
                (srem (ks.tag_set (key_of_tag t)) file) (f, c, n) h
                (λ g ne. ((λ k. ((kept g).0 k).0), λ k. (kept g).1 (k, ne)))
                (λ x ne. ((λ k. ((left x).0 k).0), λ k. (left x).1 (k, ne)))
                ((λ k. absurd (((kept file).0 k).1 refl)), λ k. absurd (((left t).0 k).1 refl))
                once))
    ]

-- A run of one of the two scripts, with a tag that a field can hold.
pub data Step (table : TableSort) : KeySpace → KeySpace → Type 0 where
  tagged :
      (ks : KeySpace) (t file group : Bytes)
      → IsTag t
      → Step table ks (tag_if_in_set table (key_of_tag t) file group ks)
  untagged :
      (ks : KeySpace) (t file group : Bytes)
      → IsTag t
      → Step table ks (dele_tag_if_in_set (key_of_tag t) file group ks)

-- Any number of runs.
pub data Runs (table : TableSort) : KeySpace → KeySpace → Type 0 where
  none_run : (ks : KeySpace) → Runs table ks ks
  one_more : (ks ks' ks'' : KeySpace) → Step table ks ks' → Runs table ks' ks'' → Runs table ks ks''

Step-Consistent :
    (table : TableSort) (ks ks' : KeySpace) → Step table ks ks' → Consistent ks → Consistent ks'
Step-Consistent table ks ks' (tagged _ t file group tag) h =
    tag_if_in_set-Consistent table t file group ks tag h
Step-Consistent table ks ks' (untagged _ t file group tag) h =
    dele_tag_if_in_set-Consistent t file group ks tag h

-- If a file is in the set of a tag exactly when its own field has the tag, and no field has a tag
-- twice, then this is so after any runs of the two scripts, for tags that are not empty and have no
-- comma and no colon.
pub Runs-Consistent :
    (table : TableSort) (ks ks' : KeySpace) → Runs table ks ks' → Consistent ks → Consistent ks'
Runs-Consistent table ks ks' (none_run _) h = h
Runs-Consistent table ks ks'' (one_more _ ks' _ step rest) h =
    Runs-Consistent table ks' ks'' rest (Step-Consistent table ks ks' step h)
