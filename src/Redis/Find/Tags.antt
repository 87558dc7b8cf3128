-- ===== src/Redis/Find/Tags.antt =====
-- Which tags a file must have to be found.
use dindexer.Common.{
  arith, ◌≡◌, ◌↔◌, refl, ap, sym, ◌∙◌, inl, inr, true, List, [], ◌∷◌, Bytes, All, length, leb,
  bytes_eq, bytes_eq→eq, bytes_eq_refl, Bool-cases, Among, NoRepeats, length-NoRepeats,
}
use dindexer.Boost.{Splitter}
use dindexer.Split.{split_texts}
use dindexer.Redis.Find.{has_tag, has_tags, all_tags_match}

pub has_tag-Among : (t : Bytes) (tags : List Bytes) → (has_tag t tags ≡ true) ↔ Among t tags
unfolding has_tag
has_tag-Among t [] = ((λ h. cc), λ h. absurd h)
has_tag-Among t (u ∷ us) = elim (Bool-cases (bytes_eq u t)) [
  | inl e ↦ rw (e) ((λ h. inl (sym (bytes_eq→eq u t e))), λ h. refl)
  | inr n ↦
      let (f, g) = has_tag-Among t us in
      rw (n) (
        (λ h. inr (f h)),
        λ h. elim h [
          | inl e ↦ absurd (cc (sym n ∙ ap (λ x. bytes_eq x t) (sym e) ∙ bytes_eq_refl t))
          | inr k ↦ g k
        ],
      )
]

has_tags-Among :
    (required tags : List Bytes)
    → (has_tags required tags ≡ true) ↔ All (λ r. Among r tags) required
unfolding has_tags
has_tags-Among [] tags = ((λ h. tt), λ h. refl)
has_tags-Among (r ∷ rs) tags =
    let (f, g) = has_tag-Among r tags in
    let (fs, gs) = has_tags-Among rs tags in
    elim (Bool-cases (has_tag r tags)) [
      | inl y ↦ rw (y) ((λ h. (f y, fs h)), λ h. gs h.1)
      | inr n ↦ rw (n) ((λ h. cc), λ h. absurd (cc (sym n ∙ g h.0)))
    ]

-- A file has all tags that are required exactly when each of them is among its own, if none is
-- required twice: the comparison of the numbers of tags then changes nothing.
pub all_tags_match-Among :
    (boost : Splitter) (required : List Bytes) (taglist : Bytes)
    → NoRepeats required
    → (all_tags_match boost required taglist ≡ true)
      ↔ All (λ r. Among r (split_texts boost taglist b',' true true)) required
unfolding all_tags_match
all_tags_match-Among boost required taglist once =
    let tags = split_texts boost taglist b',' true true in
    let (f, g) = has_tags-Among required tags in
    elim (Bool-cases (leb (length required) (length tags))) [
      | inl y ↦ rw (y) (f, g)
      | inr n ↦
          rw (n) ((λ h. cc), λ h. absurd (ground (arith, length-NoRepeats required tags once h)))
    ]
