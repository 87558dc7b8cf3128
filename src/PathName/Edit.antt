-- ===== src/PathName/Edit.antt =====
-- Joining and shortening paths, by their atoms.
use dindexer.Common.{◌-◌, ◌≡◌, refl, ap, ◌∙◌, true, false, ◌++◌, Bytes, take, StrRange, slice}
use dindexer.Boost.{StringFind, Splitter, Within}
use dindexer.Split.{split_texts_lem, split_part_texts}
use dindexer.StringPool.Update.{
  insert-IsValid, texts-insert, update_pool-IsValid, texts-update_pool,
}
use dindexer.StringPool.Pop.{pop-IsValid, texts-pop}
use dindexer.PathName.{PathName, slash, atom_count, join, join_part, pop_right}
use dindexer.PathName.Atoms.{atoms_of, HasAtoms}
use dindexer.PathName.Parse.{components}

-- `pop_right` of a path with a well-formed pool takes exactly the last atom, keeps the pool
-- well-formed and the path absolute or relative.
pub pop_right-atoms :
    (p : PathName)
    → HasAtoms p
    → HasAtoms (pop_right p)
      × (atoms_of (pop_right p) ≡ take (atom_count p - 1) (atoms_of p))
      × ((pop_right p).absolute ≡ p.absolute)
unfolding pop_right
pop_right-atoms p v = (pop-IsValid p.atoms v, texts-pop p.atoms v, refl)

module _ (find : StringFind) where
  -- `join` of another path to one with a well-formed pool appends its atoms, keeps the pool
  -- well-formed and the path absolute or relative.
  pub join-atoms :
      (p other : PathName)
      → HasAtoms p
      → HasAtoms (join find p other)
        × (atoms_of (join find p other) ≡ atoms_of p ++ atoms_of other)
        × ((join find p other).absolute ≡ p.absolute)
  unfolding join
  join-atoms p other v = (
    update_pool-IsValid find p.atoms other.atoms v,
    texts-update_pool find p.atoms other.atoms v,
    refl,
  )

  module _ (boost : Splitter) where
    -- `join` of a part of a text, which lies inside it, to a path with a well-formed pool appends
    -- the components of that part, keeps the pool well-formed and the path absolute or relative.
    pub join_part-atoms :
        (p : PathName) (part : StrRange) (source : Bytes)
        → HasAtoms p
        → Within source part
        → HasAtoms (join_part find boost p part source)
          × (atoms_of (join_part find boost p part source)
              ≡ atoms_of p ++ components (slice part source))
          × ((join_part find boost p part source).absolute ≡ p.absolute)
    unfolding join_part
    join_part-atoms p part source v w = (
      insert-IsValid find p.atoms _ source v,
      texts-insert find p.atoms _ source v
          ∙ ap (λ l. atoms_of p ++ l)
              (split_part_texts boost part source slash false true w
                ∙ split_texts_lem boost (slice part source) slash false true),
      refl,
    )
