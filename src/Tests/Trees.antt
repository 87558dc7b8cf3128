-- ===== src/Tests/Trees.antt =====
-- The tree of a small listing: a directory in a directory, and a file beside the outer one.
use mathlib.Core.List.{Perm}
use dindexer.Common.{some, get_elem?, ◌≡◌, refl, true, false, List, [], ◌∷◌, codes, bytes_eq}
use dindexer.RecordData.{FileRecordData, file_record}
use dindexer.StringPool.{clone_first, update_one, update, insert}
use dindexer.PathName.{
  PathName, path_name, split_path, split_loop, find_byte, is_ancestor, are_siblings, same_atoms,
}
use dindexer.SetListing.{bytes_lt}
use dindexer.RecordTree.{
  FileRecordNode, insert_index, sort_indices, unwind, place, add_record, add_records,
  make_filerecord_tree,
}
use dindexer.RecordTree.Parents.{indices, HasParents, make_filerecord_tree-HasParents}
use dindexer.RecordTree.Misplaced.{make_filerecord_tree-misplaced}
use dindexer.RecordTree.Stray.{make_filerecord_tree-stray}
use dindexer.Tests.Boost.{string_find, find_text}

abbrev listed : List FileRecordData
listed =
    file_record (codes "c") 0 0 0 1 false false
    ∷ file_record (codes "a/b") 0 0 0 2 true false
    ∷ file_record [] 0 0 0 0 true false
    ∷ file_record (codes "a") 0 0 0 1 true false
    ∷ []

abbrev some_path : PathName
some_path = path_name string_find (codes "x/y")

abbrev other_path : PathName
other_path = path_name string_find []

abbrev top : FileRecordData
top = file_record [] 0 0 0 0 true false

abbrev outer : FileRecordData
outer = file_record (codes "a") 0 0 0 1 true false

abbrev inner : FileRecordData
inner = file_record (codes "a/b") 0 0 0 2 true false

abbrev beside : FileRecordData
beside = file_record (codes "c") 0 0 0 1 false false

abbrev tree : List FileRecordNode
tree =
    (record { parent = 0; index = 2 })
    ∷ (record { parent = 1; index = 3 })
    ∷ (record { parent = 2; index = 1 })
    ∷ (record { parent = 2; index = 0 })
    ∷ []

listed_tree : make_filerecord_tree string_find listed some_path ≡ tree
unfolding make_filerecord_tree add_records add_record place unwind sort_indices insert_index
    bytes_lt path_name split_path split_loop find_byte insert update update_one clone_first
    find_text bytes_eq is_ancestor are_siblings same_atoms
listed_tree = refl

make_filerecord_tree-HasParents_example :
    Perm (indices (make_filerecord_tree string_find listed some_path)) (0 ∷ 1 ∷ 2 ∷ 3 ∷ [])
    × HasParents string_find listed some_path [] (make_filerecord_tree string_find listed some_path)
make_filerecord_tree-HasParents_example =
    make_filerecord_tree-HasParents string_find listed some_path

make_filerecord_tree-stray_example :
    make_filerecord_tree string_find listed some_path
    ≡ make_filerecord_tree string_find listed other_path
unfolding sort_indices insert_index bytes_lt path_name split_path split_loop find_byte insert update
    update_one clone_first find_text bytes_eq is_ancestor are_siblings same_atoms
make_filerecord_tree-stray_example =
    make_filerecord_tree-stray string_find listed some_path other_path 2 top
      ((3, outer) ∷ (1, inner) ∷ (0, beside) ∷ []) refl refl refl

make_filerecord_tree-misplaced_example :
    (get_elem? (make_filerecord_tree string_find listed some_path) 1
      ≡ some (record { parent = 1; index = 3 }))
    × (get_elem? (make_filerecord_tree string_find listed some_path) 3
        ≡ some (record { parent = 2; index = 0 }))
unfolding sort_indices insert_index bytes_lt path_name split_path split_loop find_byte insert update
    update_one clone_first find_text bytes_eq is_ancestor are_siblings same_atoms
make_filerecord_tree-misplaced_example =
    make_filerecord_tree-misplaced string_find listed some_path 2 3 1 top outer inner 0 beside []
      refl refl refl refl refl refl refl refl
