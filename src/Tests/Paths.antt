-- ===== src/Tests/Paths.antt =====
-- Splitting and paths at concrete inputs.
use dindexer.Common.{
  ◌≡◌, ap, sym, subst, pieces-Lacks, keep_filled-Filled, keep_filled-All, ◌≢◌, false, not, ◌&&◌,
  List, [], ◌∷◌, All, Lacks, Filled, Bytes, codes, StrRange, pieces,
}
use dindexer.PathName.{PathName, slash, path, path_name, make_relative_path, begins_with_slash}
use dindexer.PathName.Atoms.{atoms_of}
use dindexer.PathName.Parse.{components, path_name-HasAtoms, path_name-components, path_name-path}
use dindexer.PathName.Relative.{follow, IsAtom, parent_dir, follow-make_relative_path}
use dindexer.Tests.Boost.{string_find, splitter}

abbrev text : Bytes
text = codes "/usr//lib/"

abbrev usr_lib : PathName
usr_lib = path_name string_find text

abbrev usr_share : PathName
usr_share = path_name string_find (codes "/usr/share")

abbrev part : StrRange
part = record { start = 1; len = 8 }

atoms-Filled : (s : Bytes) → All Filled (atoms_of (path_name string_find s))
atoms-Filled s =
    subst (All Filled) (sym (path_name-components string_find s).0)
      (keep_filled-Filled (pieces slash s))

atoms-Lacks : (s : Bytes) → All (Lacks slash) (atoms_of (path_name string_find s))
atoms-Lacks s =
    subst (All (Lacks slash)) (sym (path_name-components string_find s).0)
      (keep_filled-All (Lacks slash) (pieces slash s) (pieces-Lacks slash s))

both : (l : List Bytes) → All Filled l → All (Lacks slash) l → All IsAtom l
both [] f k = tt
both (a ∷ l) (f, fs) (k, ks) = ((f, k), both l fs ks)

no_parent : All (λ a. a ≢ parent_dir) (atoms_of usr_share)
unfolding pieces
no_parent =
    subst (All (λ a. a ≢ parent_dir))
      (sym (path_name-components string_find (codes "/usr/share")).0) ((λ e. cc), ((λ e. cc), tt))

path_name-components_example :
    (atoms_of usr_lib ≡ components text) × (usr_lib.absolute ≡ begins_with_slash text)
path_name-components_example = path_name-components string_find text

path_name-path_example :
    (atoms_of (path_name string_find (path usr_lib)) ≡ atoms_of usr_lib)
    × ((path_name string_find (path usr_lib)).absolute ≡ usr_lib.absolute)
path_name-path_example = path_name-path string_find usr_lib (atoms-Filled text) (atoms-Lacks text)

follow-make_relative_path_example :
    (follow
        (atoms_of usr_lib)
        (atoms_of (make_relative_path string_find splitter usr_lib usr_share))
      ≡ atoms_of usr_share)
    × ((make_relative_path string_find splitter usr_lib usr_share).absolute ≡ false)
follow-make_relative_path_example =
    follow-make_relative_path string_find splitter usr_lib usr_share
      (path_name-HasAtoms string_find (codes "/usr/share"))
      (both (atoms_of usr_share) (atoms-Filled (codes "/usr/share"))
        (atoms-Lacks (codes "/usr/share")))
      no_parent (ap (λ b. not b && usr_share.absolute) (path_name-components string_find text).1)
