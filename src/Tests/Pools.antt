-- ===== src/Tests/Pools.antt =====
-- String pools at concrete inputs: "a/bb" split into two ranges, its parts added again, and one taken.
use dindexer.Common.{◌≡◌, List, [], ◌∷◌, ◌++◌, take, ◌-◌, Bytes, codes, StrRange}
use dindexer.StringPool.{StringPool, StringListPair, empty_pool, size, update, insert, pop}
use dindexer.StringPool.View.{texts}
use dindexer.StringPool.Valid.{IsValid, empty_pool-IsValid}
use dindexer.StringPool.Update.{texts-update, update-IsValid, insert-IsValid, spans}
use dindexer.StringPool.Pop.{texts-pop}
use dindexer.Tests.Boost.{string_find}

abbrev base : Bytes
base = codes "a/bb"

abbrev ranges : List StrRange
ranges = record { start = 0; len = 1 } ∷ record { start = 2; len = 2 } ∷ []

abbrev two_texts : StringPool
two_texts = insert string_find empty_pool ranges base

two_texts-IsValid : IsValid two_texts
two_texts-IsValid = insert-IsValid string_find empty_pool ranges base empty_pool-IsValid

abbrev pairs : List StringListPair
pairs =
    record { range = record { start = 2; len = 1 }; source = 0 }
    ∷ record { range = record { start = 0; len = 2 }; source = 1 }
    ∷ []

abbrev bases : List Bytes
bases = base ∷ codes "xyz" ∷ []

texts-update_example :
    texts (update string_find two_texts pairs bases) ≡ texts two_texts ++ spans bases pairs
texts-update_example = texts-update string_find two_texts pairs bases two_texts-IsValid

update-IsValid_example : IsValid (update string_find two_texts pairs bases)
update-IsValid_example = update-IsValid string_find two_texts pairs bases two_texts-IsValid

texts-pop_example : texts (pop two_texts) ≡ take (size two_texts - 1) (texts two_texts)
texts-pop_example = texts-pop two_texts two_texts-IsValid
