-- ===== src/Postgres/Prepared.antt =====
-- What a query with parameters has to be: its text, scanned without the model of any operation.
use dindexer.Common.{
  ℕ, zero, suc, Option, some, none, ◌+◌, ◌-◌, ◌*◌, Bool, true, false, not, ◌&&◌, ◌||◌, List, [],
  ◌∷◌, Bytes, codes, length, ◌==◌, leb, if◌then◌else◌, bytes_eq, take, drop,
}
use dindexer.Postgres.{Param, number, texts, numbers, Query}

abbrev is_digit : ℕ → Bool
is_digit c = leb b'0' c && leb c b'9'

-- The decimal number at the front of a text.
unfoldable pub leading : ℕ → Bytes → ℕ
leading n [] = n
leading n (c ∷ s) = elim (is_digit c) [ true ↦ leading (n * 10 + (c - b'0')) s | false ↦ n ]

-- The numbers behind the dollar signs.
unfoldable pub placeholders : Bytes → List ℕ
unfolding leading
placeholders [] = []
placeholders (c ∷ s) = let rest = placeholders s in if c == b'$' then leading 0 s ∷ rest else rest

abbrev pub mentions : ℕ → List ℕ → Bool
mentions n [] = false
mentions n (k ∷ ks) = (k == n) || mentions n ks

abbrev pub all_mentioned : ℕ → List ℕ → Bool
all_mentioned zero ks = true
all_mentioned (suc n) ks = mentions (suc n) ks && all_mentioned n ks

abbrev pub none_above : ℕ → List ℕ → Bool
none_above n [] = true
none_above n (k ∷ ks) = (leb 1 k && leb k n) && none_above n ks

-- The text uses each parameter that is given, and no other.
unfoldable pub is_prepared : Query → Bool
unfolding placeholders
is_prepared q =
    all_mentioned (length q.params) (placeholders q.sql)
    && none_above (length q.params) (placeholders q.sql)

-- What stands outside of parentheses.
unfoldable pub outer : ℕ → Bytes → Bytes
outer depth [] = []
outer depth (c ∷ s) = elim (c == b'(') [
  | true ↦ outer (suc depth) s
  | false ↦ elim (c == b')') [
    | true ↦ outer (depth - 1) s
    | false ↦ elim (depth == 0) [ true ↦ c ∷ outer depth s | false ↦ outer depth s ]
  ]
]

abbrev begins : Bytes → Bytes → Bool
begins part s = bytes_eq part (take (length part) s)

unfoldable pub holds : Bytes → Bytes → Bool
unfolding bytes_eq
holds part [] = false
holds part (c ∷ s) = begins part (c ∷ s) || holds part s

abbrev skip_spaces : Bytes → Bytes
skip_spaces [] = []
skip_spaces (c ∷ s) = if c == b' ' then skip_spaces s else c ∷ s

abbrev number_of : Param → Option ℕ
number_of (number n) = some n
number_of _ = none

-- The number that a parameter is, counted from 1, if it is one.
abbrev number_at : List Param → ℕ → Option ℕ
number_at [] n = none
number_at (p ∷ ps) zero = none
number_at (p ∷ ps) (suc zero) = number_of p
number_at (p ∷ ps) (suc (suc n)) = number_at ps (suc n)

-- The number in `=$n`, with spaces or without.
abbrev equal_number : List Param → Bytes → Option ℕ
equal_number params s =
    let t = skip_spaces s in
    let u = skip_spaces (drop 1 t) in
    if begins (codes "=") t && begins (codes "$") u
    then number_at params (leading 0 (drop 1 u))
    else none

abbrev or_else : Option ℕ → Option ℕ → Option ℕ
or_else none o = o
or_else (some n) o = some n

-- The number that `"group_id"` is compared with in a text.
unfoldable pub group_number : List Param → Bytes → Option ℕ
unfolding leading bytes_eq
group_number params [] = none
group_number params (c ∷ s) =
    let rest = group_number params s in
    if begins (codes "\"group_id\"") (c ∷ s)
    then or_else (equal_number params (drop 10 (c ∷ s))) rest
    else rest

-- What follows the first WHERE of a text, if there is one.
unfoldable pub condition : Bytes → Bytes
unfolding bytes_eq
condition [] = []
condition (c ∷ s) =
    let rest = condition s in if begins (codes "WHERE") (c ∷ s) then drop 5 (c ∷ s) else rest

-- The set that all rows which are updated belong to: the condition that stands outside of parentheses has
-- `"group_id" = $n` for its number, and nothing there is an alternative to that or negated. None if it
-- cannot be told so.
unfoldable pub confined_to : Query → Option ℕ
unfolding outer holds group_number condition
confined_to q =
    let where_ = condition (outer 0 q.sql) in
    if holds (codes " OR ") where_ || holds (codes "NOT ") where_
    then none
    else group_number q.params where_

abbrev is_list : Param → Bool
is_list (texts l) = true
is_list (numbers l) = true
is_list _ = false

abbrev param_is_list : List Param → ℕ → Bool
param_is_list [] n = false
param_is_list (p ∷ ps) zero = false
param_is_list (p ∷ ps) (suc zero) = is_list p
param_is_list (p ∷ ps) (suc (suc n)) = param_is_list ps (suc n)

-- Whether a list is asked for behind two bytes: `ANY(`, `UNNEST(`, `|| ` and `@> `.
abbrev asks_list : ℕ → ℕ → Bool
asks_list c d =
    ((d == b'(') && ((c == b'Y') || (c == b'T'))) || ((d == b' ') && ((c == b'|') || (c == b'>')))

abbrev bool_eq : Bool → Bool → Bool
bool_eq true b = b
bool_eq false b = not b

unfoldable pub typed_from : List Param → ℕ → ℕ → Bytes → Bool
unfolding leading
typed_from params c d [] = true
typed_from params c d (e ∷ s) =
    let rest = typed_from params d e s in
    if e == b'$' then bool_eq (asks_list c d) (param_is_list params (leading 0 s)) && rest else rest

-- Lists stand where the text asks for a list, and single values elsewhere.
unfoldable pub is_typed : Query → Bool
unfolding typed_from
is_typed q = typed_from q.params 0 0 q.sql
