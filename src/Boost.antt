-- ===== src/Boost.antt =====
-- What the program takes from Boost, as interfaces: the operations that it calls on text, with the
-- documented behaviour that the proofs rely on. No definition of the library is made up here.
use dindexer.Common.{
  ℕ, ◌+◌, ◌≤◌, ◌≡◌, Option, some, List, map, Bytes, substr, length, All, StrRange, slice, pieces,
}

-- `boost::string_ref::find`: the position of an occurrence of the second text in the first.
pub record StringFind : Type 0 where
  pub find : Bytes → Bytes → Option ℕ
  pub find_within : (s t : Bytes) (i : ℕ) → find s t ≡ some i → i + length t ≤ length s
  pub find_occurs : (s t : Bytes) (i : ℕ) → find s t ≡ some i → substr i (length t) s ≡ t

abbrev pub Within : Bytes → StrRange → Type 0
Within s r = r.start + r.len ≤ length s

-- `boost::iter_split` with a `token_finder` for one character, and `boost::trim_copy` of a range.
-- `trim` is what the latter does to the text.
pub record Splitter : Type 0 where
  pub iter_split : ℕ → Bytes → List StrRange
  pub iter_split_within : (sep : ℕ) (s : Bytes) → All (Within s) (iter_split sep s)
  pub iter_split_texts :
      (sep : ℕ) (s : Bytes) → map (λ r. slice r s) (iter_split sep s) ≡ pieces sep s
  pub trim_copy : Bytes → StrRange → StrRange
  pub trim : Bytes → Bytes
  pub trim_within : (s : Bytes) (r : StrRange) → Within s r → Within s (trim_copy s r)
  pub trim_texts : (s : Bytes) (r : StrRange) → slice (trim_copy s r) s ≡ trim (slice r s)
