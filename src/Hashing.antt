-- ===== src/Hashing.antt =====
-- src/machinery/tiger.cpp: the text of a hash. Masks and shifts of 64-bit numbers are written as
-- divisions by powers of two.
pub mod Swap
pub mod File
use dindexer.Common.{
  ℕ, zero, suc, ◌+◌, ◌-◌, ◌*◌, ◌/◌, ◌%◌, ◌^◌, substr, Bool, true, false, List, [], ◌∷◌, ◌++◌, Bytes,
  ltb, if◌then◌else◌,
}
use dindexer.RecordData.{TigerHash}

-- The two halves of a number, by the base of a half, in the other order.
unfoldable pub half_swap : ℕ → ℕ → ℕ
half_swap m x = (x % m) * m + x / m

-- The same done to both halves.
unfoldable pub halves : ℕ → (ℕ → ℕ) → ℕ → ℕ
halves m f x = f (x / m) * m + f (x % m)

-- The order of the eight bytes is turned around: halves of 32 bits, then of 16, then of 8.
unfoldable pub swap_long : ℕ → ℕ
unfolding half_swap halves
swap_long n =
    let by_32 = half_swap (2 ^ 32) n in
    let by_16 = halves (2 ^ 32) (half_swap (2 ^ 16)) by_32 in
    halves (2 ^ 32) (halves (2 ^ 16) (half_swap (2 ^ 8))) by_16

abbrev pub tiger_init_hash : TigerHash
tiger_init_hash = record {
  part_a = 81985529216486895;
  part_b = 18364758544493064720;
  part_c = 17336226011405279623;
}

abbrev pub hex_letter : Bool → ℕ → ℕ
hex_letter upcase d =
    if ltb d 10 then b'0' + d else if upcase then b'A' + (d - 10) else b'a' + (d - 10)

-- `std::hex` with a width, filled with zeros: the last digits of a number that is not wider.
unfoldable pub hex_text : Bool → ℕ → ℕ → Bytes
hex_text upcase zero n = []
hex_text upcase (suc width) n = hex_text upcase width (n / 16) ++ hex_letter upcase (n % 16) ∷ []

unfoldable pub tiger_to_string : TigerHash → Bool → Bytes
unfolding swap_long hex_text
tiger_to_string h upcase =
    hex_text upcase 16 (swap_long h.part_a)
    ++ hex_text upcase 16 (swap_long h.part_b)
    ++ hex_text upcase 16 (swap_long h.part_c)

-- The conversion of hexadecimal text to a number is a parameter.
unfoldable pub string_to_tiger : (Bytes → ℕ) → Bytes → TigerHash
unfolding swap_long
string_to_tiger lexical_cast inp = record {
  part_a = swap_long (lexical_cast (substr 0 16 inp));
  part_b = swap_long (lexical_cast (substr 16 16 inp));
  part_c = swap_long (lexical_cast (substr 32 16 inp));
}
