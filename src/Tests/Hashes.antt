-- ===== src/Tests/Hashes.antt =====
-- The text of a hash at concrete inputs, with a plain conversion of hexadecimal text.
use dindexer.Common.{
  ℕ, zero, suc, arith, ◌+◌, ◌-◌, ◌*◌, ◌/◌, ◌%◌, ◌<◌, ◌≡◌, refl, ap₂, ◌∙◌, Bool, true, false, [],
  ◌∷◌, ◌++◌, length, ap, Bytes, codes, ltb, if◌then◌else◌,
}
use dindexer.Hashing.{
  hex_letter, half_swap, halves, swap_long, hex_text, tiger_init_hash, tiger_to_string,
  string_to_tiger,
}
use dindexer.RecordData.{TigerHash}
use dindexer.Hashing.File.{Blocks, zeros, whole, dir_block, tiger_file, tiger_file-whole}
use dindexer.Hashing.Swap.{string_to_tiger-tiger_to_string}

digit_of : ℕ → ℕ
digit_of c = if ltb c 58 then c - 48 else if ltb c 71 then c - 55 else c - 87

hex_value : ℕ → Bytes → ℕ
hex_value v [] = v
hex_value v (c ∷ s) = hex_value (v * 16 + digit_of c) s

digit_of-hex_letter : (upcase : Bool) (d : ℕ) → d < 16 → digit_of (hex_letter upcase d) ≡ d
unfolding digit_of
digit_of-hex_letter true d h = ground arith
digit_of-hex_letter false d h = ground arith

hex_value-snoc :
    (v : ℕ) (s : Bytes) (c : ℕ) → hex_value v (s ++ c ∷ []) ≡ hex_value v s * 16 + digit_of c
unfolding hex_value
hex_value-snoc v [] c = refl
hex_value-snoc v (d ∷ s) c = hex_value-snoc (v * 16 + digit_of d) s c

-- How many numbers have so many digits.
abbrev numbers : ℕ → ℕ
numbers zero = 1
numbers (suc w) = 16 * numbers w

hex_value-hex_text :
    (upcase : Bool) (w n : ℕ) → n < numbers w → hex_value 0 (hex_text upcase w n) ≡ n
unfolding hex_text hex_value
hex_value-hex_text upcase zero n h = omega arith
hex_value-hex_text upcase (suc w) n h =
    hex_value-snoc 0 (hex_text upcase w (n / 16)) (hex_letter upcase (n % 16))
    ∙ ap₂ (λ a b. a * 16 + b) (hex_value-hex_text upcase w (n / 16) (omega arith))
        (digit_of-hex_letter upcase (n % 16) (omega arith))
    ∙ omega arith

first_word : hex_text false 16 (swap_long 1) ≡ codes "0100000000000000"
unfolding hex_text swap_long half_swap halves
first_word = refl

string_to_tiger-tiger_to_string_example :
    string_to_tiger (hex_value 0) (tiger_to_string tiger_init_hash true) ≡ tiger_init_hash
string_to_tiger-tiger_to_string_example =
    string_to_tiger-tiger_to_string (hex_value 0) tiger_init_hash true
      (λ n h. hex_value-hex_text true 16 n h) (omega arith, omega arith, omega arith)

pub counted_bytes : (a b : Bytes) (n : ℕ) → n + length (a ++ b) ≡ n + length a + length b
counted_bytes [] b n = omega arith
counted_bytes (x ∷ a) b n = omega (arith, counted_bytes a b n)

unfoldable pub count_in : ℕ → TigerHash → TigerHash
count_in n h = record { part_a = h.part_a + n; part_b = h.part_b; part_c = h.part_c }

-- Block functions that count bytes.
abbrev pub counting : Blocks
unfolding count_in
counting = record {
  chunk = λ s h. count_in (length s) h;
  last_chunk = λ s real_length h. record {
    part_a = h.part_a + length s;
    part_b = real_length;
    part_c = h.part_c;
  };
  chunk_nil =
      λ h. ap (λ n. record { part_a = n; part_b = h.part_b; part_c = h.part_c }) (omega arith);
  chunk_append = λ a b h _.
      ap (λ n. record { part_a = n; part_b = h.part_b; part_c = h.part_c })
        (counted_bytes a b h.part_a);
}

tiger_file-whole_example : tiger_file counting (zeros 70) (zeros 24) ≡ (
  whole counting 70 (zeros 70) (record {
    file = tiger_init_hash;
    dir = counting.chunk (dir_block (zeros 24)) tiger_init_hash;
  }),
  70,
)
tiger_file-whole_example = tiger_file-whole counting (zeros 70) (zeros 24)
