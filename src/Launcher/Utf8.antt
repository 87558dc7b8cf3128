-- ===== src/Launcher/Utf8.antt =====
-- src/main/utf8_ops.c: counting and reading the characters of a text of bytes. Tests and masks of bits
-- are written as divisions; a character has 32 bits.
use dindexer.Common.{
  ℕ, zero, suc, ◌+◌, ◌-◌, ◌*◌, ◌/◌, ◌%◌, ◌^◌, Bool, true, false, Option, some, none, [], ◌∷◌, Bytes,
  ltb, ◌==◌, if◌then◌else◌,
}

-- The number of bytes of the sequence that a byte begins, or 0 for a byte that begins none; there the
-- source has a failing assertion.
unfoldable pub sequence_length : ℕ → ℕ
sequence_length c =
    if ltb c 128
    then 1
    else if c / 32 == 6
    then 2
    else if c / 16 == 14
    then 3
    else if c / 8 == 30
    then 4
    else if c / 4 == 62
    then 5
    else if c / 4 == 63
    then 6
    else 0

-- The two loops of `utf8_strlen`: whether the run is in the one over ASCII, how many bytes of a
-- sequence are to be passed over, and `i`, `i_before` and `count`. The result is `none` if a byte
-- begins no sequence, where the source stops at an assertion or, without assertions, never ends, and
-- if the text ends inside a sequence, where it reads behind the end.
unfoldable pub strlen_loop : Bool → ℕ → ℕ → ℕ → ℕ → Bytes → Option ℕ
unfolding sequence_length
strlen_loop true skip i i_before count [] = some (count + (i - i_before))
strlen_loop false zero i i_before count [] = some count
strlen_loop false (suc skip) i i_before count [] = none
strlen_loop ascii (suc skip) i i_before count (c ∷ s) = strlen_loop ascii skip i i_before count s
strlen_loop true zero i i_before count (c ∷ s) =
    let next_ascii = strlen_loop true 0 (i + 1) i_before count s in
    let sequence =
      strlen_loop false (sequence_length c - 1) (i + sequence_length c) i_before
        (count + (i - i_before) + 1) s in
    if ltb c 128 then next_ascii else if sequence_length c == 0 then none else sequence
strlen_loop false zero i i_before count (c ∷ s) =
    let first_ascii = strlen_loop true 0 (i + 1) i count s in
    let sequence =
      strlen_loop false (sequence_length c - 1) (i + sequence_length c) i_before (count + 1) s in
    if ltb c 128 then first_ascii else if sequence_length c == 0 then none else sequence

unfoldable pub utf8_strlen : Bytes → Option ℕ
unfolding strlen_loop
utf8_strlen s = strlen_loop true 0 0 0 0 s

-- `masks`, for the length of a sequence: the bits of its first byte that belong to the character.
abbrev pub mask_size : ℕ → ℕ
mask_size n =
    if n == 1 then 128 else if n == 2 then 32 else if n == 3 then 16 else if n == 4 then 8 else 4

-- The loop over the bytes behind the first, and what is left of the text.
unfoldable pub continuation : ℕ → ℕ → Bytes → ℕ × Bytes
continuation z v [] = (v, [])
continuation zero v (d ∷ s) = (v, d ∷ s)
continuation (suc z) v (d ∷ s) =
    let next = continuation z ((v * 64 + d % 64) % 2 ^ 32) s in
    if d / 64 == 2 then next else (0, d ∷ s)

unfoldable pub utf8_advance : Bytes → ℕ × Bytes
unfolding continuation sequence_length
utf8_advance [] = (0, [])
utf8_advance (c ∷ s) =
    let n = sequence_length c in
    let sequence = continuation (n - 1) (c % mask_size n) s in if n == 0 then (0, s) else sequence
