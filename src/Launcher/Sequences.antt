-- ===== src/Launcher/Sequences.antt =====
-- Texts that are written as sequences are counted and read as the characters that were written.
use dindexer.Common.{
  ℕ, zero, suc, arith, ◌+◌, ◌-◌, ◌*◌, ◌/◌, ◌%◌, ◌^◌, ◌≤◌, ◌<◌, ◌≡◌, ◌⊎◌, refl, ap, ◌∙◌, inl, inr,
  Bool, true, false, some, List, [], ◌∷◌, ◌++◌, map, Bytes, All, length, length-map, ltb, ◌==◌,
  ==_suc_zero,
}
use dindexer.Launcher.Utf8.{
  sequence_length, strlen_loop, utf8_strlen, mask_size, continuation, utf8_advance,
}

-- A character as a sequence writes it: the bits of the first byte, and six bits of each byte behind.
pub record Sequence : Type 0 where
  pub top : ℕ
  pub rest : List ℕ

-- What is in front of the bits of the first byte, by the number of bytes behind it.
abbrev pub lead : ℕ → ℕ
lead zero = 0
lead (suc zero) = 192
lead (suc (suc zero)) = 224
lead (suc (suc (suc zero))) = 240
lead (suc (suc (suc (suc zero)))) = 248
lead (suc (suc (suc (suc (suc n))))) = 252

abbrev pub room : ℕ → ℕ
room zero = 128
room (suc zero) = 32
room (suc (suc zero)) = 16
room (suc (suc (suc zero))) = 8
room (suc (suc (suc (suc n)))) = 4

abbrev pub bytes_of : Sequence → Bytes
bytes_of q = (lead (length q.rest) + q.top) ∷ map (λ d. 128 + d) q.rest

abbrev pub value_from : ℕ → List ℕ → ℕ
value_from v [] = v
value_from v (d ∷ ds) = value_from (v * 64 + d) ds

abbrev pub value : Sequence → ℕ
value q = value_from q.top q.rest

-- The bits fit into their places, and the character into 32 bits.
abbrev pub IsSequence : Sequence → Type 0
IsSequence q =
    (length q.rest ≤ 5)
    × (q.top < room (length q.rest))
    × All (λ d. d < 64) q.rest
    × (value q < 2 ^ 32)

sequence_length-lead : (n top : ℕ) → n ≤ 5 → top < room n → sequence_length (lead n + top) ≡ suc n
unfolding sequence_length
sequence_length-lead zero top h t = ground arith
sequence_length-lead (suc zero) top h t = ground arith
sequence_length-lead (suc (suc zero)) top h t = ground arith
sequence_length-lead (suc (suc (suc zero))) top h t = ground arith
sequence_length-lead (suc (suc (suc (suc zero)))) top h t = ground arith
sequence_length-lead (suc (suc (suc (suc (suc zero))))) top h t = ground arith
sequence_length-lead (suc (suc (suc (suc (suc (suc n)))))) top h t = absurd (omega arith)

lead-mask_size : (n top : ℕ) → n ≤ 5 → top < room n → (lead n + top) % mask_size (suc n) ≡ top
lead-mask_size zero top h t = omega arith
lead-mask_size (suc zero) top h t = omega arith
lead-mask_size (suc (suc zero)) top h t = omega arith
lead-mask_size (suc (suc (suc zero))) top h t = omega arith
lead-mask_size (suc (suc (suc (suc zero)))) top h t = omega arith
lead-mask_size (suc (suc (suc (suc (suc zero))))) top h t = omega arith
lead-mask_size (suc (suc (suc (suc (suc (suc n)))))) top h t = absurd (omega arith)

value_from-le : (v : ℕ) (ds : List ℕ) → v ≤ value_from v ds
value_from-le v [] = omega arith
value_from-le v (d ∷ ds) = omega (arith, value_from-le (v * 64 + d) ds)

continuation-value_from :
    (v : ℕ) (ds : List ℕ) (r : Bytes)
    → All (λ d. d < 64) ds
    → value_from v ds < 2 ^ 32
    → continuation (length ds) v (map (λ d. 128 + d) ds ++ r) ≡ (value_from v ds, r)
unfolding continuation
continuation-value_from v [] [] h fits = refl
continuation-value_from v [] (c ∷ r) h fits = refl
continuation-value_from v (d ∷ ds) r (hd, h) fits =
    let is_behind : ((128 + d) / 64 == 2) ≡ true = ground arith in
    let next : (v * 64 + (128 + d) % 64) % 2 ^ 32 ≡ v * 64 + d =
      omega (arith, value_from-le (v * 64 + d) ds) in
    rw (is_behind, next) (continuation-value_from (v * 64 + d) ds r h fits)

-- Reading at a character that is written as a sequence of one to six bytes gives its value and what
-- follows it.
pub utf8_advance-bytes_of :
    (q : Sequence) (r : Bytes) → IsSequence q → utf8_advance (bytes_of q ++ r) ≡ (value q, r)
unfolding utf8_advance
utf8_advance-bytes_of q r (n, t, h, fits) =
    let len = sequence_length-lead (length q.rest) q.top n t in
    let bits = lead-mask_size (length q.rest) q.top n t in
    let one_more : suc (length q.rest) - 1 ≡ length q.rest = omega arith in
    rw (len, bits, one_more, ==_suc_zero (length q.rest))
      (continuation-value_from q.top q.rest r h fits)

passed_over :
    (ascii : Bool) (xs r : Bytes) (i i_before count : ℕ)
    → strlen_loop ascii (length xs) i i_before count (xs ++ r)
      ≡ strlen_loop ascii 0 i i_before count r
unfolding strlen_loop
passed_over ascii [] r i i_before count = refl
passed_over ascii (x ∷ xs) r i i_before count = passed_over ascii xs r i i_before count

abbrev pub text_of : List Sequence → Bytes
text_of [] = []
text_of (q ∷ qs) = bytes_of q ++ text_of qs

lead-long : (n top : ℕ) → ltb (lead (suc n) + top) 128 ≡ false
lead-long zero top = ground arith
lead-long (suc zero) top = ground arith
lead-long (suc (suc zero)) top = ground arith
lead-long (suc (suc (suc zero))) top = ground arith
lead-long (suc (suc (suc (suc n)))) top = ground arith

ascii_step :
    (c : ℕ) (r : Bytes) (i i_before count : ℕ)
    → ltb c 128 ≡ true
    → (strlen_loop true 0 i i_before count (c ∷ r) ≡ strlen_loop true 0 (i + 1) i_before count r)
      × (strlen_loop false 0 i i_before count (c ∷ r) ≡ strlen_loop true 0 (i + 1) i count r)
unfolding strlen_loop
ascii_step c r i i_before count e = (rw (e) refl, rw (e) refl)

long_step :
    (c : ℕ) (ds : List ℕ) (r : Bytes) (i i_before count : ℕ)
    → ltb c 128 ≡ false
    → sequence_length c ≡ suc (length ds)
    → (strlen_loop true 0 i i_before count (c ∷ (map (λ d. 128 + d) ds ++ r))
        ≡ strlen_loop false 0 (i + suc (length ds)) i_before (count + (i - i_before) + 1) r)
      × (strlen_loop false 0 i i_before count (c ∷ (map (λ d. 128 + d) ds ++ r))
          ≡ strlen_loop false 0 (i + suc (length ds)) i_before (count + 1) r)
unfolding strlen_loop
long_step c ds r i i_before count e n =
    let one_more : suc (length ds) - 1 ≡ length (map (λ d. 128 + d) ds) =
      omega (arith, length-map (λ d. 128 + d) ds) in
    (
      rw (n, e, ==_suc_zero (length ds), one_more)
          (passed_over false (map (λ d. 128 + d) ds) r _ i_before _),
      rw (n, e, ==_suc_zero (length ds), one_more)
          (passed_over false (map (λ d. 128 + d) ds) r _ i_before _),
    )

-- The two loops, at the start of a sequence: they count one, and go on behind it.
strlen_loop-cons :
    (q : Sequence) (r : Bytes) (i i_before count : ℕ)
    → IsSequence q
    → ((q.rest ≡ [])
        × (strlen_loop true 0 i i_before count (bytes_of q ++ r)
            ≡ strlen_loop true 0 (i + 1) i_before count r)
        × (strlen_loop false 0 i i_before count (bytes_of q ++ r)
            ≡ strlen_loop true 0 (i + 1) i count r))
      ⊎ ((strlen_loop true 0 i i_before count (bytes_of q ++ r)
            ≡ strlen_loop false 0 (i + suc (length q.rest)) i_before (count + (i - i_before) + 1) r)
          × (strlen_loop false 0 i i_before count (bytes_of q ++ r)
              ≡ strlen_loop false 0 (i + suc (length q.rest)) i_before (count + 1) r))
strlen_loop-cons q r i i_before count (n, t, h, fits) = go q.top q.rest n t
  where
    go :
        (top : ℕ) (ds : List ℕ)
        → length ds ≤ 5
        → top < room (length ds)
        → ((ds ≡ [])
            × (strlen_loop true 0 i i_before count
                  ((lead (length ds) + top) ∷ (map (λ d. 128 + d) ds ++ r))
                ≡ strlen_loop true 0 (i + 1) i_before count r)
            × (strlen_loop false 0 i i_before count
                  ((lead (length ds) + top) ∷ (map (λ d. 128 + d) ds ++ r))
                ≡ strlen_loop true 0 (i + 1) i count r))
          ⊎ ((strlen_loop true 0 i i_before count
                  ((lead (length ds) + top) ∷ (map (λ d. 128 + d) ds ++ r))
                ≡ strlen_loop false 0 (i + suc (length ds)) i_before (count + (i - i_before) + 1) r)
              × (strlen_loop false 0 i i_before count
                    ((lead (length ds) + top) ∷ (map (λ d. 128 + d) ds ++ r))
                  ≡ strlen_loop false 0 (i + suc (length ds)) i_before (count + 1) r))
    go top [] n t =
        let short : ltb (0 + top) 128 ≡ true = ground arith in
        let (a, b) = ascii_step (0 + top) r i i_before count short in inl (refl, a, b)
    go top (d ∷ ds) n t = inr (
        long_step (lead (suc (length ds)) + top) (d ∷ ds) r i i_before count
          (lead-long (length ds) top) (sequence_length-lead (suc (length ds)) top n t))

strlen_loop-length :
    (qs : List Sequence) (i i_before count : ℕ)
    → i_before ≤ i
    → All IsSequence qs
    → (strlen_loop true 0 i i_before count (text_of qs) ≡ some (count + (i - i_before) + length qs))
      × (strlen_loop false 0 i i_before count (text_of qs) ≡ some (count + length qs))
unfolding strlen_loop
strlen_loop-length [] i i_before count le h = (ap some (omega arith), ap some (omega arith))
strlen_loop-length (q ∷ qs) i i_before count le (hq, h) =
    elim (strlen_loop-cons q (text_of qs) i i_before count hq) [
      | inl (_, a, b) ↦ (
        a
            ∙ (strlen_loop-length qs (i + 1) i_before count (omega arith) h).0
            ∙ ap some (omega arith),
        b ∙ (strlen_loop-length qs (i + 1) i count (omega arith) h).0 ∙ ap some (omega arith),
      )
      | inr (a, b) ↦ (
        a
            ∙ (strlen_loop-length qs (i + suc (length q.rest)) i_before (count + (i - i_before) + 1)
                (omega arith) h).1
            ∙ ap some (omega arith),
        b
            ∙ (strlen_loop-length qs (i + suc (length q.rest)) i_before (count + 1) (omega arith)
                h).1
            ∙ ap some (omega arith),
      )
    ]

-- A text that writes characters as sequences has as many characters as it writes.
pub utf8_strlen-length :
    (qs : List Sequence) → All IsSequence qs → utf8_strlen (text_of qs) ≡ some (length qs)
unfolding utf8_strlen
utf8_strlen-length qs h = (strlen_loop-length qs 0 0 0 (omega arith) h).0 ∙ ap some (omega arith)
