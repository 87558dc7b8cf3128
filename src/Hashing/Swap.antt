-- ===== src/Hashing/Swap.antt =====
-- Turning the bytes around twice changes nothing, and a hash is read back from its text.
use dindexer.Common.{
  ℕ, arith, ◌+◌, ◌*◌, ◌/◌, ◌%◌, ◌^◌, ◌<◌, ◌≡◌, ap, ap₂, sym, ◌∙◌, subst, Bool, Bytes,
}
use dindexer.RecordData.{TigerHash}
use dindexer.Hashing.{half_swap, halves, swap_long, hex_text, tiger_to_string, string_to_tiger}

-- A base whose two-digit numbers are divided into their digits.
record IsBase (m : ℕ) : Type 0 where
  join_div : (a b : ℕ) → b < m → (a * m + b) / m ≡ a
  join_mod : (a b : ℕ) → b < m → (a * m + b) % m ≡ b
  join_lt : (a b : ℕ) → a < m → b < m → a * m + b < m * m
  div_lt : (x : ℕ) → x < m * m → x / m < m
  mod_lt : (x : ℕ) → x % m < m
  again : (x : ℕ) → x / m * m + x % m ≡ x

base_8 : IsBase (2 ^ 8)
base_8 = record {
  join_div = λ a b h. omega arith;
  join_mod = λ a b h. omega arith;
  join_lt = λ a b h k. omega arith;
  div_lt = λ x h. omega arith;
  mod_lt = λ x. omega arith;
  again = λ x. omega arith;
}

base_16 : IsBase (2 ^ 16)
base_16 = record {
  join_div = λ a b h. omega arith;
  join_mod = λ a b h. omega arith;
  join_lt = λ a b h k. omega arith;
  div_lt = λ x h. omega arith;
  mod_lt = λ x. omega arith;
  again = λ x. omega arith;
}

base_32 : IsBase (2 ^ 32)
base_32 = record {
  join_div = λ a b h. omega arith;
  join_mod = λ a b h. omega arith;
  join_lt = λ a b h k. omega arith;
  div_lt = λ x h. omega arith;
  mod_lt = λ x. omega arith;
  again = λ x. omega arith;
}

-- A function on the digits of a base that is its own inverse.
record IsInvolution (m : ℕ) (f : ℕ → ℕ) : Type 0 where
  within : (x : ℕ) → x < m → f x < m
  twice : (x : ℕ) → x < m → f (f x) ≡ x

module _ (m : ℕ) (base : IsBase m) where
  open base use {join_div, join_mod, join_lt, div_lt, mod_lt, again}

  half_swap-join : (a b : ℕ) → b < m → half_swap m (a * m + b) ≡ b * m + a
  unfolding half_swap
  half_swap-join a b h = ap₂ (λ x y. x * m + y) (join_mod a b h) (join_div a b h)

  halves-join : (f : ℕ → ℕ) (a b : ℕ) → b < m → halves m f (a * m + b) ≡ f a * m + f b
  unfolding halves
  halves-join f a b h = ap₂ (λ x y. f x * m + f y) (join_div a b h) (join_mod a b h)

  half_swap-IsInvolution : IsInvolution (m * m) (half_swap m)
  unfolding half_swap
  half_swap-IsInvolution = record {
    within = λ x h. join_lt (x % m) (x / m) (mod_lt x) (div_lt x h);
    twice = λ x h. half_swap-join (x % m) (x / m) (div_lt x h) ∙ again x;
  }

  -- The halves in the other order, each turned around by a function.
  turned : (ℕ → ℕ) → ℕ → ℕ
  turned f x = halves m f (half_swap m x)

  turned-digits : (f : ℕ → ℕ) (x : ℕ) → x < m * m → turned f x ≡ f (x % m) * m + f (x / m)
  unfolding turned half_swap
  turned-digits f x h = halves-join f (x % m) (x / m) (div_lt x h)

  turned-IsInvolution : (f : ℕ → ℕ) → IsInvolution m f → IsInvolution (m * m) (turned f)
  unfolding turned
  turned-IsInvolution f inv = record {
    within = λ x h.
        subst (λ z. z < m * m) (sym (turned-digits f x h))
          (join_lt (f (x % m)) (f (x / m)) (inv.within (x % m) (mod_lt x))
            (inv.within (x / m) (div_lt x h)));
    twice = λ x h.
        let hi = inv.within (x / m) (div_lt x h) in
        ap (turned f) (turned-digits f x h)
        ∙ ap (halves m f) (half_swap-join (f (x % m)) (f (x / m)) hi)
        ∙ halves-join f (f (x / m)) (f (x % m)) (inv.within (x % m) (mod_lt x))
        ∙ ap₂ (λ a b. a * m + b) (inv.twice (x / m) (div_lt x h)) (inv.twice (x % m) (mod_lt x))
        ∙ again x;
  }

two_bytes : IsInvolution (2 ^ 16) (half_swap (2 ^ 8))
two_bytes = half_swap-IsInvolution (2 ^ 8) base_8

four_bytes : IsInvolution (2 ^ 32) (turned (2 ^ 16) base_16 (half_swap (2 ^ 8)))
four_bytes = turned-IsInvolution (2 ^ 16) base_16 (half_swap (2 ^ 8)) two_bytes

two_halves : IsInvolution (2 ^ 32) (half_swap (2 ^ 16))
two_halves = half_swap-IsInvolution (2 ^ 16) base_16

eight_bytes : ℕ → ℕ
eight_bytes = turned (2 ^ 32) base_32 (turned (2 ^ 16) base_16 (half_swap (2 ^ 8)))

swap_long-eight_bytes : (n : ℕ) → n < 2 ^ 64 → swap_long n ≡ eight_bytes n
unfolding swap_long eight_bytes turned half_swap
swap_long-eight_bytes n h =
    let hi = base_32.div_lt n h in
    let lo = base_32.mod_lt n in
    ap (halves (2 ^ 32) (halves (2 ^ 16) (half_swap (2 ^ 8))))
      (halves-join (2 ^ 32) base_32 (half_swap (2 ^ 16)) (n % 2 ^ 32) (n / 2 ^ 32) hi)
    ∙ halves-join (2 ^ 32) base_32 (halves (2 ^ 16) (half_swap (2 ^ 8)))
        (half_swap (2 ^ 16) (n % 2 ^ 32)) (half_swap (2 ^ 16) (n / 2 ^ 32))
        (two_halves.within (n / 2 ^ 32) hi)
    ∙ sym (turned-digits (2 ^ 32) base_32 (turned (2 ^ 16) base_16 (half_swap (2 ^ 8))) n h)

all_bytes : IsInvolution (2 ^ 64) eight_bytes
unfolding eight_bytes
all_bytes =
    turned-IsInvolution (2 ^ 32) base_32 (turned (2 ^ 16) base_16 (half_swap (2 ^ 8))) four_bytes

-- Turning the bytes of a 64-bit number around twice gives the number back.
swap_long-swap_long : (n : ℕ) → n < 2 ^ 64 → (swap_long n < 2 ^ 64) × (swap_long (swap_long n) ≡ n)
swap_long-swap_long n h =
    let e = swap_long-eight_bytes n h in
    let lt = subst (λ z. z < 2 ^ 64) (sym e) (all_bytes.within n h) in
    (lt, swap_long-eight_bytes (swap_long n) lt ∙ ap eight_bytes e ∙ all_bytes.twice n h)

-- The hash has three 64-bit parts.
abbrev pub Fits : TigerHash → Type 0
Fits h = (h.part_a < 2 ^ 64) × (h.part_b < 2 ^ 64) × (h.part_c < 2 ^ 64)

-- Reading the text of a hash gives the hash back, in small letters and in capitals, if the
-- conversion gives a number for the 16 hexadecimal digits that are printed of it, and the parts of
-- the hash have 64 bits.
pub string_to_tiger-tiger_to_string :
    (lexical_cast : Bytes → ℕ) (h : TigerHash) (upcase : Bool)
    → ((n : ℕ) → n < 2 ^ 64 → lexical_cast (hex_text upcase 16 n) ≡ n)
    → Fits h
    → string_to_tiger lexical_cast (tiger_to_string h upcase) ≡ h
unfolding string_to_tiger tiger_to_string
string_to_tiger-tiger_to_string lexical_cast h upcase reads (fa, fb, fc) =
    ap₂ (λ a b. record { part_a = a; part_b = b; part_c = part h.part_c }) (part_back h.part_a fa)
      (part_back h.part_b fb)
    ∙ ap (λ c. record { part_a = h.part_a; part_b = h.part_b; part_c = c }) (part_back h.part_c fc)
  where
    part : ℕ → ℕ
    part n = swap_long (lexical_cast (hex_text upcase 16 (swap_long n)))

    part_back : (n : ℕ) → n < 2 ^ 64 → part n ≡ n
    part_back n f =
        let (lt, back) = swap_long-swap_long n f in ap swap_long (reads (swap_long n) lt) ∙ back
