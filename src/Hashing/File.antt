-- ===== src/Hashing/File.antt =====
-- src/machinery/tiger.cpp, tiger_file: the hash of a file and that of its directory, which takes the
-- file in. The content is a list of bytes. The functions of the copied tiger.c that hash whole blocks
-- of 64 bytes, and the end of the data with its real length and the program's padding byte, are
-- parameters.
use dindexer.Common.{
  ℕ, zero, suc, arith, ◌+◌, ◌-◌, ◌*◌, ◌/◌, ◌%◌, ◌<◌, ◌≤◌, ◌≡◌, ◌⊎◌, refl, ap, sym, ◌∙◌, subst, inl,
  inr, min, max, [], ◌∷◌, ◌++◌, Bytes, length, length-drop, length-take, take, take-nil, drop,
  drop-drop, ltb, ◌==◌, if◌then◌else◌, Bool-cases, ==→eq, ltb→lt,
}
use dindexer.RecordData.{TigerHash}
use dindexer.Hashing.{tiger_init_hash}

-- The block functions, with what the program relies on: hashing blocks one part after the other is
-- hashing them together.
pub record Blocks : Type 0 where
  pub chunk : Bytes → TigerHash → TigerHash
  pub last_chunk : Bytes → ℕ → TigerHash → TigerHash
  pub chunk_nil : (h : TigerHash) → chunk [] h ≡ h
  pub chunk_append :
      (a b : Bytes) (h : TigerHash) → length a % 64 ≡ 0 → chunk (a ++ b) h ≡ chunk b (chunk a h)

-- The hashes of the file and of the directory.
pub record Hashes : Type 0 where
  pub file : TigerHash
  pub dir : TigerHash

abbrev pub buff_size : ℕ
buff_size = 8192

abbrev pub hash_size : ℕ
hash_size = 64

abbrev pub used_buffsize : ℕ → ℕ
used_buffsize file_size = max hash_size (min file_size buff_size)

abbrev pub zeros : ℕ → Bytes
zeros zero = []
zeros (suc n) = 0 ∷ zeros n

abbrev pub dir_block : Bytes → Bytes
dir_block byte_data = byte_data ++ zeros (hash_size - length byte_data)

abbrev pub aligned : ℕ → ℕ
aligned n = n / 64 * 64

take_add : (a b : ℕ) (xs : Bytes) → take (a + b) xs ≡ take a xs ++ take b (drop a xs)
take_add zero b xs = ap (λ k. take k xs) (omega arith)
take_add (suc a) b [] = take-nil (suc a + b) ∙ sym (take-nil b)
take_add (suc a) b (x ∷ xs) =
    let e : suc a + b ≡ suc (a + b) = omega arith in rw e (ap (λ r. x ∷ r) (take_add a b xs))

aligned-sub : (b l : ℕ) → b % 64 ≡ 0 → b < l → aligned l ≡ b + aligned (l - b)
aligned-sub b l e lt = omega arith

length-take_all : (b : ℕ) (xs : Bytes) → b < length xs → length (take b xs) ≡ b
length-take_all b xs lt = omega (arith, length-take b xs)

aligned-drop :
    (b : ℕ) (xs : Bytes)
    → b % 64 ≡ 0
    → b < length xs
    → aligned (length xs) ≡ b + aligned (length (drop b xs))
aligned-drop b xs e lt = rw (length-drop b xs) (aligned-sub b (length xs) e lt)

drop-buffer :
    (b : ℕ) (xs : Bytes)
    → b % 64 ≡ 0
    → b < length xs
    → drop (aligned (length (drop b xs))) (drop b xs) ≡ drop (aligned (length xs)) xs
drop-buffer b xs e lt = rw (aligned-drop b xs e lt) (drop-drop (aligned (length (drop b xs))) b xs)

-- The buffer is filled with whole blocks, or the content fits in it.
IsWhole : ℕ → Bytes → Type 0
IsWhole b rest = ((b % 64 ≡ 0) × (0 < b)) ⊎ (length rest ≤ b)

buffers-Whole : (b : ℕ) (rest : Bytes) → IsWhole b rest → b < length rest → (b % 64 ≡ 0) × (0 < b)
unfolding IsWhole
buffers-Whole b rest (inl c) lt = c
buffers-Whole b rest (inr le) lt = absurd (omega arith)

still-Whole : (b : ℕ) (rest : Bytes) → IsWhole b rest → IsWhole b (drop b rest)
unfolding IsWhole
still-Whole b rest (inl c) = inl c
still-Whole b rest (inr le) = inr (omega (arith, length-drop b rest))

used-IsWhole : (content : Bytes) → IsWhole (used_buffsize (length content)) content
unfolding IsWhole
used-IsWhole content = elim (Bool-cases (ltb 8192 (length content))) [
  | inl e ↦ inl (ground arith, omega arith)
  | inr e ↦ inr (ground arith)
]

module _ (blocks : Blocks) where
  open blocks use {chunk, last_chunk, chunk_nil, chunk_append}

  abbrev pub both_chunks : Bytes → Hashes → Hashes
  both_chunks s h = record { file = chunk s h.file; dir = chunk s h.dir }

  -- The loop over whole buffers, and what is left of the content.
  pub read_buffers : ℕ → ℕ → Bytes → Hashes → Bytes × Hashes
  read_buffers buffsize zero rest h = (rest, h)
  read_buffers buffsize (suc fuel) rest h =
      let next =
        read_buffers buffsize fuel (drop buffsize rest) (both_chunks (take buffsize rest) h) in
      if ltb buffsize (length rest) then next else (rest, h)

  -- The rest: its whole blocks, if there are any, and its end, with the real lengths.
  pub hash_rest : ℕ → Bytes × Hashes → Hashes
  hash_rest file_size (rest, h) =
      let n = aligned (length rest) in
      let h' = if n == 0 then h else both_chunks (take n rest) h in
      record {
        file = last_chunk (drop n rest) file_size h'.file;
        dir = last_chunk (drop n rest) (file_size + hash_size) h'.dir;
      }

  -- The bytes of the hash of the directory so far, with zeros behind them, come first in its own hash.
  pub tiger_file : Bytes → Bytes → Hashes × ℕ
  unfolding read_buffers hash_rest
  tiger_file content byte_data = (
    hash_rest (length content) (
        read_buffers (used_buffsize (length content)) (length content) content
          (record { file = tiger_init_hash; dir = chunk (dir_block byte_data) tiger_init_hash })),
    length content,
  )

  -- The hashes, without buffers.
  abbrev pub whole : ℕ → Bytes → Hashes → Hashes
  whole file_size rest h =
      let n = aligned (length rest) in
      record {
        file = last_chunk (drop n rest) file_size (chunk (take n rest) h.file);
        dir = last_chunk (drop n rest) (file_size + hash_size) (chunk (take n rest) h.dir);
      }

  hash_rest-none :
      (n : ℕ) (rest : Bytes) (h : Hashes)
      → aligned (length rest) ≡ 0
      → record {
        file = last_chunk (drop (aligned (length rest)) rest) n h.file;
        dir = last_chunk (drop (aligned (length rest)) rest) (n + hash_size) h.dir;
      }
        ≡ whole n rest h
  hash_rest-none n rest h e = rw (e, chunk_nil h.file, chunk_nil h.dir) refl

  hash_rest-whole : (n : ℕ) (rest : Bytes) (h : Hashes) → hash_rest n (rest, h) ≡ whole n rest h
  unfolding hash_rest
  hash_rest-whole n rest h = elim (Bool-cases (aligned (length rest) == 0)) [
    | inl e ↦ rw (e) (hash_rest-none n rest h (==→eq _ _ e))
    | inr ne ↦ rw (ne) refl
  ]

  chunk-buffer :
      (b : ℕ) (rest : Bytes) (g : TigerHash)
      → b % 64 ≡ 0
      → b < length rest
      → chunk (take (aligned (length (drop b rest))) (drop b rest)) (chunk (take b rest) g)
        ≡ chunk (take (aligned (length rest)) rest) g
  chunk-buffer b rest g e lt =
      sym (
        chunk_append (take b rest) (take (aligned (length (drop b rest))) (drop b rest)) g
          (subst (λ k. k % 64 ≡ 0) (sym (length-take_all b rest lt)) e))
      ∙ ap (λ t. chunk t g)
          (sym (take_add b (aligned (length (drop b rest))) rest)
            ∙ ap (λ k. take k rest) (sym (aligned-drop b rest e lt)))

  whole-buffer :
      (n b : ℕ) (rest : Bytes) (h : Hashes)
      → b % 64 ≡ 0
      → b < length rest
      → whole n (drop b rest) (both_chunks (take b rest) h) ≡ whole n rest h
  whole-buffer n b rest h e lt =
      rw (chunk-buffer b rest h.file e lt, chunk-buffer b rest h.dir e lt, drop-buffer b rest e lt)
        refl

  read_buffers-whole :
      (n b fuel : ℕ) (rest : Bytes) (h : Hashes)
      → length rest ≤ fuel
      → IsWhole b rest
      → hash_rest n (read_buffers b fuel rest h) ≡ whole n rest h
  unfolding read_buffers
  read_buffers-whole n b zero rest h f c = hash_rest-whole n rest h
  read_buffers-whole n b (suc fuel) rest h f c = elim (Bool-cases (ltb b (length rest))) [
    | inr ne ↦ rw (ne) (hash_rest-whole n rest h)
    | inl e ↦ rw (e) (
        read_buffers-whole n b fuel (drop b rest) (both_chunks (take b rest) h)
          (omega (arith, length-drop b rest, buffers-Whole b rest c (ltb→lt b (length rest) e)))
          (still-Whole b rest c)
        ∙ whole-buffer n b rest h (buffers-Whole b rest c (ltb→lt b (length rest) e)).0
            (ltb→lt b (length rest) e))
  ]

  -- When the block functions can be called one part after the other, tiger_file gives for every
  -- content the hashes of all its whole blocks and of its end, with the real length, whatever the
  -- size of the buffer: the file's from the initial state, the directory's from its own block on.
  pub tiger_file-whole :
      (content byte_data : Bytes)
      → tiger_file content byte_data ≡ (
        whole
            (length content)
            content
            (record { file = tiger_init_hash; dir = chunk (dir_block byte_data) tiger_init_hash }),
        length content,
      )
  unfolding tiger_file
  tiger_file-whole content byte_data =
      ap (λ r. (r, length content))
        (read_buffers-whole (length content) (used_buffsize (length content)) (length content)
          content _ (omega arith) (used-IsWhole content))
