-- ===== src/FastHash/Demo.antt =====
-- hashalg.c: `fill_pattern` and `main`. Each buffer starts with the bytes that its memory happens to
-- have. What `main` prints is its result.
pub mod Answers
use random_c_code_snippets_b.Prelude.{
  ℕ, ◌+◌, ◌*◌, List, Bool, bit_xor, ◌==◌, Run, ok, read, write, ◌>>=◌, write_rounds,
}
use random_c_code_snippets_b.Word.{u8}
use random_c_code_snippets_b.FastHash.{fast_hash_words}

-- `(uint8_t)(seed + i * 31)`
abbrev pub pattern_byte : ℕ → ℕ → ℕ
pattern_byte seed i = u8 (seed + i * 31)

unfoldable pub fill_pattern : List ℕ → ℕ → ℕ → Run (List ℕ)
fill_pattern buf n seed = write_rounds (λ i. ok (pattern_byte seed i)) n 0 0 buf

-- `buf[2000] ^= 0x01`
unfoldable pub flip_bit : List ℕ → Run (List ℕ)
flip_bit buf = do byte ← read buf 2000; write buf 2000 (bit_xor byte 1)

-- The three hashes that are printed, and the answers to `same buffer rehashed twice match?` and
-- `one-bit-different buffers match?`.
pub record Printed : Type 0 where
  pub h128 : ℕ
  pub h4k_a : ℕ
  pub h4k_b : ℕ
  pub rehashed_match : Bool
  pub different_match : Bool

unfoldable pub hashalg_main : List ℕ → List ℕ → List ℕ → Run Printed
hashalg_main block128 block4k block4k_b = do
  filled128 ← fill_pattern block128 128 0xA5
  filled4k ← fill_pattern block4k 4096 0x11
  filled4k_b ← fill_pattern block4k_b 4096 0x11
  flipped4k_b ← flip_bit filled4k_b
  h128 ← fast_hash_words filled128 128
  h4k_a ← fast_hash_words filled4k 4096
  h4k_b ← fast_hash_words flipped4k_b 4096
  again ← fast_hash_words filled4k 4096
  ok (record {
    h128 = h128;
    h4k_a = h4k_a;
    h4k_b = h4k_b;
    rehashed_match = h4k_a == again;
    different_match = h4k_a == h4k_b;
  })
