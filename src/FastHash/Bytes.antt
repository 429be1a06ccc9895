-- ===== src/FastHash/Bytes.antt =====
-- hashalg.c: the words of a block and its bytes.
use random_c_code_snippets_b.Prelude.{
  ℕ, zero, suc, ◌+◌, ◌-◌, ◌/◌, ◌%◌, ◌<◌, ◌≡◌, ◌*◌, ◌^◌, arith, List, get_or, ℕ_discrete,
}
use random_c_code_snippets_b.FastHash.Detect.{IsBlock, Differ, word_at}

-- Words of eight bytes each are equal only if the bytes are.
bytes_of_word :
    (x0 x1 x2 x3 x4 x5 x6 x7 y0 y1 y2 y3 y4 y5 y6 y7 : ℕ)
    → x0 < 2 ^ 8
    → x1 < 2 ^ 8
    → x2 < 2 ^ 8
    → x3 < 2 ^ 8
    → x4 < 2 ^ 8
    → x5 < 2 ^ 8
    → x6 < 2 ^ 8
    → x7 < 2 ^ 8
    → y0 < 2 ^ 8
    → y1 < 2 ^ 8
    → y2 < 2 ^ 8
    → y3 < 2 ^ 8
    → y4 < 2 ^ 8
    → y5 < 2 ^ 8
    → y6 < 2 ^ 8
    → y7 < 2 ^ 8
    → x0
        + x1 * 2 ^ 8
        + x2 * 2 ^ 16
        + x3 * 2 ^ 24
        + x4 * 2 ^ 32
        + x5 * 2 ^ 40
        + x6 * 2 ^ 48
        + x7 * 2 ^ 56
      ≡ y0
        + y1 * 2 ^ 8
        + y2 * 2 ^ 16
        + y3 * 2 ^ 24
        + y4 * 2 ^ 32
        + y5 * 2 ^ 40
        + y6 * 2 ^ 48
        + y7 * 2 ^ 56
    → (x0 ≡ y0) × (x1 ≡ y1) × (x2 ≡ y2) × (x3 ≡ y3) × (x4 ≡ y4) × (x5 ≡ y5) × (x6 ≡ y6) × (x7 ≡ y7)
bytes_of_word x0 x1 x2 x3 x4 x5 x6 x7 y0 y1 y2 y3 y4 y5 y6 y7 a0 a1 a2 a3 a4 a5 a6 a7 b0 b1 b2 b3 b4
      b5 b6 b7 e =
    (
      omega arith,
      omega arith,
      omega arith,
      omega arith,
      omega arith,
      omega arith,
      omega arith,
      omega arith,
    )

-- The same for two words of two blocks.
module _ {block block' : List ℕ} {len : ℕ} (b : IsBlock block len) (b' : IsBlock block' len) (m : ℕ)
    (e : word_at block m ≡ word_at block' m) where
  bytes :
      (get_or block m 0 ≡ get_or block' m 0)
      × (get_or block (m + 1) 0 ≡ get_or block' (m + 1) 0)
      × (get_or block (m + 2) 0 ≡ get_or block' (m + 2) 0)
      × (get_or block (m + 3) 0 ≡ get_or block' (m + 3) 0)
      × (get_or block (m + 4) 0 ≡ get_or block' (m + 4) 0)
      × (get_or block (m + 5) 0 ≡ get_or block' (m + 5) 0)
      × (get_or block (m + 6) 0 ≡ get_or block' (m + 6) 0)
      × (get_or block (m + 7) 0 ≡ get_or block' (m + 7) 0)
  bytes =
      bytes_of_word _ _ _ _ _ _ _ _ _ _ _ _ _ _ _ _ (b.bytes m) (b.bytes (m + 1)) (b.bytes (m + 2))
        (b.bytes (m + 3)) (b.bytes (m + 4)) (b.bytes (m + 5)) (b.bytes (m + 6)) (b.bytes (m + 7))
        (b'.bytes m) (b'.bytes (m + 1)) (b'.bytes (m + 2)) (b'.bytes (m + 3)) (b'.bytes (m + 4))
        (b'.bytes (m + 5)) (b'.bytes (m + 6)) (b'.bytes (m + 7)) e

  word_byte : (r : ℕ) → r < 8 → get_or block (m + r) 0 ≡ get_or block' (m + r) 0
  word_byte zero h = let first : m ≡ m + 0 = omega arith in rw (← first) bytes.0
  word_byte (suc zero) h = bytes.1
  word_byte (suc (suc zero)) h = bytes.2
  word_byte (suc (suc (suc zero))) h = bytes.3
  word_byte (suc (suc (suc (suc zero)))) h = bytes.4
  word_byte (suc (suc (suc (suc (suc zero))))) h = bytes.5
  word_byte (suc (suc (suc (suc (suc (suc zero)))))) h = bytes.6
  word_byte (suc (suc (suc (suc (suc (suc (suc zero))))))) h = bytes.7
  word_byte (suc (suc (suc (suc (suc (suc (suc (suc r)))))))) h = absurd (omega arith)

pub word_bytes :
    {block block' : List ℕ} {len m : ℕ}
    → Differ block block' len m
    → m % 8 ≡ 0
    → word_at block m ≡ word_at block' m
    → (i : ℕ) → get_or block i 0 ≡ get_or block' i 0
word_bytes {block} {block'} {len} {m} d aligned e i = elim (ℕ_discrete (i / 8) (m / 8)) [
  | no away ↦ d.rest i away
  | yes here ↦
      let at_i : m + (i - m) ≡ i = omega arith in
      rw at_i at (word_byte d.left_block d.right_block m e (i - m) (omega arith))
]
