-- ===== src/FastHash.antt =====
-- hashalg.c, and the hash functions of fast_hash.h (fast_hash.c is the same text): a 64-bit hash of
-- blocks of 128 and of 4096 bytes. A block is the list of its bytes, on a little-endian machine.
pub mod Mix
pub mod Detect
pub mod Bytes
pub mod OneWord
pub mod Table
pub mod Loops
pub mod Demo
use random_c_code_snippets_b.Prelude.{
  ℕ, zero, suc, ◌+◌, ◌*◌, ◌/◌, ◌^◌, List, bit_xor, ◌==◌, if◌then◌else◌, Option, none, some, Run, ok,
  read, ◌>>=◌,
}
use random_c_code_snippets_b.Word.{u64, xor_shift}

abbrev pub fh_k1 : ℕ
fh_k1 = 0x9E3779B97F4A7C15

abbrev pub fh_k2 : ℕ
fh_k2 = 0xBF58476D1CE4E5B9

abbrev pub fh_k3 : ℕ
fh_k3 = 0x94D049BB133111EB

-- The eight bytes from `p` on, the lowest first.
unfoldable pub fh_load64 : List ℕ → ℕ → Run ℕ
fh_load64 block p = do
  b0 ← read block p
  b1 ← read block (p + 1)
  b2 ← read block (p + 2)
  b3 ← read block (p + 3)
  b4 ← read block (p + 4)
  b5 ← read block (p + 5)
  b6 ← read block (p + 6)
  b7 ← read block (p + 7)
  ok (
      b0
      + b1 * 2 ^ 8
      + b2 * 2 ^ 16
      + b3 * 2 ^ 24
      + b4 * 2 ^ 32
      + b5 * 2 ^ 40
      + b6 * 2 ^ 48
      + b7 * 2 ^ 56)

unfoldable pub fh_mix : ℕ → ℕ
fh_mix h =
    let a = xor_shift 33 h in
    let b = xor_shift 29 (u64 (a * fh_k2)) in xor_shift 32 (u64 (b * fh_k3))

-- `(lane ^ word) * k`
unfoldable pub lane_step : ℕ → ℕ → ℕ → ℕ
lane_step lane word k = u64 (bit_xor lane word * k)

pub record Lanes : Type 0 where
  pub h0 : ℕ
  pub h1 : ℕ
  pub h2 : ℕ
  pub h3 : ℕ

abbrev pub start_lanes : Lanes
start_lanes = record { h0 = fh_k1; h1 = fh_k2; h2 = fh_k3; h3 = bit_xor fh_k1 fh_k2 }

-- The words of one round go into the four lanes.
unfoldable pub lanes_step : Lanes → ℕ → ℕ → ℕ → ℕ → Lanes
lanes_step l w0 w1 w2 w3 = record {
  h0 = lane_step l.h0 w0 fh_k1;
  h1 = lane_step l.h1 w1 fh_k2;
  h2 = lane_step l.h2 w2 fh_k3;
  h3 = lane_step l.h3 w3 fh_k1;
}

-- The end of all the hash functions.
unfoldable pub finish : Lanes → ℕ → ℕ
finish l len =
    let a = bit_xor (u64 (l.h0 * fh_k1)) l.h1 in
    let b = bit_xor (u64 (a * fh_k2)) l.h2 in
    let c = bit_xor (u64 (b * fh_k3)) l.h3 in fh_mix (bit_xor c len)

-- hashalg.c: the loop at the word `i`, with `left` rounds of four words to go.
unfoldable pub word_rounds : ℕ → ℕ → List ℕ → Lanes → Run Lanes
word_rounds zero i block l = ok l
word_rounds (suc left) i block l = do
  w0 ← fh_load64 block ((i + 0) * 8)
  w1 ← fh_load64 block ((i + 1) * 8)
  w2 ← fh_load64 block ((i + 2) * 8)
  w3 ← fh_load64 block ((i + 3) * 8)
  word_rounds left (i + 4) block (lanes_step l w0 w1 w2 w3)

-- hashalg.c: `for (i = 0; i < words; i += 4)` makes `(words + 3) / 4` rounds.
unfoldable pub fast_hash_words : List ℕ → ℕ → Run ℕ
fast_hash_words block len = do
  l ← word_rounds ((len / 8 + 3) / 4) 0 block start_lanes
  ok (finish l len)

-- fast_hash.h: the macro STEP.
unfoldable pub step : List ℕ → ℕ → ℕ → ℕ → Run ℕ
step block n lane k = do word ← fh_load64 block (n * 8); ok (lane_step lane word k)

unfoldable pub fast_hash_128 : List ℕ → Run ℕ
unfolding step
fast_hash_128 block = do
  a0 ← step block 0 fh_k1 fh_k1
  a1 ← step block 1 fh_k2 fh_k2
  a2 ← step block 2 fh_k3 fh_k3
  a3 ← step block 3 (bit_xor fh_k1 fh_k2) fh_k1
  b0 ← step block 4 a0 fh_k1
  b1 ← step block 5 a1 fh_k2
  b2 ← step block 6 a2 fh_k3
  b3 ← step block 7 a3 fh_k1
  c0 ← step block 8 b0 fh_k1
  c1 ← step block 9 b1 fh_k2
  c2 ← step block 10 b2 fh_k3
  c3 ← step block 11 b3 fh_k1
  d0 ← step block 12 c0 fh_k1
  d1 ← step block 13 c1 fh_k2
  d2 ← step block 14 c2 fh_k3
  d3 ← step block 15 c3 fh_k1
  ok (finish (record { h0 = d0; h1 = d1; h2 = d2; h3 = d3 }) 128)

-- fast_hash.h: the loop of the 4096-byte path at the byte `i`, with `left` rounds of 32 bytes to go.
unfoldable pub byte_rounds : ℕ → ℕ → List ℕ → Lanes → Run Lanes
byte_rounds zero i block l = ok l
byte_rounds (suc left) i block l = do
  w0 ← fh_load64 block (i + 0)
  w1 ← fh_load64 block (i + 8)
  w2 ← fh_load64 block (i + 16)
  w3 ← fh_load64 block (i + 24)
  byte_rounds left (i + 32) block (lanes_step l w0 w1 w2 w3)

unfoldable pub fast_hash_4096_scalar : List ℕ → Run ℕ
fast_hash_4096_scalar block = do l ← byte_rounds (4096 / 32) 0 block start_lanes; ok (finish l 4096)

-- A `__m128i` as its low and its high 64 bits.
abbrev pub M128 : Type 0
M128 = ℕ × ℕ

abbrev xor_m128 : M128 → M128 → M128
xor_m128 a b = (bit_xor a.0 b.0, bit_xor a.1 b.1)

-- `_mm_loadu_si128`
unfoldable pub load_m128 : List ℕ → ℕ → Run M128
load_m128 block p = do low ← fh_load64 block p; high ← fh_load64 block (p + 8); ok (low, high)

pub record Accs : Type 0 where
  pub acc0 : M128
  pub acc1 : M128
  pub acc2 : M128
  pub acc3 : M128

abbrev pub aes_start : Accs
aes_start = record {
  acc0 = (fh_k1, fh_k1);
  acc1 = (fh_k2, fh_k2);
  acc2 = (fh_k3, fh_k3);
  acc3 = (bit_xor fh_k1 fh_k2, bit_xor fh_k1 fh_k2);
}

-- `aesenc` is the processor's `_mm_aesenc_si128`, which the sources call and do not define.
module _ (aesenc : M128 → M128 → M128) where
  abbrev aes_key : M128
  aes_key = (fh_k2, fh_k1)

  -- The loop at the byte `i`, with `left` rounds of 64 bytes to go.
  unfoldable pub aes_rounds : ℕ → ℕ → List ℕ → Accs → Run Accs
  aes_rounds zero i block a = ok a
  aes_rounds (suc left) i block a = do
    d0 ← load_m128 block i
    d1 ← load_m128 block (i + 16)
    d2 ← load_m128 block (i + 32)
    d3 ← load_m128 block (i + 48)
    aes_rounds left (i + 64) block (record {
      acc0 = aesenc (xor_m128 a.acc0 d0) aes_key;
      acc1 = aesenc (xor_m128 a.acc1 d1) aes_key;
      acc2 = aesenc (xor_m128 a.acc2 d2) aes_key;
      acc3 = aesenc (xor_m128 a.acc3 d3) aes_key;
    })

  unfoldable pub fast_hash_4096_aes : List ℕ → Run ℕ
  fast_hash_4096_aes block = do
    a ← aes_rounds (4096 / 64) 0 block aes_start
    let left = aesenc (xor_m128 a.acc0 a.acc1) aes_key
    let right = aesenc (xor_m128 a.acc2 a.acc3) aes_key
    let out = aesenc (xor_m128 left right) aes_key
    ok (fh_mix (bit_xor (bit_xor out.0 out.1) 4096))

-- `none` is a build without AES-NI.
unfoldable pub fast_hash_4096 : Option (M128 → M128 → M128) → List ℕ → Run ℕ
fast_hash_4096 none block = fast_hash_4096_scalar block
fast_hash_4096 (some aesenc) block = fast_hash_4096_aes aesenc block

unfoldable pub fast_hash : Option (M128 → M128 → M128) → List ℕ → ℕ → Run ℕ
fast_hash aes block len = if len == 128 then fast_hash_128 block else fast_hash_4096 aes block
