-- ===== src/FastHash/Table/Total.antt =====
-- fast_hash.h: the reads of fast_hash on a block of one of its two lengths.
use random_c_code_snippets_b.Prelude.{
  ℕ, zero, suc, ◌+◌, ◌*◌, ◌^◌, ◌≤◌, ◌<◌, ◌≡◌, refl, ◌⊎◌, inl, inr, arith, ◌∙◌, Option, none, some,
  List, length, ok, Returns,
}
use random_c_code_snippets_b.FastHash.{
  M128, Accs, aes_start, load_m128, aes_rounds, fast_hash_4096_aes, fast_hash_4096, fast_hash_words,
  fast_hash, finish, Lanes,
}
use random_c_code_snippets_b.FastHash.Mix.{fh_mix-lt}
use random_c_code_snippets_b.FastHash.Detect.{fh_load64_lem, word_at, fast_hash_words_lem}
use random_c_code_snippets_b.FastHash.Loops.{fast_hash_128-words, fast_hash-words}

load_m128_lem :
    (block : List ℕ) (p : ℕ)
    → p + 15 < length block
    → load_m128 block p ≡ ok (word_at block p, word_at block (p + 8))
unfolding load_m128
load_m128_lem block p h =
    rw (fh_load64_lem block p (omega arith), fh_load64_lem block (p + 8) (omega arith))

aes_rounds_returns :
    (aesenc : M128 → M128 → M128) (left i : ℕ) (block : List ℕ) (a : Accs)
    → i + left * 64 ≤ length block
    → Returns (aes_rounds aesenc left i block a) (λ _. ℕ)
unfolding aes_rounds
aes_rounds_returns aesenc zero i block a h = (a, refl, 0)
aes_rounds_returns aesenc (suc left) i block a h =
    rw
      (
        load_m128_lem block i (omega arith),
        load_m128_lem block (i + 16) (omega arith),
        load_m128_lem block (i + 32) (omega arith),
        load_m128_lem block (i + 48) (omega arith),
      )
      (aes_rounds_returns aesenc left (i + 64) block _ (omega arith))

finish-lt : (l : Lanes) (len : ℕ) → finish l len < 2 ^ 64
unfolding finish
finish-lt l len = fh_mix-lt _

aes_returns :
    (aesenc : M128 → M128 → M128) (block : List ℕ)
    → length block ≡ 4096
    → Returns (fast_hash_4096_aes aesenc block) (λ h. h < 2 ^ 64)
unfolding fast_hash_4096_aes
aes_returns aesenc block size =
    let a = aes_rounds_returns aesenc 64 0 block aes_start (omega arith) in
    rw a.1 (_, refl, fh_mix-lt _)

words_return :
    (block : List ℕ) (len : ℕ)
    → length block ≡ len
    → (len ≡ 128) ⊎ (len ≡ 4096)
    → Returns (fast_hash_words block len) (λ h. h < 2 ^ 64)
words_return block len size either = (
  _,
  fast_hash_words_lem block len (omega arith)
      (elim either [ inl e ↦ omega arith | inr e ↦ omega arith ]),
  finish-lt _ len,
)

-- With or without AES-NI, the hash of a block of 128 or 4096 bytes reads inside the block and
-- returns a 64-bit number.
pub fast_hash_returns :
    (aes : Option (M128 → M128 → M128)) (block : List ℕ) (len : ℕ)
    → length block ≡ len
    → (len ≡ 128) ⊎ (len ≡ 4096)
    → Returns (fast_hash aes block len) (λ h. h < 2 ^ 64)
unfolding fast_hash fast_hash_4096
fast_hash_returns none block len size either =
    rw (fast_hash-words block len either) (words_return block len size either)
fast_hash_returns (some aesenc) block len size (inl e) =
    rw (e, fast_hash_128-words block) (words_return block 128 (size ∙ e) (inl refl))
fast_hash_returns (some aesenc) block len size (inr e) = rw e (aes_returns aesenc block (size ∙ e))
