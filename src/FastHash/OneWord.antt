-- ===== src/FastHash/OneWord.antt =====
-- hashalg.c: the hashes of two blocks that differ in one word.
use random_c_code_snippets_b.Prelude.{
  ℕ, ◌+◌, ◌*◌, ◌/◌, ◌%◌, ◌^◌, ◌<◌, ◌≡◌, ◌≢◌, refl, arith, bit_xor, List, get_or, ◌⊎◌, inl, inr,
  dec_lt, Returns,
}
use random_c_code_snippets_b.Bits.{bit_xor-lt}
use random_c_code_snippets_b.FastHash.{
  fh_k1, fh_k2, fh_k3, Lanes, start_lanes, finish, fast_hash_words,
}
use random_c_code_snippets_b.FastHash.Mix.{
  k1_IsUndone, k2_IsUndone, k3_IsUndone, gathered, IsLanes, first_lane, second_lane, third_lane,
  last_lane, finish_injective,
}
use random_c_code_snippets_b.FastHash.Bytes.{word_bytes}
use random_c_code_snippets_b.FastHash.Detect.{
  Differ, word_at, lanes, fast_hash_words_lem, lane_agree, lane_differ, lane-lt,
}

fourth-lt : bit_xor fh_k1 fh_k2 < 2 ^ 64
fourth-lt = bit_xor-lt 64 fh_k1 fh_k2 (omega arith) (omega arith)

abbrev ends : ℕ → List ℕ → Lanes
ends rounds block = lanes rounds 0 8 16 24 block start_lanes

ends-IsLanes : (rounds : ℕ) (block : List ℕ) → IsLanes (ends rounds block)
ends-IsLanes rounds block = record {
  h0-lt = lane-lt fh_k1 rounds 0 block fh_k1 (omega arith);
  h1-lt = lane-lt fh_k2 rounds 8 block fh_k2 (omega arith);
  h2-lt = lane-lt fh_k3 rounds 16 block fh_k3 (omega arith);
  h3-lt = lane-lt fh_k1 rounds 24 block (bit_xor fh_k1 fh_k2) fourth-lt;
}

module _ {block block' : List ℕ} {len m : ℕ} (d : Differ block block' len m) (aligned : m % 8 ≡ 0)
    (rounds : ℕ) (inside : m < rounds * 32)
    (e : gathered (ends rounds block) ≡ gathered (ends rounds block')) where
  -- What is gathered from the blocks tells the words at `m` apart, in whichever lane it is.
  gathered_word :
      (m % 32 ≡ 0) ⊎ ((m % 32 ≡ 8) ⊎ ((m % 32 ≡ 16) ⊎ (m % 32 ≡ 24)))
      → word_at block m ≡ word_at block' m
  gathered_word at =
      let one = lane_agree d aligned fh_k1 _ k1_IsUndone rounds in
      let two = lane_agree d aligned fh_k2 _ k2_IsUndone rounds in
      let three = lane_agree d aligned fh_k3 _ k3_IsUndone rounds in
      let v = ends-IsLanes rounds block in
      let v' = ends-IsLanes rounds block' in
      elim at [
        | inl c ↦
            lane_differ d aligned fh_k1 _ k1_IsUndone rounds 0 fh_k1 refl c (omega arith)
              (omega arith) (omega arith)
              (first_lane v v' e (two 8 fh_k2 refl (inl (λ x. omega arith)))
                (three 16 fh_k3 refl (inl (λ x. omega arith)))
                (one 24 _ refl (inl (λ x. omega arith))))
        | inr (inl c) ↦
            lane_differ d aligned fh_k2 _ k2_IsUndone rounds 8 fh_k2 refl c (omega arith)
              (omega arith) (omega arith)
              (second_lane v v' e (one 0 fh_k1 refl (inl (λ x. omega arith)))
                (three 16 fh_k3 refl (inl (λ x. omega arith)))
                (one 24 _ refl (inl (λ x. omega arith))))
        | inr (inr (inl c)) ↦
            lane_differ d aligned fh_k3 _ k3_IsUndone rounds 16 fh_k3 refl c (omega arith)
              (omega arith) (omega arith)
              (third_lane v v' e (one 0 fh_k1 refl (inl (λ x. omega arith)))
                (two 8 fh_k2 refl (inl (λ x. omega arith)))
                (one 24 _ refl (inl (λ x. omega arith))))
        | inr (inr (inr c)) ↦
            lane_differ d aligned fh_k1 _ k1_IsUndone rounds 24 (bit_xor fh_k1 fh_k2) refl c
              (omega arith) (omega arith) fourth-lt
              (last_lane v v' e (one 0 fh_k1 refl (inl (λ x. omega arith)))
                (two 8 fh_k2 refl (inl (λ x. omega arith)))
                (three 16 fh_k3 refl (inl (λ x. omega arith))))
      ]

lane_cases : (m : ℕ) → m % 8 ≡ 0 → (m % 32 ≡ 0) ⊎ ((m % 32 ≡ 8) ⊎ ((m % 32 ≡ 16) ⊎ (m % 32 ≡ 24)))
lane_cases m e = elim (dec_lt (m % 32) 8) [
  | yes a ↦ inl (omega arith)
  | no a ↦ elim (dec_lt (m % 32) 16) [
    | yes b ↦ inr (inl (omega arith))
    | no b ↦ elim (dec_lt (m % 32) 24) [
      | yes c ↦ inr (inr (inl (omega arith)))
      | no c ↦ inr (inr (inr (omega arith)))
    ]
  ]
]

-- Two blocks of bytes of one length, a multiple of 32 below 2 ^ 64, that agree outside one aligned
-- 8-byte word and not in it both have a hash, and the hashes differ: a change of one word, and so a
-- flip of any bits of one byte, always changes the hash.
pub fast_hash_words-Differ :
    {block block' : List ℕ} {len m : ℕ}
    → Differ block block' len m
    → m % 8 ≡ 0
    → m < len
    → len % 32 ≡ 0
    → len < 2 ^ 64
    → (i : ℕ) → get_or block i 0 ≢ get_or block' i 0
    → Returns (fast_hash_words block len) λ h. Returns (fast_hash_words block' len) λ h'. h ≢ h'
fast_hash_words-Differ {block} {block'} {len} {m} d aligned inside even small i differ =
    let rounds = (len / 8 + 3) / 4 in
    let differ' : finish (ends rounds block) len ≢ finish (ends rounds block') len = λ same.
      differ (
        word_bytes d aligned
          (gathered_word d aligned rounds (omega arith)
            (finish_injective (ends rounds block) (ends rounds block') len
              (ends-IsLanes rounds block).h3-lt (ends-IsLanes rounds block').h3-lt small same)
            (lane_cases m aligned))
          i) in
    (
      _,
      fast_hash_words_lem block len (omega (arith, d.left_block.size)) even,
      (_, fast_hash_words_lem block' len (omega (arith, d.right_block.size)) even, differ'),
    )
