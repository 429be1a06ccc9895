-- ===== src/DirtPages/Sample.antt =====
-- dirtPages.c, section 6 and the hash macros of section 2: the hash of a page over the words that
-- `random_nums` selects, and its update to another strength.
pub mod Mix
pub mod Positions
pub mod Delta
pub mod Detect
use random_c_code_snippets_b.Prelude.{
  ℕ, zero, suc, ◌+◌, ◌-◌, ◌*◌, ◌^◌, List, ltb, leb, if◌then◌else◌, Run, ok, read, ◌>>=◌,
}
use random_c_code_snippets_b.Word.{u32, sub32, xor_shift}
use random_c_code_snippets_b.DirtPages.{Page, hash_strength_full, shiftl, shiftr}

-- The body of HASH_FROM_TO for the word `k`.
unfoldable pub mix : ℕ → ℕ → ℕ
mix hash k =
    let added = u32 (hash + k) in
    let spread = u32 (added + u32 (added * 2 ^ shiftl)) in xor_shift shiftr spread

-- The body of HASH_FROM_DOWN_TO for the word `k`.
unfoldable pub unmix : ℕ → ℕ → ℕ
unmix hash k =
    let spread = xor_shift (shiftr * 2) (xor_shift shiftr hash) in
    let folded = sub32 spread (u32 (spread * 2 ^ shiftl)) in
    let added = u32 (folded + u32 (folded * 2 ^ (shiftl * 2))) in sub32 added k

module _ (random_nums : List ℕ) (key : Page) where
  -- HASH_FROM_TO at `index`, with `left` rounds to go.
  unfoldable pub hash_rounds : ℕ → ℕ → ℕ → Run ℕ
  hash_rounds zero index hash = ok hash
  hash_rounds (suc left) index hash = do
    pos ← read random_nums index
    k ← read key pos
    hash_rounds left (index + 1) (mix hash k)

  -- HASH_FROM_DOWN_TO with `left` rounds to go, at the index `to + left - 1`.
  unfoldable pub unhash_rounds : ℕ → ℕ → ℕ → Run ℕ
  unhash_rounds zero to hash = ok hash
  unhash_rounds (suc left) to hash = do
    pos ← read random_nums (to + left)
    k ← read key pos
    unhash_rounds left to (unmix hash k)

  unfoldable pub hash_from_to : ℕ → ℕ → ℕ → Run ℕ
  hash_from_to from to hash = hash_rounds (to - from) from hash

  unfoldable pub hash_from_down_to : ℕ → ℕ → ℕ → Run ℕ
  hash_from_down_to from to hash = unhash_rounds (from - to) to hash

  unfoldable pub random_sample_hash : ℕ → Run ℕ
  random_sample_hash hash_strength = do
    let loop = if ltb hash_strength_full hash_strength then hash_strength_full else hash_strength
    hash ← hash_from_to 0 loop 0xdeadbeef
    (if ltb hash_strength_full hash_strength
        then hash_from_to 0 (hash_strength - hash_strength_full) hash
        else ok hash)

  unfoldable pub delta_hash : ℕ → ℕ → ℕ → Run ℕ
  delta_hash from to hash =
      if ltb from to
      then if leb hash_strength_full from
        then hash_from_to (from - hash_strength_full) (to - hash_strength_full) hash
        else if leb to hash_strength_full
        then hash_from_to from to hash
        else (do
          upper ← hash_from_to from hash_strength_full hash
          hash_from_to 0 (to - hash_strength_full) upper)
      else if leb from hash_strength_full
      then hash_from_down_to from to hash
      else if leb hash_strength_full to
      then hash_from_down_to (from - hash_strength_full) (to - hash_strength_full) hash
      else (do
        lower ← hash_from_down_to (from - hash_strength_full) 0 hash
        hash_from_down_to hash_strength_full to lower)
