-- ===== src/Tests/Setup.antt =====
-- Examples of `init_random_sampling` of dirtPages.c.
use random_c_code_snippets_b.Prelude.{
  ℕ, ◌+◌, ◌*◌, min, ◌≡◌, refl, arith, true, Returns, ◌>>=◌, List, replicate, length,
  length-replicate,
}
use random_c_code_snippets_b.DirtPages.{rshash_new, rshash_still, hash_strength_full}
use random_c_code_snippets_b.DirtPages.Hashing.{success}
use random_c_code_snippets_b.DirtPages.Init.{
  identity_rounds, shuffle_rounds, Boot, init_random_sampling,
}
use random_c_code_snippets_b.DirtPages.Init.Shuffle.{IsPermutation, shuffle-IsPermutation}
use random_c_code_snippets_b.DirtPages.Init.Costs.{IsClock, init_random_sampling_lem}
use random_c_code_snippets_b.Tests.{busy}

abbrev prandom : ℕ → ℕ
prandom i = i * 7919 + 13

-- The memory that `kmalloc` returns is not cleared.
unfoldable memory : List ℕ
memory = replicate hash_strength_full 99

length-memory : length memory ≡ hash_strength_full
unfolding memory
length-memory = length-replicate {A = ℕ} hash_strength_full 99

shuffle-IsPermutation_example :
    Returns
      (identity_rounds hash_strength_full 0 memory >>= shuffle_rounds prandom hash_strength_full 0)
      IsPermutation
shuffle-IsPermutation_example = shuffle-IsPermutation prandom memory length-memory

-- A clock that goes ten ticks from read to read, and stops.
abbrev ticks : ℕ → ℕ
ticks k = min (k * 10) 1000

abbrev boot : Boot
boot = record {
  table_ok = true;
  p1_ok = true;
  p2_ok = true;
  memory = memory;
  prandom = prandom;
  random = 0x1234;
  jiffies = ticks;
  fuel = 11;
}

ticks-IsClock : IsClock ticks 11
ticks-IsClock = record {
  words = λ k. omega arith;
  forward = λ j k h. omega arith;
  running = omega arith;
  enough = omega arith;
}

init_random_sampling_lem_example : Returns (init_random_sampling boot (busy rshash_still)) λ r.
    (r.1 ≡ success)
    × IsPermutation r.0.random_nums
    × (r.0.rshash_state.state ≡ rshash_new)
    × (r.0.rshash_state.below_count ≡ 0)
    × (r.0.rshash_state.lookup_window_index ≡ 0)
init_random_sampling_lem_example =
    init_random_sampling_lem boot (busy rshash_still) refl refl refl length-memory ticks-IsClock
