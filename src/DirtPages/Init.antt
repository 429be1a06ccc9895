-- ===== src/DirtPages/Init.antt =====
-- dirtPages.c, section 14: the table of sampling positions and the cost of a comparison.
-- `prandom` gives the values of the calls of `prandom_u32` in the loop of the shuffle, `jiffies` the
-- values of the reads of the clock, and the Boolean arguments say which allocations succeed.
pub mod Shuffle
pub mod Costs
use random_c_code_snippets_b.Prelude.{
  ℕ, zero, suc, ◌+◌, ◌-◌, ◌*◌, ◌/◌, ◌%◌, ◌^◌, List, [], Bool, true, false, ltb, if◌then◌else◌, Run,
  ok, fault, no_fuel, read, write, ◌>>=◌, replicate, set, get_or,
}
use random_c_code_snippets_b.Word.{u64, sub64}
use random_c_code_snippets_b.DirtPages.{Page, rshash_new, Uksm, hash_strength_full}
use random_c_code_snippets_b.DirtPages.Strength.{div64_u64}
use random_c_code_snippets_b.DirtPages.Hashing.{
  page_hash, pages_identical_with_cost, InitResult, success, enomem,
}

-- The loop that writes the identity, at `i` with `left` rounds to go.
unfoldable pub identity_rounds : ℕ → ℕ → List ℕ → Run (List ℕ)
identity_rounds zero i random_nums = ok random_nums
identity_rounds (suc left) i random_nums = do
  written ← write random_nums i i
  identity_rounds left (i + 1) written

-- The loop of the shuffle.
unfoldable pub shuffle_rounds : (ℕ → ℕ) → ℕ → ℕ → List ℕ → Run (List ℕ)
shuffle_rounds prandom zero i random_nums = ok random_nums
shuffle_rounds prandom (suc left) i random_nums = do
  let rand_range = hash_strength_full - i
  let swap_index = i + prandom i % rand_range
  tmp ← read random_nums i
  other ← read random_nums swap_index
  moved ← write random_nums i other
  swapped ← write moved swap_index tmp
  shuffle_rounds prandom left (i + 1) swapped

-- A page filled with the byte `byte`, and the same page with its last byte complemented.
abbrev pub filled_word : ℕ → ℕ
filled_word byte = byte * 0x01010101

unfoldable pub filled_page : ℕ → Page
filled_page byte = replicate hash_strength_full (filled_word byte)

unfoldable pub flipped_page : ℕ → Page
unfolding filled_page
flipped_page byte =
    set (filled_page byte) (hash_strength_full - 1)
      (filled_word byte % 2 ^ 24 + (255 - byte) * 2 ^ 24)

-- `for (i = 0; i < n; i++) hash = page_hash(p1, HASH_STRENGTH_FULL, 0);`
unfoldable pub hash_repeat : ℕ → Page → Uksm → Run (Unit {0})
hash_repeat zero page u = ok tt
hash_repeat (suc n) page u = do
  (_, hash) ← page_hash page hash_strength_full false u
  hash_repeat n page u

unfoldable pub compare_repeat : ℕ → Page → Page → Uksm → Run (Unit {0})
compare_repeat zero page1 page2 u = ok tt
compare_repeat (suc n) page1 page2 u = do
  ret ← pages_identical_with_cost page1 page2 u
  compare_repeat n page1 page2 u

-- The timed `while` with at most `fuel` rounds; `k` counts the reads of the clock.
unfoldable pub timed_rounds : (ℕ → ℕ) → ℕ → ℕ → ℕ → ℕ → Page → Uksm → Run (ℕ × ℕ)
timed_rounds jiffies zero time_start k loopnum page u = fault no_fuel
timed_rounds jiffies (suc fuel) time_start k loopnum page u =
    let rest = (do
      _ ← hash_repeat 100 page u
      timed_rounds jiffies fuel time_start (k + 1) (u64 (loopnum + 100)) page u) in
    if ltb (sub64 (jiffies k) time_start) 100 then rest else ok (k + 1, loopnum)

unfoldable pub cal_positive_negative_costs :
    Bool → Bool → ℕ → (ℕ → ℕ) → ℕ → Uksm → Run (Uksm × InitResult)
cal_positive_negative_costs p1_ok p2_ok random jiffies fuel u =
    if p1_ok
    then if p2_ok
      then (do
        let byte = random % 256
        let p1 = filled_page byte
        let p2 = flipped_page byte
        (k, loopnum) ← timed_rounds jiffies fuel (jiffies 0) 1 0 p1 u
        let hash_cost = sub64 (jiffies k) (jiffies 0)
        let time_start = jiffies (k + 1)
        _ ← compare_repeat loopnum p1 p2 u
        cost ← div64_u64 (u64 (hash_strength_full * sub64 (jiffies (k + 2)) time_start)) hash_cost
        ok (record u { memcmp_cost = cost }, success))
      else ok (u, enomem)
    else ok (u, enomem)

-- What the machine does for `init_random_sampling`: which allocations succeed, the contents of the
-- memory that `kmalloc` returns, the random values, the clock, and a bound on the timed rounds.
pub record Boot : Type 0 where
  pub table_ok : Bool
  pub p1_ok : Bool
  pub p2_ok : Bool
  pub memory : List ℕ
  pub prandom : ℕ → ℕ
  pub random : ℕ
  pub jiffies : ℕ → ℕ
  pub fuel : ℕ

-- The stores of `init_random_sampling` behind the shuffle.
abbrev pub seeded : Uksm → List ℕ → Uksm
seeded u shuffled = record u {
  random_nums = shuffled;
  rshash_state = record u.rshash_state {
    state = rshash_new;
    below_count = 0;
    lookup_window_index = 0;
  };
}

unfoldable pub init_random_sampling : Boot → Uksm → Run (Uksm × InitResult)
init_random_sampling boot u =
    if boot.table_ok
    then (do
      identity ← identity_rounds hash_strength_full 0 boot.memory
      shuffled ← shuffle_rounds boot.prandom hash_strength_full 0 identity
      cal_positive_negative_costs boot.p1_ok boot.p2_ok boot.random boot.jiffies boot.fuel
          (seeded u shuffled))
    else ok (record u { random_nums = [] }, enomem)
