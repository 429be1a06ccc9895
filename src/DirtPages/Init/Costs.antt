-- ===== src/DirtPages/Init/Costs.antt =====
-- dirtPages.c, section 14: the end of `cal_positive_negative_costs` and the state
-- that `init_random_sampling` leaves.
use Prim.Native.Nat.{Ordering}
use random_c_code_snippets_b.Prelude.{
  ℕ, zero, suc, ◌+◌, ◌-◌, ◌*◌, ◌/◌, ◌%◌, ◌^◌, ◌≤◌, ◌<◌, ◌≡◌, ◌≢◌, ◌↔◌, refl, sym, ap, ◌∙◌, arith,
  true, false, ltb, length, get_or, get_or-set_self, replicate, length-replicate,
  get_or-replicate_inside, get_or-beyond, dec_lt, ok, Returns, ◌==◌, bind-bind_ok, eq-false,
  Bool-cases, inl, inr,
}
use random_c_code_snippets_b.Word.{u64, sub64}
use random_c_code_snippets_b.DirtPages.{Page, Uksm, rshash_new, hash_strength_full}
use random_c_code_snippets_b.DirtPages.Sample.Positions.{IsTable, IsPage}
use random_c_code_snippets_b.DirtPages.Sample.Detect.{set-IsPage}
use random_c_code_snippets_b.DirtPages.Memory.Agreement.{memcmpx86_lem, AllWords-get_or}
use random_c_code_snippets_b.DirtPages.Hashing.{is_zero, pages_identical_with_cost, success}
use random_c_code_snippets_b.DirtPages.Hashing.Accounts.{page_hash_free}
use random_c_code_snippets_b.DirtPages.Init.{
  filled_word, filled_page, flipped_page, hash_repeat, compare_repeat, timed_rounds,
  cal_positive_negative_costs, identity_rounds, shuffle_rounds, seeded, Boot, init_random_sampling,
}
use random_c_code_snippets_b.DirtPages.Init.Shuffle.{IsPermutation, shuffle-IsPermutation}

pub filled_page-IsPage : (byte : ℕ) → byte < 256 → IsPage (filled_page byte)
unfolding filled_page
filled_page-IsPage byte h = record {
  size = length-replicate {A = ℕ} hash_strength_full (filled_word byte);
  words = λ i. elim (dec_lt i hash_strength_full) [
    | yes inside ↦
        rw (get_or-replicate_inside hash_strength_full i (filled_word byte) 0 inside) (omega arith)
    | no beyond ↦
        rw
          (get_or-beyond (replicate hash_strength_full (filled_word byte)) i 0
            (omega (arith, length-replicate {A = ℕ} hash_strength_full (filled_word byte))))
          (omega arith)
  ];
}

abbrev last_word : ℕ → ℕ
last_word byte = filled_word byte % 2 ^ 24 + (255 - byte) * 2 ^ 24

flipped_page-IsPage : (byte : ℕ) → byte < 256 → IsPage (flipped_page byte)
unfolding flipped_page
flipped_page-IsPage byte h =
    set-IsPage (filled_page byte) (hash_strength_full - 1) (last_word byte)
      (filled_page-IsPage byte h) (omega arith) (omega arith)

-- The complemented byte makes the two pages differ.
filled_page-ne-flipped_page : (byte : ℕ) → byte < 256 → filled_page byte ≢ flipped_page byte
unfolding flipped_page
filled_page-ne-flipped_page byte h e =
    let i : ℕ = hash_strength_full - 1 in
    let words = replicate hash_strength_full (filled_word byte) in
    let size = length-replicate {A = ℕ} hash_strength_full (filled_word byte) in
    let here = get_or-replicate_inside hash_strength_full i (filled_word byte) 0 (omega arith) in
    let there = get_or-set_self words i (last_word byte) 0 (omega (arith, size)) in
    omega (arith, sym here ∙ ap (λ p. get_or p i 0) e ∙ there)

is_zero-eq : (r : Ordering) → is_zero r ≡ true → r ≡ Ordering.eq
is_zero-eq Ordering.lt h = cc
is_zero-eq Ordering.eq h = refl
is_zero-eq Ordering.gt h = cc

-- `memcmp` of two pages: it ends, and finds them equal exactly when they are.
pages_identical :
    (page1 page2 : Page) (u : Uksm)
    → IsPage page1
    → IsPage page2
    → Returns (pages_identical_with_cost page1 page2 u) λ r. (r ≡ true) ↔ (page1 ≡ page2)
unfolding pages_identical_with_cost
pages_identical page1 page2 u is1 is2 =
    let (r, run, same) =
      (memcmpx86_lem 512 {s1 = page1} {s2 = page2} is1.size is2.size
        (AllWords-get_or page1 is1.words) (AllWords-get_or page2 is2.words)).1 in
    (is_zero r, rw run, (λ h. same.0 (is_zero-eq r h), λ h. ap is_zero (same.1 h)))

module _ (u : Uksm) (table : IsTable u.random_nums) where
  hash_repeat_ok : (n : ℕ) (page : Page) → IsPage page → hash_repeat n page u ≡ ok tt
  unfolding hash_repeat
  hash_repeat_ok zero page is_page = refl
  hash_repeat_ok (suc n) page is_page =
      rw (page_hash_free u page table is_page hash_strength_full (omega arith))
        (hash_repeat_ok n page is_page)

  compare_repeat_ok :
      (n : ℕ) (page1 page2 : Page)
      → IsPage page1
      → IsPage page2
      → compare_repeat n page1 page2 u ≡ ok tt
  unfolding compare_repeat
  compare_repeat_ok zero page1 page2 is1 is2 = refl
  compare_repeat_ok (suc n) page1 page2 is1 is2 =
      let (r, run, _) = pages_identical page1 page2 u is1 is2 in
      rw run (compare_repeat_ok n page1 page2 is1 is2)

  module _ (jiffies : ℕ → ℕ) (start : ℕ) (words : (k : ℕ) → jiffies k < 2 ^ 64)
      (forward : (j k : ℕ) → j ≤ k → jiffies j ≤ jiffies k) where
    suc_fuel : (k fuel : ℕ) → k + suc fuel - 1 ≡ k + 1 + fuel - 1
    suc_fuel k fuel = omega arith

    -- With one round left, the clock is read for the last time.
    same_time :
        (fuel k : ℕ) → start + 100 ≤ jiffies (k + suc fuel - 1) → fuel ≡ 0 → start + 100 ≤ jiffies k
    same_time fuel k h e = let here : k + suc fuel - 1 ≡ k = omega arith in rw here at h

    timed_rounds_end :
        (fuel k loopnum : ℕ) (page : Page)
        → IsPage page
        → start ≤ jiffies k
        → 0 < fuel
        → start + 100 ≤ jiffies (k + fuel - 1)
        → Returns (timed_rounds jiffies fuel start k loopnum page u) λ r. start + 100 ≤ jiffies r.0
    unfolding timed_rounds
    timed_rounds_end zero k loopnum page is_page begun some_fuel enough = absurd (omega arith)
    timed_rounds_end (suc fuel) k loopnum page is_page begun some_fuel enough =
        elim (Bool-cases (ltb (sub64 (jiffies k) start) 100)) [
          | inl more ↦
              rw (more, hash_repeat_ok 100 page is_page)
                (timed_rounds_end fuel (k + 1) (u64 (loopnum + 100)) page is_page
                  (omega (arith, forward k (k + 1) (omega arith)))
                  (ground (arith, words k, same_time fuel k enough))
                  (rw (suc_fuel k fuel) at enough))
          | inr done ↦
              rw done
                ((k + 1, loopnum), refl, ground (arith, words k, forward k (k + 1) (omega arith)))
        ]

-- A clock of 64 bits that does not wrap or go back, and goes on by 100 within `fuel` reads.
pub record IsClock (jiffies : ℕ → ℕ) (fuel : ℕ) : Type 0 where
  pub words : (k : ℕ) → jiffies k < 2 ^ 64
  pub forward : (j k : ℕ) → j ≤ k → jiffies j ≤ jiffies k
  pub running : 0 < fuel
  pub enough : jiffies 0 + 100 ≤ jiffies fuel

cal_positive_negative_costs_lem :
    (u : Uksm) (random : ℕ) (jiffies : ℕ → ℕ) (fuel : ℕ)
    → IsTable u.random_nums
    → IsClock jiffies fuel
    → Returns
        (cal_positive_negative_costs true true random jiffies fuel u)
        λ r. (r.1 ≡ success) × (r.0 ≡ record u { memcmp_cost = r.0.memcmp_cost })
unfolding cal_positive_negative_costs
cal_positive_negative_costs_lem u random jiffies fuel table clock =
    let byte = random % 256 in
    let byte-lt : byte < 256 = omega arith in
    let is1 = filled_page-IsPage byte byte-lt in
    let is2 = flipped_page-IsPage byte byte-lt in
    let last : 1 + fuel - 1 ≡ fuel = omega arith in
    let ((k, loopnum), run, later) =
      timed_rounds_end u table jiffies (jiffies 0) clock.words clock.forward fuel 1 0
        (filled_page byte) is1 (clock.forward 0 1 (omega arith)) clock.running
        (rw last clock.enough) in
    let hash_cost = sub64 (jiffies k) (jiffies 0) in
    let positive : (hash_cost == 0) ≡ false = ground (arith, clock.words k, clock.words 0) in
    (
      (
        record u {
          memcmp_cost =
              u64 (hash_strength_full * sub64 (jiffies (k + 2)) (jiffies (k + 1))) / hash_cost;
        },
        success,
      ),
      rw (run, compare_repeat_ok u table loopnum (filled_page byte) (flipped_page byte) is1 is2)
          (rw positive),
      (refl, refl),
    )

-- For a page of memory for the table, every sequence of random values, the allocations granted and a
-- clock that goes on: `init_random_sampling` ends with success, reads and writes nothing outside its
-- tables and divides by no zero; it leaves a permutation of the positions of a page in
-- `random_nums`, and the state machine in NEW with its counters cleared.
pub init_random_sampling_lem :
    (boot : Boot) (u : Uksm)
    → boot.table_ok ≡ true
    → boot.p1_ok ≡ true
    → boot.p2_ok ≡ true
    → length boot.memory ≡ hash_strength_full
    → IsClock boot.jiffies boot.fuel
    → Returns (init_random_sampling boot u) λ r.
      (r.1 ≡ success)
      × IsPermutation r.0.random_nums
      × (r.0.rshash_state.state ≡ rshash_new)
      × (r.0.rshash_state.below_count ≡ 0)
      × (r.0.rshash_state.lookup_window_index ≡ 0)
unfolding init_random_sampling
init_random_sampling_lem boot u t p q len clock =
    let (nums, run, perm) = shuffle-IsPermutation boot.prandom boot.memory len in
    let v = seeded u nums in
    let (r, run', (done, same)) =
      cal_positive_negative_costs_lem v boot.random boot.jiffies boot.fuel perm.table clock in
    (
      r,
      rw t (
          bind-bind_ok (identity_rounds hash_strength_full 0 boot.memory)
            (shuffle_rounds boot.prandom hash_strength_full 0)
            (λ shuffled.
              cal_positive_negative_costs boot.p1_ok boot.p2_ok boot.random boot.jiffies boot.fuel
                (seeded u shuffled))
            nums run
          ∙ rw (p, q) run'),
      (done, rw same perm, rw same, rw same, rw same),
    )

-- The two pages of the measurement differ, so that every timed `memcmp` goes through to the last
-- word and `pages_identical_with_cost` returns 0 as its comment says.
pub measured_pages_differ :
    (byte : ℕ) (u : Uksm)
    → byte < 256
    → pages_identical_with_cost (filled_page byte) (flipped_page byte) u ≡ ok false
measured_pages_differ byte u h =
    let (r, run, same) =
      pages_identical (filled_page byte) (flipped_page byte) u (filled_page-IsPage byte h)
        (flipped_page-IsPage byte h) in
    run ∙ ap ok (eq-false r (λ e. filled_page-ne-flipped_page byte h (same.0 e)))
