-- ===== src/DirtPages/Strength/Direction.antt =====
-- dirtPages.c, section 13: the bounds of `hash_strength`, and the decisions of
-- `judge_rshash_direction`.
use native.Mathlib.Nat.{one-le-pow, pow-le-pow_right}
use random_c_code_snippets_b.Prelude.{
  ℕ, ◌+◌, ◌-◌, ◌^◌, ◌≤◌, ◌<◌, ◌≡◌, ◌≢◌, ◌⊎◌, ◌↔◌, arith, ok, Returns, Ensures, Returns-Ensures,
  bit_and,
}
use random_c_code_snippets_b.DirtPages.{
  Uksm, go_up, go_down, obscure, still, hash_strength_max, hash_strength_delta_max,
}
use random_c_code_snippets_b.DirtPages.Strength.{
  inc_hash_strength, dec_hash_strength, inc_hash_strength_delta, get_current_neg_ratio,
  judge_benefit, judge_rshash_direction,
}
use random_c_code_snippets_b.DirtPages.Strength.Measures.{
  get_current_neg_ratio-IsRatio, get_current_benefit_lem,
}

abbrev pub InRange : ℕ → Type 0
InRange strength = (1 ≤ strength) × (strength ≤ hash_strength_max)

-- A step of at most 2 ^ HASH_STRENGTH_DELTA_MAX.
pub step_bounds : (delta : ℕ) → delta ≤ 5 → (1 ≤ 2 ^ delta) × (2 ^ delta ≤ 32)
step_bounds delta h = (one-le-pow delta 2 (omega arith), pow-le-pow_right (omega arith) h)

-- From a strength in the range 1 to HASH_STRENGTH_MAX and for a step exponent of at most
-- HASH_STRENGTH_DELTA_MAX: raising and lowering stay in the range and move by at most the step;
-- raising moves up unless the strength is the largest, lowering moves down unless it is 1; and the
-- exponent itself stays in its range.
pub hash_strength_bounds :
    (delta : ℕ) (u : Uksm)
    → delta ≤ hash_strength_delta_max
    → InRange u.hash_strength
    → let up = (inc_hash_strength delta u).hash_strength in
      let down = (dec_hash_strength delta u).hash_strength in
      InRange up
      × InRange down
      × (up ≤ u.hash_strength + 2 ^ delta)
      × (u.hash_strength ≤ down + 2 ^ delta + 1)
      × ((u.hash_strength ≡ hash_strength_max) ⊎ (u.hash_strength < up))
      × ((u.hash_strength ≡ 1) ⊎ (down < u.hash_strength))
      × ((inc_hash_strength_delta u).hash_strength_delta ≤ hash_strength_delta_max)
unfolding inc_hash_strength dec_hash_strength inc_hash_strength_delta
hash_strength_bounds delta u h r = ground (arith, step_bounds delta)

-- The two counters that a judgement changes.
abbrev pub SameButCounters : Uksm → Uksm → Type 0
SameButCounters u v = v ≡ record u {
  rshash_neg_cont_zero = v.rshash_neg_cont_zero;
  rshash_cont_obscure = v.rshash_cont_obscure;
}

-- Every 256 rounds the judgement is OBSCURE.
abbrev IsPeriodic : Uksm → Type 0
IsPeriodic u = bit_and u.fully_scanned_round 0xff ≡ 10

judge_benefit_lem :
    (current : ℕ) (u : Uksm)
    → Ensures
        (judge_benefit current u)
        λ r. SameButCounters u r.0 × ((r.1 ≡ still) ⊎ (r.1 ≡ obscure))
unfolding judge_benefit
judge_benefit_lem current u = ground arith

-- Between the periodic rounds, with u64 counters and a page scanned, a judgement ends with no
-- division by zero and changes its two counters alone; it is GO_UP exactly when the ratio of wasted
-- work is above 90, and GO_DOWN exactly when that ratio is 0 for at least the third time in a row.
pub judge_rshash_direction_lem :
    (u : Uksm) (ratio : ℕ)
    → u.benefit.scanned ≢ 0
    → ¬ IsPeriodic u
    → u.rshash_neg_cont_zero < 2 ^ 64 - 1
    → get_current_neg_ratio u.benefit ≡ ok ratio
    → Returns (judge_rshash_direction u) λ r.
      SameButCounters u r.0
      × ((r.1 ≡ go_up) ↔ (90 < ratio))
      × ((r.1 ≡ go_down) ↔ ((ratio ≡ 0) × (2 ≤ u.rshash_neg_cont_zero)))
unfolding judge_rshash_direction
judge_rshash_direction_lem u ratio scanned between small run =
    let (benefit, run', _) = get_current_benefit_lem u.benefit scanned in
    Returns-Ensures _ _
      (ground (arith, run', judge_benefit_lem benefit (record u { rshash_neg_cont_zero = 0 })))

-- In every round: a judgement ends, and changes its two counters alone.
pub judge_rshash_direction_same :
    (u : Uksm)
    → u.benefit.scanned ≢ 0
    → u.benefit.pos < 2 ^ 64
    → u.benefit.neg < 2 ^ 64
    → Ensures (judge_rshash_direction u) λ r. SameButCounters u r.0
unfolding judge_rshash_direction
judge_rshash_direction_same u scanned p q =
    let (ratio, run, _) = get_current_neg_ratio-IsRatio u.benefit p q in
    let (benefit, run', _) = get_current_benefit_lem u.benefit scanned in
    ground (arith, run, run', judge_benefit_lem benefit (record u { rshash_neg_cont_zero = 0 }))
