-- ===== src/DirtPages/Strength/Measures.antt =====
-- dirtPages.c, section 13: `get_current_neg_ratio` and `get_current_benefit`.
use native.Mathlib.Nat.{
  zero-div, div-mul-le_self, le-div_iff_mul-le, div-lt_iff_lt-mul, div-le_of_le-mul,
}
use random_c_code_snippets_b.Prelude.{
  ℕ, zero, suc, ◌+◌, ◌-◌, ◌*◌, ◌/◌, ◌^◌, ◌≤◌, ◌<◌, ◌≡◌, ◌≢◌, ◌⊎◌, inl, inr, refl, sym, arith,
  Returns, dec_lt,
}
use random_c_code_snippets_b.DirtPages.{UksmBenefit, u64_max}
use random_c_code_snippets_b.DirtPages.Strength.{get_current_neg_ratio, get_current_benefit}

-- The wasted work in percent of the saved work, rounded down.
abbrev pub percent : ℕ → ℕ → ℕ
percent pos neg = 100 * neg / pos

percent-le : (pos neg : ℕ) → 0 < pos → neg ≤ pos → percent pos neg ≤ 100
percent-le pos neg h k = div-le_of_le-mul pos (omega arith)

percent-zero : (pos neg : ℕ) → neg ≡ 0 → percent pos neg ≡ 0
percent-zero pos neg e = rw e (zero-div pos)

mul_mono : (a b c : ℕ) → b ≤ c → a * b ≤ a * c
mul_mono a b c h = grind arith

-- The division by a hundredth of `pos` that avoids the overflow of `100 * neg`.
module _ (pos neg q : ℕ) (h : neg ≤ pos) (e : q ≡ pos / 100) (large : 1000 ≤ q) where
  scaled-le : neg / q ≤ 100
  scaled-le =
      let below = (div-lt_iff_lt-mul {k = q} {x = neg} {y = 101} (omega arith)).1 (omega arith) in
      omega arith

  percent-le-scaled : percent pos neg ≤ neg / q
  percent-le-scaled =
      let p = percent pos neg in
      (le-div_iff_mul-le {k = q} {x = p} {y = neg} (omega arith)).1
        (omega (arith, div-mul-le_self (100 * neg) pos, mul_mono p (100 * q) pos (omega arith)))

  scaled-le-percent : (r : ℕ) → r ≡ neg / q → r ≤ percent pos neg + 1
  scaled-le-percent zero f = omega arith
  scaled-le-percent (suc p) f =
      let at_most = (le-div_iff_mul-le {k = pos} {x = p} {y = 100 * neg} (omega arith)).1 (
        omega (
          arith,
          scaled-le,
          (le-div_iff_mul-le {k = q} {x = suc p} {y = neg} (omega arith)).0 (omega arith),
          mul_mono p pos (100 * q + 99) (omega arith),
        )) in
      omega arith

-- What the comment of `get_current_neg_ratio` asks for: `r` is a percentage, 100 if more work was
-- wasted than saved, and otherwise the share of wasted work, at most one too high.
pub record IsRatio (b : UksmBenefit) (r : ℕ) : Type 0 where
  pub bounded : r ≤ 100
  pub value :
      ((b.pos < b.neg) × (r ≡ 100))
      ⊎ ((b.neg ≤ b.pos) × (percent b.pos b.neg ≤ r) × (r ≤ percent b.pos b.neg + 1))

-- For u64 counters, `get_current_neg_ratio` divides by no zero and wraps nowhere, and returns the
-- ratio as a percentage from 0 to 100: 100 if `neg` exceeds `pos`, and for `neg` up to a positive
-- `pos` the percentage rounded down or one more.
pub get_current_neg_ratio-IsRatio :
    (b : UksmBenefit)
    → b.pos < 2 ^ 64
    → b.neg < 2 ^ 64
    → Returns (get_current_neg_ratio b) (IsRatio b)
unfolding get_current_neg_ratio
get_current_neg_ratio-IsRatio b p q = elim (cases b.pos b.neg) [
  | inl none_wasted ↦ (
    0,
    ground arith,
    record {
      bounded = omega arith;
      value = inr (omega arith, omega (arith, percent-zero b.pos b.neg none_wasted), omega arith);
    },
  )
  | inr (inl lossy) ↦
      (100, ground arith, record { bounded = omega arith; value = inl (ground arith, refl) })
  | inr (inr (inl small)) ↦ (
    100 * b.neg / b.pos,
    ground arith,
    record {
      bounded = percent-le b.pos b.neg (omega arith) (omega arith);
      value = inr (omega arith, omega arith, omega arith);
    },
  )
  | inr (inr (inr large)) ↦ (
    b.neg / (b.pos / 100),
    ground arith,
    record {
      bounded = scaled-le b.pos b.neg (b.pos / 100) (omega arith) refl (omega arith);
      value = inr (
        omega arith,
        percent-le-scaled b.pos b.neg (b.pos / 100) (omega arith) refl (omega arith),
        scaled-le-percent b.pos b.neg (b.pos / 100) (omega arith) refl (omega arith) _ refl,
      );
    },
  )
]
  where
    cases :
        (pos neg : ℕ)
        → (neg ≡ 0)
          ⊎ (((neg ≢ 0) × ((pos ≡ 0) ⊎ (pos < neg)))
              ⊎ (((neg ≢ 0) × (pos ≢ 0) × (neg ≤ pos) × (neg ≤ u64_max / 100))
                  ⊎ ((pos ≢ 0) × (neg ≤ pos) × (u64_max / 100 < neg))))
    cases pos neg = ground arith

-- With a page scanned, `get_current_benefit` divides by no zero.
pub get_current_benefit_lem :
    (b : UksmBenefit)
    → b.scanned ≢ 0
    → Returns (get_current_benefit b) λ r. r ≡ (b.pos - b.neg) / b.scanned
unfolding get_current_benefit
get_current_benefit_lem b h = elim (dec_lt b.pos b.neg) [
  | yes less ↦ (
    0,
    ground arith,
    let none_left : b.pos - b.neg ≡ 0 = omega arith in rw none_left (sym (zero-div b.scanned)),
  )
  | no more ↦ ((b.pos - b.neg) / b.scanned, ground arith, refl)
]
