-- ===== src/DirtPages/Benefit/Scale.antt =====
-- dirtPages.c: what `encode_benefit` keeps of the running counters, section 7.
use native.Mathlib.Nat.{one-le-pow, pow-suc, div-add-mod, div-le_self}
use native.Mathlib.Numerals.{add-one}
use random_c_code_snippets_b.Prelude.{
  ℕ, ◌+◌, ◌-◌, ◌*◌, ◌/◌, ◌^◌, ◌≤◌, ◌<◌, ◌≡◌, ◌≢◌, ◌⊎◌, inl, inr, arith, true, ok,
}
use random_c_code_snippets_b.Word.{sub64}
use random_c_code_snippets_b.DirtPages.{UksmBenefit, Uksm}
use random_c_code_snippets_b.DirtPages.Benefit.{accumulate, encoded, drained, encode_benefit}

-- The counters are u64 values, and `base` is far from its own wrap.
pub record IsCounters (b : UksmBenefit) : Type 0 where
  pub pos_u64 : b.pos < 2 ^ 64
  pub neg_u64 : b.neg < 2 ^ 64
  pub scanned_u64 : b.scanned < 2 ^ 64
  pub base_u64 : b.base < 2 ^ 64 - 1

-- Work done so far: the long-term units at their scale, and what still runs.
abbrev pub total_pos : Uksm → ℕ
total_pos u = u.benefit.pos * 2 ^ u.benefit.base + u.rshash_pos

abbrev pub total_neg : Uksm → ℕ
total_neg u = u.benefit.neg * 2 ^ u.benefit.base + u.rshash_neg

abbrev pub total_scanned : Uksm → ℕ
total_scanned u =
    u.benefit.scanned * 2 ^ u.benefit.base + sub64 u.uksm_pages_scanned u.uksm_pages_scanned_last

-- `after` stands for `before`, short of less than three units of the scale `base`.
abbrev pub Keeps : ℕ → ℕ → ℕ → Type 0
Keeps base before after = (after ≤ before) × (before < after + 3 * 2 ^ base)

scale_mono : (s a b : ℕ) → a ≤ b → a * s ≤ b * s
scale_mono s a b h = grind arith

-- One counter without the halving, at the scale `s`.
pub plain_Keeps :
    (s before running : ℕ)
    → 0 < s
    → ((before + running / s) * s ≤ before * s + running)
      × (before * s + running < (before + running / s) * s + 3 * s)
plain_Keeps s before running h = omega (arith, div-add-mod running s)

-- And with it.
pub halved_Keeps :
    (s before running : ℕ)
    → 0 < s
    → ((before / 2 + running / s / 2) * (s * 2) ≤ before * s + running)
      × (before * s + running < (before / 2 + running / s / 2) * (s * 2) + 3 * s)
halved_Keeps s before running h =
    let q = running / s in
    omega (
      arith,
      div-add-mod running s,
      scale_mono s (2 * (before / 2 + q / 2)) (before + q) (omega arith),
      scale_mono s (before + q) (2 * (before / 2 + q / 2) + 2) (omega arith),
    )

-- The sums of the plain branch, and of the branch that halves.
abbrev plain : UksmBenefit → ℕ → ℕ → ℕ → UksmBenefit
plain b pos_delta neg_delta scanned_delta = record {
  pos = b.pos + pos_delta;
  neg = b.neg + neg_delta;
  scanned = b.scanned + scanned_delta;
  base = b.base;
}

abbrev halved : UksmBenefit → ℕ → ℕ → ℕ → UksmBenefit
halved b pos_delta neg_delta scanned_delta = record {
  pos = b.pos / 2 + pos_delta / 2;
  neg = b.neg / 2 + neg_delta / 2;
  scanned = b.scanned / 2 + scanned_delta / 2;
  base = b.base + 1;
}

-- No sum of `encode_benefit` wraps.
accumulate_cases :
    (b : UksmBenefit) (pos_delta neg_delta scanned_delta : ℕ)
    → IsCounters b
    → pos_delta < 2 ^ 64
    → neg_delta < 2 ^ 64
    → scanned_delta < 2 ^ 64
    → (accumulate b pos_delta neg_delta scanned_delta ≡ plain b pos_delta neg_delta scanned_delta)
      ⊎ (accumulate b pos_delta neg_delta scanned_delta
          ≡ halved b pos_delta neg_delta scanned_delta)
unfolding accumulate
accumulate_cases b pos_delta neg_delta scanned_delta c p q r = ground arith

abbrev KeepsAll : UksmBenefit → ℕ → ℕ → ℕ → UksmBenefit → Type 0
KeepsAll b pos neg scanned r =
    Keeps b.base (b.pos * 2 ^ b.base + pos) (r.pos * 2 ^ r.base)
    × Keeps b.base (b.neg * 2 ^ b.base + neg) (r.neg * 2 ^ r.base)
    × Keeps b.base (b.scanned * 2 ^ b.base + scanned) (r.scanned * 2 ^ r.base)

accumulate-Keeps :
    (b : UksmBenefit) (pos neg scanned : ℕ)
    → IsCounters b
    → pos < 2 ^ 64
    → neg < 2 ^ 64
    → scanned < 2 ^ 64
    → KeepsAll b pos neg scanned
        (accumulate b (pos / 2 ^ b.base) (neg / 2 ^ b.base) (scanned / 2 ^ b.base))
accumulate-Keeps b pos neg scanned c p q r =
    let s = 2 ^ b.base in
    let positive : 0 < s = one-le-pow b.base 2 (omega arith) in
    elim (accumulate_cases b (pos / s) (neg / s) (scanned / s) c (omega (arith, div-le_self pos s))
      (omega (arith, div-le_self neg s)) (omega (arith, div-le_self scanned s))) [
        | inl e ↦ rw e (
          plain_Keeps s b.pos pos positive,
          plain_Keeps s b.neg neg positive,
          plain_Keeps s b.scanned scanned positive,
        )
        | inr e ↦
            rw (e, add-one, pow-suc)
              (
                halved_Keeps s b.pos pos positive,
                halved_Keeps s b.neg neg positive,
                halved_Keeps s b.scanned scanned positive,
              )
      ]

-- The global counters in range.
pub record IsValid (u : Uksm) : Type 0 where
  pub counters : IsCounters u.benefit
  pub running_pos : u.rshash_pos < 2 ^ 64
  pub running_neg : u.rshash_neg < 2 ^ 64
  pub scanned : u.uksm_pages_scanned < 2 ^ 64
  pub last : u.uksm_pages_scanned_last < 2 ^ 64

-- If counters are in range and `encode_benefit` returns 1, then it has set the running counters to
-- zero, nothing wrapped: the saved work, the wasted work and the pages scanned that the state stands
-- for are what they were, short of less than three units of the scale before; and the divisor
-- `benefit.scanned` is not zero.
pub encode_benefit-Keeps :
    (u v : Uksm)
    → IsValid u
    → encode_benefit u ≡ ok (v, true)
    → Keeps u.benefit.base (total_pos u) (total_pos v)
      × Keeps u.benefit.base (total_neg u) (total_neg v)
      × Keeps u.benefit.base (total_scanned u) (total_scanned v)
      × (v.benefit.scanned ≢ 0)
unfolding encode_benefit encoded
encode_benefit-Keeps u v valid h = ground (
  arith,
  accumulate-Keeps u.benefit u.rshash_pos u.rshash_neg
      (sub64 u.uksm_pages_scanned u.uksm_pages_scanned_last) valid.counters,
)

-- What the transfer leaves to the measures: counters in range over the pages scanned.
pub encode_benefit-IsCounters :
    (u v : Uksm)
    → encode_benefit u ≡ ok (v, true)
    → (v.benefit.pos < 2 ^ 64)
      × (v.benefit.neg < 2 ^ 64)
      × (v.benefit.scanned ≢ 0)
      × (v ≡ drained u)
unfolding encode_benefit encoded accumulate
encode_benefit-IsCounters u v h = ground arith
