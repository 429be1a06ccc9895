-- ===== src/Tests/Tuning.antt =====
-- Examples of the benefit counters, the measures and the judgement of dirtPages.c.
use random_c_code_snippets_b.Prelude.{
  ℕ, ◌+◌, ◌^◌, ◌≤◌, ◌<◌, ◌≡◌, ◌≢◌, ◌⊎◌, ◌↔◌, inr, refl, arith, true, false, ok, Returns,
}
use random_c_code_snippets_b.DirtPages.{Uksm, go_up, go_down, u64_max}
use random_c_code_snippets_b.DirtPages.Benefit.{encode_benefit, inc_rshash_pos}
use random_c_code_snippets_b.DirtPages.Benefit.Scale.{
  IsValid, Keeps, total_pos, total_neg, total_scanned,
}
use random_c_code_snippets_b.DirtPages.Benefit.Counters.{
  IsReady, encode_benefit_ends, inc_rshash_pos-total, inc_rshash_pos_wraps,
}
use random_c_code_snippets_b.DirtPages.Strength.{get_current_neg_ratio, judge_rshash_direction}
use random_c_code_snippets_b.DirtPages.Strength.Direction.{
  SameButCounters, judge_rshash_direction_lem,
}
use random_c_code_snippets_b.Tests.{fresh}

fresh-IsValid : IsValid fresh
fresh-IsValid = ground arith

fresh-IsReady : IsReady fresh.benefit
fresh-IsReady = inr (omega arith)

encode_benefit_ends_example : Returns (encode_benefit fresh) λ r.
    let (v, result) = r in
    ((fresh.uksm_pages_scanned ≡ fresh.uksm_pages_scanned_last) × (result ≡ false) × (v ≡ fresh))
    ⊎ ((fresh.uksm_pages_scanned ≢ fresh.uksm_pages_scanned_last)
        × (result ≡ true)
        × (v.rshash_pos ≡ 0)
        × (v.rshash_neg ≡ 0)
        × (v.uksm_pages_scanned_last ≡ fresh.uksm_pages_scanned)
        × (v.benefit.scanned ≢ 0)
        × Keeps 0 (total_pos fresh) (total_pos v)
        × Keeps 0 (total_neg fresh) (total_neg v)
        × Keeps 0 (total_scanned fresh) (total_scanned v))
encode_benefit_ends_example = encode_benefit_ends fresh fresh-IsValid fresh-IsReady

inc_rshash_pos-total_example :
    Returns
      (inc_rshash_pos u64_max fresh)
      λ v. Keeps 0 (total_pos fresh + u64_max) (total_pos v) × (v.rshash_pos < 2 ^ 64)
inc_rshash_pos-total_example =
    inc_rshash_pos-total fresh fresh-IsValid u64_max (omega arith)
      (inr (omega arith, fresh-IsReady))

-- No page is scanned since the last transfer, and the counter is full.
abbrev full : Uksm
full = record fresh { rshash_pos = u64_max; uksm_pages_scanned_last = 70 }

full-IsValid : IsValid full
full-IsValid = ground arith

inc_rshash_pos_wraps_example :
    Returns (inc_rshash_pos 3 full) λ v. v.rshash_pos + 2 ^ 64 ≡ u64_max + 3
inc_rshash_pos_wraps_example =
    inc_rshash_pos_wraps full full-IsValid 3 (omega arith) (omega arith) refl

abbrev ratio : ℕ
ratio = 1

fresh_ratio : get_current_neg_ratio fresh.benefit ≡ ok ratio
unfolding get_current_neg_ratio
fresh_ratio = refl

judge_rshash_direction_lem_example : Returns (judge_rshash_direction fresh) λ r.
    SameButCounters fresh r.0
    × ((r.1 ≡ go_up) ↔ (90 < ratio))
    × ((r.1 ≡ go_down) ↔ ((ratio ≡ 0) × (2 ≤ 0)))
judge_rshash_direction_lem_example =
    judge_rshash_direction_lem fresh ratio (omega arith) (λ e. omega arith) (omega arith)
      fresh_ratio
