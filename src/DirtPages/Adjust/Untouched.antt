-- ===== src/DirtPages/Adjust/Untouched.antt =====
-- dirtPages.c: what `rshash_adjust` leaves alone on its way to the rebuild of the stable tree.
use random_c_code_snippets_b.Prelude.{
  true≢false, Ensures-mono, ℕ, ◌≡◌, refl, sym, ap, ◌∙◌, arith, Bool, true, false, not,
  if◌then◌else◌, ◌==◌, ok, Ensures, Ensures-bind, ◌>>=◌,
}
use random_c_code_snippets_b.DirtPages.{
  RshashStates, rshash_still, rshash_tryup, rshash_trydown, rshash_new, rshash_pre_still,
  RshashDirect, go_up, go_down, obscure, still, RshashState, Uksm, hash_strength_max,
}
use random_c_code_snippets_b.DirtPages.Benefit.{encode_benefit, reset_benefit}
use random_c_code_snippets_b.DirtPages.Benefit.Scale.{encode_benefit-IsCounters}
use random_c_code_snippets_b.DirtPages.Strength.{
  inc_hash_strength, dec_hash_strength, inc_hash_strength_delta, judge_rshash_direction,
}
use random_c_code_snippets_b.DirtPages.Strength.Measures.{get_current_benefit_lem}
use random_c_code_snippets_b.DirtPages.Strength.Direction.{
  SameButCounters, judge_rshash_direction_same,
}
use random_c_code_snippets_b.DirtPages.Adjust.{
  is_go_up, is_go_down, step_up, step_down, follow, probe_ends, end_down, end_up, adjust_state,
  adjust_strength,
}
use random_c_code_snippets_b.DirtPages.Adjust.Invariant.{IsMeasured, probe_ends-same}

-- The table of positions and the counter of wasted work.
abbrev pub Untouched : Uksm → Uksm → Type 0
Untouched u v = (v.random_nums ≡ u.random_nums) × (v.rshash_neg ≡ u.rshash_neg)

SameButCounters-Untouched : (u v : Uksm) → SameButCounters u v → Untouched u v
SameButCounters-Untouched u v e = (ap (λ x. x.random_nums) e, ap (λ x. x.rshash_neg) e)

module _ (u : Uksm) (m : IsMeasured u) where
  follow-Untouched : (direction : RshashDirect) → Ensures (follow direction u) (Untouched u)
  unfolding follow step_up step_down inc_hash_strength dec_hash_strength inc_hash_strength_delta
  follow-Untouched go_up =
      let (benefit, run, _) = get_current_benefit_lem u.benefit m.scanned in rw run (refl, refl)
  follow-Untouched go_down =
      let (benefit, run, _) = get_current_benefit_lem u.benefit m.scanned in rw run (refl, refl)
  follow-Untouched obscure =
      let (benefit, run, _) = get_current_benefit_lem u.benefit m.scanned in rw run (refl, refl)
  follow-Untouched still = (refl, refl)

  probed-Untouched :
      (wanted : RshashDirect → Bool) (limit : ℕ) (s : RshashState) (ended step : Uksm → Uksm)
      → ((v : Uksm) → Untouched v (ended v))
      → ((v : Uksm) → Untouched v (step v))
      → Ensures
          (probe_ends wanted limit (record u { rshash_state = s }) >>= λ r.
            ok (if r.1 then ended r.0 else step r.0))
          (Untouched u)
  probed-Untouched wanted limit s ended step keeps keeps' =
      Ensures-bind _ _ (λ r. SameButCounters (record u { rshash_state = s }) r.0) _
        (probe_ends-same wanted limit (record u { rshash_state = s })
          (record { scanned = m.scanned; pos = m.pos; neg = m.neg }))
        (λ r same.
          let (table, neg) = SameButCounters-Untouched (record u { rshash_state = s }) r.0 same in
          ground (arith, table, neg, keeps r.0, keeps' r.0))

step_up-Untouched : (u : Uksm) → Untouched u (step_up u)
unfolding step_up inc_hash_strength inc_hash_strength_delta
step_up-Untouched u = (refl, refl)

step_down-Untouched : (u : Uksm) → Untouched u (step_down u)
unfolding step_down dec_hash_strength inc_hash_strength_delta
step_down-Untouched u = (refl, refl)

end_down-Untouched : (u : Uksm) → Untouched u (end_down u)
unfolding end_down step_up inc_hash_strength inc_hash_strength_delta
end_down-Untouched u = (refl, refl)

end_up-Untouched : (u : Uksm) → Untouched u (end_up u)
unfolding end_up
end_up-Untouched u = (refl, refl)

adjust_state-Untouched :
    (u : Uksm) (m : IsMeasured u) (state : RshashStates)
    → Ensures (adjust_state state u) (Untouched u)
unfolding adjust_state
adjust_state-Untouched u m rshash_still =
    Ensures-bind (judge_rshash_direction u) _ (λ r. SameButCounters u r.0) _
      (judge_rshash_direction_same u m.scanned m.pos m.neg)
      (λ r same.
        let (table, neg) = SameButCounters-Untouched u r.0 same in
        Ensures-mono _ (Untouched r.0) _
          (follow-Untouched r.0 (rw same (record { scanned = m.scanned; pos = m.pos; neg = m.neg }))
            r.1)
          (λ v h. (h.0 ∙ table, h.1 ∙ neg)))
adjust_state-Untouched u m rshash_trydown =
    let (benefit, run, _) = get_current_benefit_lem u.benefit m.scanned in
    rw run
      (probed-Untouched u m is_go_up 1 _ end_down step_down end_down-Untouched step_down-Untouched)
adjust_state-Untouched u m rshash_tryup =
    let (benefit, run, _) = get_current_benefit_lem u.benefit m.scanned in
    rw run (
      probed-Untouched u m is_go_down hash_strength_max _ end_up step_up end_up-Untouched
        step_up-Untouched)
adjust_state-Untouched u m rshash_new =
    let (benefit, run, _) = get_current_benefit_lem u.benefit m.scanned in rw run (refl, refl)
adjust_state-Untouched u m rshash_pre_still =
    let (benefit, run, _) = get_current_benefit_lem u.benefit m.scanned in rw run (refl, refl)

-- What the rebuild finds.
pub record Adjusted (u : Uksm) (r : Uksm × Bool) : Type 0 where
  pub table : r.0.random_nums ≡ u.random_nums
  pub quiet : r.1 ≡ true → r.0.rshash_neg ≡ 0
  pub same : r.1 ≡ false → r.0.hash_strength ≡ u.hash_strength

encode_benefit-none : (u v : Uksm) → encode_benefit u ≡ ok (v, false) → v ≡ u
unfolding encode_benefit
encode_benefit-none u v run = ground arith

unchanged : (a b : ℕ) → not (a == b) ≡ false → b ≡ a
unchanged a b e = ground arith

pub adjust_strength-Adjusted :
    (u v : Uksm) (encoded : Bool)
    → encode_benefit u ≡ ok (v, encoded)
    → Ensures (adjust_strength u) (Adjusted u)
unfolding adjust_strength reset_benefit
adjust_strength-Adjusted u v false run =
    let none = encode_benefit-none u v run in
    rw run (record {
      table = ap (λ x. x.random_nums) none;
      quiet = λ e. absurd (true≢false (sym e));
      same = λ e. ap (λ x. x.hash_strength) none;
    })
adjust_strength-Adjusted u v true run =
    let (pos, neg, scanned, drained) = encode_benefit-IsCounters u v run in
    rw run (
      Ensures-bind (adjust_state v.rshash_state.state v) _ (Untouched v) (Adjusted u)
        (adjust_state-Untouched v (record { scanned = scanned; pos = pos; neg = neg })
          v.rshash_state.state)
        (λ w h. record {
          table = h.0 ∙ ap (λ x. x.random_nums) drained;
          quiet = λ e. h.1 ∙ ap (λ x. x.rshash_neg) drained;
          same = unchanged u.hash_strength w.hash_strength;
        }))
