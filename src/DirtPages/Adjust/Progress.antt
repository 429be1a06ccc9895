-- ===== src/DirtPages/Adjust/Progress.antt =====
-- dirtPages.c: the order of the states of `rshash_adjust`, and the end of its probes.
use random_c_code_snippets_b.Prelude.{
  ℕ, ◌≤◌, ◌<◌, ◌≡◌, ◌≢◌, ◌⊎◌, inl, inr, refl, arith, Bool, true, false, Bool-cases, ok, Ensures,
  Ensures-bind, Ensures-ok, Ensures-mono, subst,
}
use random_c_code_snippets_b.DirtPages.{
  RshashStates, rshash_still, rshash_tryup, rshash_trydown, rshash_new, rshash_pre_still,
  RshashDirect, go_up, go_down, obscure, still, RshashState, Uksm, hash_strength_max,
}
use random_c_code_snippets_b.DirtPages.Benefit.{encode_benefit, reset_benefit}
use random_c_code_snippets_b.DirtPages.Benefit.Scale.{encode_benefit-IsCounters}
use random_c_code_snippets_b.DirtPages.Strength.{judge_rshash_direction}
use random_c_code_snippets_b.DirtPages.Strength.Measures.{get_current_benefit_lem}
use random_c_code_snippets_b.DirtPages.Strength.Direction.{
  SameButCounters, step_bounds, judge_rshash_direction_same,
}
use random_c_code_snippets_b.DirtPages.Adjust.{
  is_go_up, is_go_down, step_up, step_down, follow, open_window, probe_ends, note_down, note_up,
  end_down, end_up, adjust_state, adjust_strength,
}
use random_c_code_snippets_b.DirtPages.Adjust.Invariant.{
  IsTuned, IsMeasured, Probes-HasPoints, encode_benefit-IsTuned,
}

-- One round leads from a state and a strength to one of these, and the strength moves as the probes
-- want.
pub data Move (s : RshashState) (n : ℕ) (s' : RshashState) (n' : ℕ) : Type 0 where
  settle :
      (s.state ≡ rshash_new) ⊎ (s.state ≡ rshash_pre_still)
      → s'.state ≡ rshash_still
      → n' ≡ n
      → Move s n s' n'
  rest : s.state ≡ rshash_still → s'.state ≡ rshash_still → Move s n s' n'
  probe : s.state ≡ rshash_still → s'.state ≡ rshash_trydown → s'.stable_point ≡ n → Move s n s' n'
  lower : s.state ≡ rshash_trydown → s'.state ≡ rshash_trydown → n' < n → Move s n s' n'
  turn : s.state ≡ rshash_trydown → s'.state ≡ rshash_tryup → s.stable_point ≤ n' → Move s n s' n'
  raise : s.state ≡ rshash_tryup → s'.state ≡ rshash_tryup → n < n' → Move s n s' n'
  choose : s.state ≡ rshash_tryup → s'.state ≡ rshash_pre_still → Move s n s' n'

abbrev pub Moves : Uksm → Uksm → Type 0
Moves u v = Move u.rshash_state u.hash_strength v.rshash_state v.hash_strength

follow-Move :
    (direction : RshashDirect) (u : Uksm)
    → u.benefit.scanned ≢ 0
    → u.rshash_state.state ≡ rshash_still
    → Ensures (follow direction u) λ v.
      (v.rshash_state.state ≡ rshash_still)
      ⊎ ((v.rshash_state.state ≡ rshash_trydown) × (v.rshash_state.stable_point ≡ u.hash_strength))
unfolding follow step_up step_down
follow-Move go_up u m e =
    let (benefit, run, _) = get_current_benefit_lem u.benefit m in ground (arith, run)
follow-Move go_down u m e =
    let (benefit, run, _) = get_current_benefit_lem u.benefit m in ground (arith, run)
follow-Move obscure u m e =
    let (benefit, run, _) = get_current_benefit_lem u.benefit m in ground (arith, run)
follow-Move still u m e = inl e

-- A probe that goes on has not reached its limit.
probe_ends-limit :
    (wanted : RshashDirect → Bool) (limit : ℕ) (u : Uksm)
    → IsMeasured u
    → Ensures
        (probe_ends wanted limit u)
        λ r. SameButCounters u r.0 × (r.1 ≡ false → u.hash_strength ≢ limit)
unfolding probe_ends
probe_ends-limit wanted limit u m =
    ground (arith, judge_rshash_direction_same u m.scanned m.pos m.neg)

module _ (u : Uksm) (m : IsMeasured u) (t : IsTuned u) where
  note_down-same :
      (benefit : ℕ)
      → let s = note_down benefit u.hash_strength (open_window u.rshash_state) in
        (s.state ≡ u.rshash_state.state) × (s.stable_point ≡ u.rshash_state.stable_point)
  unfolding note_down open_window
  note_down-same benefit = ground arith

  note_up-same :
      (benefit : ℕ)
      → (note_up benefit u.hash_strength (open_window u.rshash_state)).state ≡ u.rshash_state.state
  unfolding note_up open_window
  note_up-same benefit = ground arith

  probed-IsMeasured : (s : RshashState) → IsMeasured (record u { rshash_state = s })
  probed-IsMeasured s = record { scanned = m.scanned; pos = m.pos; neg = m.neg }

  trydown-Move :
      u.rshash_state.state ≡ rshash_trydown → Ensures (adjust_state rshash_trydown u) (Moves u)
  unfolding adjust_state end_down step_up step_down
  trydown-Move e =
      let (benefit, run, _) = get_current_benefit_lem u.benefit m.scanned in
      let s = note_down benefit u.hash_strength (open_window u.rshash_state) in
      let same = note_down-same benefit in
      let points = Probes-HasPoints _ u.rshash_state (inl e) t.points in
      rw run (
        Ensures-bind (probe_ends is_go_up 1 (record u { rshash_state = s })) _ _ (Moves u)
          (probe_ends-limit is_go_up 1 (record u { rshash_state = s }) (probed-IsMeasured s))
          (λ r h. elim (Bool-cases r.1) [
            | inl ended ↦ rw ended (turn e refl (ground (arith, points)))
            | inr on ↦
                rw on (
                  lower e (ground arith)
                    (ground (arith, h.1 on, step_bounds u.hash_strength_delta)))
          ]))

  tryup-Move : u.rshash_state.state ≡ rshash_tryup → Ensures (adjust_state rshash_tryup u) (Moves u)
  unfolding adjust_state end_up step_up
  tryup-Move e =
      let (benefit, run, _) = get_current_benefit_lem u.benefit m.scanned in
      let s = note_up benefit u.hash_strength (open_window u.rshash_state) in
      let same = note_up-same benefit in
      let u' = record u { rshash_state = s } in
      rw run (
        Ensures-bind (probe_ends is_go_down hash_strength_max u') _ _ (Moves u)
          (probe_ends-limit is_go_down hash_strength_max u' (probed-IsMeasured s))
          (λ r h. elim (Bool-cases r.1) [
            | inl ended ↦ rw ended (choose e refl)
            | inr on ↦
                rw on (
                  raise e (ground arith)
                    (ground (arith, h.1 on, step_bounds u.hash_strength_delta)))
          ]))

  adjust_state-Move :
      (state : RshashStates)
      → u.rshash_state.state ≡ state
      → Ensures (adjust_state state u) (Moves u)
  adjust_state-Move rshash_still e =
      unfold adjust_state in
      Ensures-bind (judge_rshash_direction u) _ (λ r. SameButCounters u r.0) (Moves u)
        (judge_rshash_direction_same u m.scanned m.pos m.neg)
        (λ r same.
          Ensures-mono (follow r.1 r.0) _ (Moves u)
            (follow-Move r.1 r.0 (ground arith) (ground arith))
            (λ v h. elim h [
              | inl rests ↦ rest e rests
              | inr probes ↦ probe e probes.0 (ground arith)
            ]))
  adjust_state-Move rshash_trydown e = trydown-Move e
  adjust_state-Move rshash_tryup e = tryup-Move e
  adjust_state-Move rshash_new e =
      let (benefit, run, _) = get_current_benefit_lem u.benefit m.scanned in
      unfold adjust_state in rw run (settle (inl e) refl refl)
  adjust_state-Move rshash_pre_still e =
      let (benefit, run, _) = get_current_benefit_lem u.benefit m.scanned in
      unfold adjust_state in rw run (settle (inr e) refl refl)

drained-Moves :
    (u v : Uksm)
    → IsTuned u
    → encode_benefit u ≡ ok (v, true)
    → Ensures (adjust_strength u) λ r. Moves u r.0
unfolding adjust_strength reset_benefit
drained-Moves u v t run =
    let (pos, neg, scanned, same) = encode_benefit-IsCounters u v run in
    rw run (
      Ensures-bind (adjust_state v.rshash_state.state v) _ (Moves v) (λ r. Moves u r.0)
        (adjust_state-Move v (record { scanned = scanned; pos = pos; neg = neg })
          (encode_benefit-IsTuned u v true t run) v.rshash_state.state refl)
        (λ w h. subst (λ (x : Uksm). Moves x w) same h))

-- The states of `rshash_adjust` follow one another in the order of its comment. For a tuned state
-- with a page scanned, each round that ends leads from NEW or PRE_STILL to STILL with the strength
-- unchanged, from STILL to STILL or to TRYDOWN with the strength kept as `stable_point`, from
-- TRYDOWN to TRYDOWN with a lower strength or to TRYUP from `stable_point` or above, and from TRYUP
-- to TRYUP with a higher strength or to PRE_STILL.
pub adjust_strength-Move :
    (u v w : Uksm) (changed : Bool)
    → IsTuned u
    → encode_benefit u ≡ ok (v, true)
    → adjust_strength u ≡ ok (w, changed)
    → Moves u w
adjust_strength-Move u v w changed t run run' =
    Ensures-ok (adjust_strength u) (λ r. Moves u r.0) (w, changed) (drained-Moves u v t run) run'
