-- ===== src/DirtPages/Adjust/Invariant.antt =====
-- dirtPages.c: what `rshash_adjust` keeps, whatever the counters say.
use random_c_code_snippets_b.Prelude.{
  ℕ, ◌^◌, ◌≤◌, ◌<◌, ◌≡◌, ◌≢◌, ◌⊎◌, inl, inr, refl, arith, Bool, true, false, ◌∙◌, if◌then◌else◌, ok,
  Returns, Ensures, Returns-Ensures, Ensures-bind, ◌>>=◌,
}
use random_c_code_snippets_b.DirtPages.{
  RshashStates, rshash_still, rshash_tryup, rshash_trydown, rshash_new, rshash_pre_still,
  RshashDirect, go_up, go_down, obscure, still, RshashState, Uksm, hash_strength_max,
  hash_strength_delta_max,
}
use random_c_code_snippets_b.DirtPages.Benefit.{encode_benefit, reset_benefit}
use random_c_code_snippets_b.DirtPages.Benefit.Scale.{encode_benefit-IsCounters}
use random_c_code_snippets_b.DirtPages.Strength.{judge_rshash_direction}
use random_c_code_snippets_b.DirtPages.Strength.Measures.{get_current_benefit_lem}
use random_c_code_snippets_b.DirtPages.Strength.Direction.{
  InRange, SameButCounters, step_bounds, judge_rshash_direction_same,
}
use random_c_code_snippets_b.DirtPages.Adjust.{
  is_go_up, is_go_down, step_up, step_down, follow, open_window, probe_ends, note_down, note_up,
  end_down, end_up, adjust_state, adjust_strength,
}

-- The points between which the two probes choose.
pub record HasPoints (s : RshashState) : Type 0 where
  pub stable : InRange s.stable_point
  pub down : InRange s.turn_point_down
  pub up : InRange s.turn_point_up

abbrev pub Probes : RshashStates → RshashState → Type 0
Probes rshash_trydown s = HasPoints s
Probes rshash_tryup s = HasPoints s
Probes rshash_still s = Unit
Probes rshash_new s = Unit
Probes rshash_pre_still s = Unit

-- The strength, its step and the points of a running probe are in range.
pub record IsTuned (u : Uksm) : Type 0 where
  pub strength : InRange u.hash_strength
  pub delta : u.hash_strength_delta ≤ hash_strength_delta_max
  pub points : Probes u.rshash_state.state u.rshash_state

step_up-IsTuned : (u : Uksm) → IsTuned u → IsTuned (step_up u)
unfolding step_up
step_up-IsTuned u t = ground (arith, step_bounds u.hash_strength_delta)

step_down-IsTuned : (u : Uksm) → IsTuned u → IsTuned (step_down u)
unfolding step_down
step_down-IsTuned u t = ground (arith, step_bounds u.hash_strength_delta)

-- Benefit counters that the measures can divide by.
pub record IsMeasured (u : Uksm) : Type 0 where
  pub scanned : u.benefit.scanned ≢ 0
  pub pos : u.benefit.pos < 2 ^ 64
  pub neg : u.benefit.neg < 2 ^ 64

module _ (u : Uksm) (m : IsMeasured u) (t : IsTuned u) where
  follow-IsTuned :
      (direction : RshashDirect)
      → u.rshash_state.state ≡ rshash_still
      → Ensures (follow direction u) IsTuned
  unfolding follow step_up step_down
  follow-IsTuned go_up e =
      let (benefit, run, _) = get_current_benefit_lem u.benefit m.scanned in
      ground (arith, run, step_bounds u.hash_strength_delta, step_bounds 0)
  follow-IsTuned go_down e =
      let (benefit, run, _) = get_current_benefit_lem u.benefit m.scanned in
      ground (arith, run, step_bounds u.hash_strength_delta, step_bounds 0)
  follow-IsTuned obscure e =
      let (benefit, run, _) = get_current_benefit_lem u.benefit m.scanned in
      ground (arith, run, step_bounds u.hash_strength_delta)
  follow-IsTuned still e = t

  judged-IsTuned : (v : Uksm) → SameButCounters u v → IsTuned v
  judged-IsTuned v e = rw e (record { strength = t.strength; delta = t.delta; points = t.points })

  judged-IsMeasured : (v : Uksm) → SameButCounters u v → IsMeasured v
  judged-IsMeasured v e = rw e (record { scanned = m.scanned; pos = m.pos; neg = m.neg })

pub Probes-HasPoints :
    (state : RshashStates) (s : RshashState)
    → (state ≡ rshash_trydown) ⊎ (state ≡ rshash_tryup)
    → Probes state s
    → HasPoints s
Probes-HasPoints state s e h = ground arith

note_down-HasPoints :
    (benefit strength : ℕ) (s : RshashState)
    → InRange strength
    → HasPoints s
    → HasPoints (note_down benefit strength (open_window s))
      × ((note_down benefit strength (open_window s)).state ≡ s.state)
unfolding note_down open_window
note_down-HasPoints benefit strength s r h = ground arith

note_up-HasPoints :
    (benefit strength : ℕ) (s : RshashState)
    → InRange strength
    → HasPoints s
    → HasPoints (note_up benefit strength (open_window s))
      × ((note_up benefit strength (open_window s)).state ≡ s.state)
unfolding note_up open_window
note_up-HasPoints benefit strength s r h = ground arith

end_down-IsTuned : (u : Uksm) → IsTuned u → HasPoints u.rshash_state → IsTuned (end_down u)
unfolding end_down
end_down-IsTuned u t h = ground (arith, step_bounds 0)

end_up-IsTuned : (u : Uksm) → IsTuned u → HasPoints u.rshash_state → IsTuned (end_up u)
unfolding end_up
end_up-IsTuned u t h = ground arith

pub probe_ends-same :
    (wanted : RshashDirect → Bool) (limit : ℕ) (u : Uksm)
    → IsMeasured u
    → Ensures (probe_ends wanted limit u) λ r. SameButCounters u r.0
unfolding probe_ends
probe_ends-same wanted limit u m =
    ground (arith, judge_rshash_direction_same u m.scanned m.pos m.neg)

-- A probe that ends or goes on, both in range, is in range.
module _ (u : Uksm) (m : IsMeasured u) (t : IsTuned u) (s : RshashState) (h : HasPoints s)
    (probing : (s.state ≡ rshash_trydown) ⊎ (s.state ≡ rshash_tryup)) where
  abbrev probed : Uksm
  probed = record u { rshash_state = s }

  probed-IsTuned : IsTuned probed
  probed-IsTuned = record { strength = t.strength; delta = t.delta; points = ground arith }

  probe-IsTuned :
      (wanted : RshashDirect → Bool) (limit : ℕ) (ended step : Uksm → Uksm)
      → ((v : Uksm) → IsTuned v → HasPoints v.rshash_state → IsTuned (ended v))
      → ((v : Uksm) → IsTuned v → IsTuned (step v))
      → Ensures
          (probe_ends wanted limit probed >>= λ r. ok (if r.1 then ended r.0 else step r.0))
          IsTuned
  probe-IsTuned wanted limit ended step keeps keeps' =
      Ensures-bind (probe_ends wanted limit probed) _ (λ r. SameButCounters probed r.0) IsTuned
        (probe_ends-same wanted limit probed
          (record { scanned = m.scanned; pos = m.pos; neg = m.neg }))
        (λ r same.
          let tuned =
            judged-IsTuned probed (record { scanned = m.scanned; pos = m.pos; neg = m.neg })
              probed-IsTuned r.0 same in
          let points : HasPoints r.0.rshash_state = rw same h in
          ground (arith, keeps r.0 tuned points, keeps' r.0 tuned))

module _ (u : Uksm) (m : IsMeasured u) (t : IsTuned u) where
  adjust_state-IsTuned :
      (state : RshashStates) → u.rshash_state.state ≡ state → Ensures (adjust_state state u) IsTuned
  unfolding adjust_state
  adjust_state-IsTuned rshash_still e =
      Ensures-bind (judge_rshash_direction u) _ (λ r. SameButCounters u r.0) IsTuned
        (judge_rshash_direction_same u m.scanned m.pos m.neg)
        (λ r same.
          follow-IsTuned r.0 (judged-IsMeasured u m t r.0 same) (judged-IsTuned u m t r.0 same) r.1
            (ground arith))
  adjust_state-IsTuned rshash_trydown e =
      let (benefit, run, _) = get_current_benefit_lem u.benefit m.scanned in
      let (h, same) =
        note_down-HasPoints benefit u.hash_strength u.rshash_state t.strength
          (Probes-HasPoints _ u.rshash_state (inl e) t.points) in
      rw run (
        probe-IsTuned u m t (note_down benefit u.hash_strength (open_window u.rshash_state)) h
          (inl (same ∙ e)) is_go_up 1 end_down step_down end_down-IsTuned step_down-IsTuned)
  adjust_state-IsTuned rshash_tryup e =
      let (benefit, run, _) = get_current_benefit_lem u.benefit m.scanned in
      let (h, same) =
        note_up-HasPoints benefit u.hash_strength u.rshash_state t.strength
          (Probes-HasPoints _ u.rshash_state (inr e) t.points) in
      rw run (
        probe-IsTuned u m t (note_up benefit u.hash_strength (open_window u.rshash_state)) h
          (inr (same ∙ e)) is_go_down hash_strength_max end_up step_up end_up-IsTuned
          step_up-IsTuned)
  adjust_state-IsTuned rshash_new e =
      let (benefit, run, _) = get_current_benefit_lem u.benefit m.scanned in ground (arith, run)
  adjust_state-IsTuned rshash_pre_still e =
      let (benefit, run, _) = get_current_benefit_lem u.benefit m.scanned in ground (arith, run)

pub encode_benefit-IsTuned :
    (u v : Uksm) (encoded : Bool) → IsTuned u → encode_benefit u ≡ ok (v, encoded) → IsTuned v
unfolding encode_benefit
encode_benefit-IsTuned u v encoded t run = ground arith

pub adjusted-IsTuned :
    (u v : Uksm) (encoded : Bool)
    → IsTuned u
    → encode_benefit u ≡ ok (v, encoded)
    → Ensures (adjust_strength u) λ r. IsTuned r.0
unfolding adjust_strength reset_benefit
adjusted-IsTuned u v false t run = rw run (encode_benefit-IsTuned u v false t run)
adjusted-IsTuned u v true t run =
    let (pos, neg, scanned, _) = encode_benefit-IsCounters u v run in
    rw run (
      Ensures-bind (adjust_state v.rshash_state.state v) _ IsTuned (λ r. IsTuned r.0)
        (adjust_state-IsTuned v (record { scanned = scanned; pos = pos; neg = neg })
          (encode_benefit-IsTuned u v true t run) v.rshash_state.state refl)
        (λ w tuned. record {
          strength = tuned.strength;
          delta = tuned.delta;
          points = tuned.points;
        }))

-- A strength from 1 to HASH_STRENGTH_MAX, a step exponent up to HASH_STRENGTH_DELTA_MAX and, while a
-- probe runs, its three points from 1 to HASH_STRENGTH_MAX are kept by every round of
-- `rshash_adjust`, whatever was counted. And every round in which `encode_benefit` ends does end, up
-- to the rebuild of the tree: no measure divides by zero.
pub adjust_strength-IsTuned :
    (u v : Uksm) (encoded : Bool)
    → IsTuned u
    → encode_benefit u ≡ ok (v, encoded)
    → Returns (adjust_strength u) λ r. IsTuned r.0
adjust_strength-IsTuned u v encoded t run =
    Returns-Ensures (adjust_strength u) _ (adjusted-IsTuned u v encoded t run)
