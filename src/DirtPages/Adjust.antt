-- ===== src/DirtPages/Adjust.antt =====
-- dirtPages.c, section 13, second part: `rshash_adjust`, the state machine that adapts
-- `hash_strength` once in a scan round, up to the rebuild of the stable tree that ends the function.
pub mod Invariant
pub mod Progress
pub mod Rounds
pub mod Untouched
use random_c_code_snippets_b.Prelude.{
  ℕ, ◌+◌, ◌%◌, Bool, true, false, not, ◌||◌, ◌==◌, ltb, leb, if◌then◌else◌, Run, ok, ◌>>=◌,
}
use random_c_code_snippets_b.Word.{u8}
use random_c_code_snippets_b.DirtPages.{
  RshashStates, rshash_still, rshash_tryup, rshash_trydown, rshash_new, rshash_pre_still,
  RshashDirect, go_up, go_down, obscure, still, RshashState, Uksm, hash_strength_max,
}
use random_c_code_snippets_b.DirtPages.Benefit.{encode_benefit, reset_benefit}
use random_c_code_snippets_b.DirtPages.Strength.{
  inc_hash_strength, dec_hash_strength, inc_hash_strength_delta, get_current_benefit,
  judge_rshash_direction,
}

abbrev pub is_go_up : RshashDirect → Bool
is_go_up go_up = true
is_go_up go_down = false
is_go_up obscure = false
is_go_up still = false

abbrev pub is_go_down : RshashDirect → Bool
is_go_down go_up = false
is_go_down go_down = true
is_go_down obscure = false
is_go_down still = false

-- `inc_hash_strength(hash_strength_delta); inc_hash_strength_delta();`
unfoldable pub step_up : Uksm → Uksm
unfolding inc_hash_strength inc_hash_strength_delta
step_up u = inc_hash_strength_delta (inc_hash_strength u.hash_strength_delta u)

-- `dec_hash_strength(hash_strength_delta); inc_hash_strength_delta();`
unfoldable pub step_down : Uksm → Uksm
unfolding dec_hash_strength inc_hash_strength_delta
step_down u = inc_hash_strength_delta (dec_hash_strength u.hash_strength_delta u)

-- The inner switch of the case RSHASH_STILL.
unfoldable pub follow : RshashDirect → Uksm → Run Uksm
follow go_up u = do
  let turned = is_go_down u.rshash_state.pre_direct
  let v = step_up (record u { hash_strength_delta = if turned then 0 else u.hash_strength_delta })
  benefit ← get_current_benefit v.benefit
  ok (record v {
    rshash_state = record v.rshash_state { stable_benefit = benefit; pre_direct = go_up };
  })
follow go_down u = do
  let turned = is_go_up u.rshash_state.pre_direct
  let v = step_down (record u { hash_strength_delta = if turned then 0 else u.hash_strength_delta })
  benefit ← get_current_benefit v.benefit
  ok (record v {
    rshash_state = record v.rshash_state { stable_benefit = benefit; pre_direct = go_down };
  })
follow obscure u = do
  benefit ← get_current_benefit u.benefit
  ok (
      step_down (record u {
        rshash_state = record u.rshash_state {
          stable_point = u.hash_strength;
          turn_point_down = u.hash_strength;
          turn_point_up = u.hash_strength;
          turn_benefit_down = benefit;
          turn_benefit_up = benefit;
          lookup_window_index = 0;
          state = rshash_trydown;
        };
      }))
follow still u = ok u

-- `if (lookup_window_index++ % 5 == 0) below_count = 0;`
unfoldable pub open_window : RshashState → RshashState
open_window s = record s {
  lookup_window_index = u8 (s.lookup_window_index + 1);
  below_count = if s.lookup_window_index % 5 == 0 then 0 else s.below_count;
}

-- The test that ends a probe. The direction is judged only if it is reached.
unfoldable pub probe_ends : (RshashDirect → Bool) → ℕ → Uksm → Run (Uksm × Bool)
probe_ends wanted limit u = if leb 3 u.rshash_state.below_count then ok (u, true) else do
  (v, direction) ← judge_rshash_direction u
  ok (v, wanted direction || v.hash_strength == limit)

-- What the case RSHASH_TRYDOWN notes of the current benefit.
unfoldable pub note_down : ℕ → ℕ → RshashState → RshashState
note_down current_benefit hash_strength s =
    if ltb current_benefit s.stable_benefit
    then record s { below_count = u8 (s.below_count + 1) }
    else if ltb s.turn_benefit_down current_benefit
    then record s { turn_point_down = hash_strength; turn_benefit_down = current_benefit }
    else s

unfoldable pub note_up : ℕ → ℕ → RshashState → RshashState
note_up current_benefit hash_strength s =
    if ltb current_benefit s.turn_benefit_down
    then record s { below_count = u8 (s.below_count + 1) }
    else if ltb s.turn_benefit_up current_benefit
    then record s { turn_point_up = hash_strength; turn_benefit_up = current_benefit }
    else s

unfoldable pub end_down : Uksm → Uksm
unfolding step_up
end_down u =
    let v =
      step_up (record u { hash_strength = u.rshash_state.stable_point; hash_strength_delta = 0 }) in
    record v {
      rshash_state = record v.rshash_state { lookup_window_index = 0; state = rshash_tryup };
      hash_strength_delta = 0;
    }

unfoldable pub end_up : Uksm → Uksm
end_up u =
    let s = u.rshash_state in
    record u {
      hash_strength =
          if ltb s.turn_benefit_down s.turn_benefit_up then s.turn_point_up else s.turn_point_down;
      rshash_state = record s { state = rshash_pre_still };
    }

-- The outer switch.
unfoldable pub adjust_state : RshashStates → Uksm → Run Uksm
adjust_state rshash_still u = do (v, direction) ← judge_rshash_direction u; follow direction v
adjust_state rshash_trydown u = do
  current_benefit ← get_current_benefit u.benefit
  let s = note_down current_benefit u.hash_strength (open_window u.rshash_state)
  (v, ends) ← probe_ends is_go_up 1 (record u { rshash_state = s })
  ok (if ends then end_down v else step_down v)
adjust_state rshash_tryup u = do
  current_benefit ← get_current_benefit u.benefit
  let s = note_up current_benefit u.hash_strength (open_window u.rshash_state)
  (v, ends) ← probe_ends is_go_down hash_strength_max (record u { rshash_state = s })
  ok (if ends then end_up v else step_up v)
adjust_state rshash_new u = do
  benefit ← get_current_benefit u.benefit
  ok (record u {
    rshash_state = record u.rshash_state { stable_benefit = benefit; state = rshash_still };
    hash_strength_delta = 0;
  })
adjust_state rshash_pre_still u = do
  benefit ← get_current_benefit u.benefit
  ok (record u {
    rshash_state = record u.rshash_state { stable_benefit = benefit; state = rshash_still };
    hash_strength_delta = 0;
  })

-- `rshash_adjust` up to `stable_tree_delta_hash`; `true` says that `hash_strength` changed.
unfoldable pub adjust_strength : Uksm → Run (Uksm × Bool)
adjust_strength u = do
  (v, encoded) ← encode_benefit u
  if encoded
      then (do
        w ← adjust_state v.rshash_state.state v
        ok (reset_benefit w, not (u.hash_strength == w.hash_strength)))
      else ok (v, false)
