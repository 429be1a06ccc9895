-- ===== src/Tests/Rounds.antt =====
-- Examples of `rshash_adjust` of dirtPages.c.
use random_c_code_snippets_b.Prelude.{◌-◌, ◌≤◌, ◌<◌, ◌≡◌, refl, arith, true, false, ok, Returns}
use random_c_code_snippets_b.DirtPages.{
  Uksm, rshash_still, rshash_trydown, rshash_tryup, hash_strength_max,
}
use random_c_code_snippets_b.DirtPages.Benefit.{reset_benefit, encode_benefit, encoded, accumulate}
use random_c_code_snippets_b.DirtPages.Strength.{
  judge_benefit, inc_hash_strength, dec_hash_strength, inc_hash_strength_delta,
  get_current_neg_ratio, judge_rshash_direction, get_current_benefit,
}
use random_c_code_snippets_b.DirtPages.Adjust.{
  adjust_strength, adjust_state, note_down, note_up, open_window, probe_ends, step_down, step_up,
}
use random_c_code_snippets_b.DirtPages.Adjust.Invariant.{IsTuned, adjust_strength-IsTuned}
use random_c_code_snippets_b.DirtPages.Adjust.Progress.{Moves, adjust_strength-Move}
use random_c_code_snippets_b.DirtPages.Adjust.Rounds.{
  start, round, IsScan, probe_down_ends, probe_up_ends,
}
use random_c_code_snippets_b.Tests.{busy, fresh, drained_fresh, fresh_encoded}

fresh-IsTuned : IsTuned fresh
fresh-IsTuned = ground arith

adjust_strength-IsTuned_example : Returns (adjust_strength fresh) λ r. IsTuned r.0
adjust_strength-IsTuned_example =
    adjust_strength-IsTuned fresh drained_fresh true fresh-IsTuned fresh_encoded

-- A probe downwards, before and after a round.
abbrev falling : Uksm
falling = busy rshash_trydown

abbrev fallen : Uksm
fallen = record drained_fresh {
  hash_strength = 254;
  hash_strength_delta = 2;
  rshash_cont_obscure = 1;
  benefit = record { pos = 0; neg = 0; scanned = 0; base = 0 };
  rshash_state = record falling.rshash_state {
    lookup_window_index = 1;
    turn_point_down = 256;
    turn_benefit_down = 84;
  };
}

falling-IsTuned : IsTuned falling
falling-IsTuned = ground arith

abbrev drained_falling : Uksm
drained_falling = record drained_fresh { rshash_state = falling.rshash_state }

falling_encoded : encode_benefit falling ≡ ok (drained_falling, true)
unfolding encode_benefit encoded accumulate
falling_encoded = refl

falling_adjusted : adjust_strength falling ≡ ok (fallen, true)
unfolding adjust_strength adjust_state get_current_benefit reset_benefit note_down open_window
    probe_ends judge_rshash_direction judge_benefit get_current_neg_ratio step_down
    dec_hash_strength inc_hash_strength_delta
falling_adjusted = rw falling_encoded refl

unscanned : (u : Uksm) → IsScan u u
unscanned u = record { tuning = refl; strength = refl; delta = refl }

probe_down_ends_example : 1 < 256
probe_down_ends_example = probe_down_ends falling fallen 1 falling-IsTuned (
    round (start refl) falling drained_falling fallen true (unscanned falling) falling_encoded
      falling_adjusted refl)

-- A probe upwards, before and after a round.
abbrev rising : Uksm
rising = busy rshash_tryup

abbrev risen : Uksm
risen = record drained_fresh {
  hash_strength = 258;
  hash_strength_delta = 2;
  rshash_cont_obscure = 1;
  benefit = record { pos = 0; neg = 0; scanned = 0; base = 0 };
  rshash_state = record rising.rshash_state {
    lookup_window_index = 1;
    turn_point_up = 256;
    turn_benefit_up = 84;
  };
}

rising-IsTuned : IsTuned rising
rising-IsTuned = ground arith

abbrev drained_rising : Uksm
drained_rising = record drained_fresh { rshash_state = rising.rshash_state }

rising_encoded : encode_benefit rising ≡ ok (drained_rising, true)
unfolding encode_benefit encoded accumulate
rising_encoded = refl

rising_adjusted : adjust_strength rising ≡ ok (risen, true)
unfolding adjust_strength adjust_state get_current_benefit reset_benefit note_up open_window
    probe_ends judge_rshash_direction judge_benefit get_current_neg_ratio step_up inc_hash_strength
    inc_hash_strength_delta
rising_adjusted = rw rising_encoded refl

probe_up_ends_example : 1 ≤ hash_strength_max - 256
probe_up_ends_example = probe_up_ends rising risen 1 rising-IsTuned (
    round (start refl) rising drained_rising risen true (unscanned rising) rising_encoded
      rising_adjusted refl)

-- `fresh`, after a round of `rshash_adjust`.
abbrev settled : Uksm
settled = record drained_fresh {
  hash_strength_delta = 0;
  benefit = record { pos = 0; neg = 0; scanned = 0; base = 0 };
  rshash_state = record fresh.rshash_state { stable_benefit = 84; state = rshash_still };
}

fresh_adjusted : adjust_strength fresh ≡ ok (settled, false)
unfolding adjust_strength adjust_state get_current_benefit reset_benefit
fresh_adjusted = rw fresh_encoded refl

adjust_strength-Move_example : Moves fresh settled
adjust_strength-Move_example =
    adjust_strength-Move fresh drained_fresh settled false fresh-IsTuned fresh_encoded
      fresh_adjusted
