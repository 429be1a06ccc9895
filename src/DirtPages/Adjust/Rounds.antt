-- ===== src/DirtPages/Adjust/Rounds.antt =====
-- dirtPages.c: the length of the probes of `rshash_adjust`.
use random_c_code_snippets_b.Prelude.{
  ℕ, zero, suc, ◌+◌, ◌-◌, ◌≤◌, ◌<◌, ◌≡◌, arith, Bool, true, ok, Ensures-ok, subst,
}
use random_c_code_snippets_b.DirtPages.{
  RshashStates, rshash_tryup, rshash_trydown, RshashState, Uksm, hash_strength_max,
}
use random_c_code_snippets_b.DirtPages.Benefit.{encode_benefit}
use random_c_code_snippets_b.DirtPages.Adjust.{adjust_strength}
use random_c_code_snippets_b.DirtPages.Adjust.Invariant.{IsTuned, adjusted-IsTuned}
use random_c_code_snippets_b.DirtPages.Adjust.Progress.{
  Move, settle, rest, probe, lower, turn, raise, choose, Moves, adjust_strength-Move,
}

-- Between two rounds the scanner changes counters, and not what `rshash_adjust` tunes.
pub record IsScan (u v : Uksm) : Type 0 where
  pub tuning : v.rshash_state ≡ u.rshash_state
  pub strength : v.hash_strength ≡ u.hash_strength
  pub delta : v.hash_strength_delta ≡ u.hash_strength_delta

-- `n` rounds of `rshash_adjust` with pages scanned, each of which leaves the state at `state`.
pub data Stays (state : RshashStates) (u : Uksm) : ℕ → Uksm → Type 0 where
  start : u.rshash_state.state ≡ state → Stays state u zero u
  round :
      {n : ℕ} {v : Uksm}
      → Stays state u n v
      → (scanned encoded w : Uksm) (changed : Bool) → IsScan v scanned
      → encode_benefit scanned ≡ ok (encoded, true)
      → adjust_strength scanned ≡ ok (w, changed)
      → w.rshash_state.state ≡ state
      → Stays state u (suc n) w

scan-IsTuned : {u v : Uksm} → IsScan u v → IsTuned u → IsTuned v
scan-IsTuned {u} {v} s t = record {
  strength = rw s.strength t.strength;
  delta = rw s.delta t.delta;
  points = rw s.tuning t.points;
}

Stays-IsTuned :
    {state : RshashStates} {u : Uksm} {n : ℕ} {v : Uksm} → IsTuned u → Stays state u n v → IsTuned v
Stays-IsTuned t (start e) = t
Stays-IsTuned t (round stays scanned encoded w changed scan run run' e) =
    Ensures-ok (adjust_strength scanned) (λ r. IsTuned r.0) (w, changed)
      (adjusted-IsTuned scanned encoded true (scan-IsTuned scan (Stays-IsTuned t stays)) run) run'

Stays-state :
    {state : RshashStates} {u : Uksm} {n : ℕ} {v : Uksm}
    → Stays state u n v
    → v.rshash_state.state ≡ state
Stays-state (start e) = e
Stays-state (round stays scanned encoded w changed scan run run' e) = e

Move-lower :
    {s s' : RshashState} {n n' : ℕ}
    → Move s n s' n'
    → s.state ≡ rshash_trydown
    → s'.state ≡ rshash_trydown
    → n' < n
Move-lower (lower p q h) e f = h
Move-lower (settle p q h) e f = ground arith
Move-lower (rest p q) e f = ground arith
Move-lower (probe p q h) e f = ground arith
Move-lower (turn p q h) e f = ground arith
Move-lower (raise p q h) e f = ground arith
Move-lower (choose p q) e f = ground arith

Move-raise :
    {s s' : RshashState} {n n' : ℕ}
    → Move s n s' n'
    → s.state ≡ rshash_tryup
    → s'.state ≡ rshash_tryup
    → n < n'
Move-raise (raise p q h) e f = h
Move-raise (settle p q h) e f = ground arith
Move-raise (rest p q) e f = ground arith
Move-raise (probe p q h) e f = ground arith
Move-raise (turn p q h) e f = ground arith
Move-raise (lower p q h) e f = ground arith
Move-raise (choose p q) e f = ground arith

Stays-Move :
    {state : RshashStates} {u : Uksm} {n : ℕ} {v : Uksm} (scanned encoded w : Uksm) (changed : Bool)
    → IsTuned u
    → Stays state u n v
    → IsScan v scanned
    → encode_benefit scanned ≡ ok (encoded, true)
    → adjust_strength scanned ≡ ok (w, changed)
    → Moves v w
Stays-Move {v} scanned encoded w changed t stays scan run run' =
    let move =
      adjust_strength-Move scanned encoded w changed (scan-IsTuned scan (Stays-IsTuned t stays)) run
        run' in
    subst (λ (s : RshashState). Move s v.hash_strength w.rshash_state w.hash_strength) scan.tuning
      (subst (λ (n : ℕ). Move scanned.rshash_state n w.rshash_state w.hash_strength) scan.strength
        move)

trydown_rounds :
    {u : Uksm} {n : ℕ} {v : Uksm}
    → IsTuned u
    → Stays rshash_trydown u n v
    → n + v.hash_strength ≤ u.hash_strength
trydown_rounds t (start e) = omega arith
trydown_rounds t (round stays scanned encoded w changed scan run run' e) = omega (
  arith,
  trydown_rounds t stays,
  Move-lower (Stays-Move scanned encoded w changed t stays scan run run') (Stays-state stays) e,
)

tryup_rounds :
    {u : Uksm} {n : ℕ} {v : Uksm}
    → IsTuned u
    → Stays rshash_tryup u n v
    → u.hash_strength + n ≤ v.hash_strength
tryup_rounds t (start e) = omega arith
tryup_rounds t (round stays scanned encoded w changed scan run run' e) = omega (
  arith,
  tryup_rounds t stays,
  Move-raise (Stays-Move scanned encoded w changed t stays scan run run') (Stays-state stays) e,
)

-- The probe downwards does not go on for ever, whatever is counted: from a tuned state, fewer
-- rounds with pages scanned than `hash_strength` stay in TRYDOWN.
pub probe_down_ends :
    (u v : Uksm) (n : ℕ) → IsTuned u → Stays rshash_trydown u n v → n < u.hash_strength
probe_down_ends u v n t stays =
    omega (arith, trydown_rounds t stays, (Stays-IsTuned t stays).strength)

-- The probe upwards does not go on for ever, whatever is counted: from a tuned state, at most
-- HASH_STRENGTH_MAX - hash_strength rounds with pages scanned stay in TRYUP.
pub probe_up_ends :
    (u v : Uksm) (n : ℕ)
    → IsTuned u
    → Stays rshash_tryup u n v
    → n ≤ hash_strength_max - u.hash_strength
probe_up_ends u v n t stays = omega (arith, tryup_rounds t stays, (Stays-IsTuned t stays).strength)
