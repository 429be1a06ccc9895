-- ===== src/DirtPages/Strength.antt =====
-- dirtPages.c, section 13, first part: the changes of `hash_strength`, the measures of benefit, and
-- the direction that they suggest. `unsigned long` is 64 bits wide.
pub mod Measures
pub mod Direction
use random_c_code_snippets_b.Prelude.{
  ℕ, ◌+◌, ◌-◌, ◌*◌, ◌/◌, ◌^◌, Bool, true, false, ◌||◌, ◌==◌, ltb, leb, if◌then◌else◌, bit_and, Run,
  ok, fault, division_by_zero, ◌>>=◌,
}
use random_c_code_snippets_b.Word.{u64}
use random_c_code_snippets_b.DirtPages.{
  UksmBenefit, RshashDirect, go_up, go_down, obscure, still, Uksm, u64_max, hash_strength_max,
  hash_strength_delta_max,
}

unfoldable pub inc_hash_strength : ℕ → Uksm → Uksm
inc_hash_strength delta u =
    let raised = u64 (u.hash_strength + 2 ^ delta) in
    record u { hash_strength = if ltb hash_strength_max raised then hash_strength_max else raised }

unfoldable pub dec_hash_strength : ℕ → Uksm → Uksm
dec_hash_strength delta u =
    let change = 2 ^ delta in
    record u {
      hash_strength = if leb u.hash_strength (change + 1) then 1 else u.hash_strength - change;
    }

unfoldable pub inc_hash_strength_delta : Uksm → Uksm
inc_hash_strength_delta u =
    let raised = u64 (u.hash_strength_delta + 1) in
    record u {
      hash_strength_delta =
          if ltb hash_strength_delta_max raised then hash_strength_delta_max else raised;
    }

-- `div64_u64`
abbrev pub div64_u64 : ℕ → ℕ → Run ℕ
div64_u64 a b = if b == 0 then fault division_by_zero else ok (a / b)

unfoldable pub get_current_neg_ratio : UksmBenefit → Run ℕ
get_current_neg_ratio benefit =
    let pos = benefit.pos in
    let neg = benefit.neg in
    if neg == 0 then ok 0 else if pos == 0 || ltb pos neg then ok 100 else do
      limit ← div64_u64 u64_max 100
      if ltb limit neg
          then (do scaled ← div64_u64 pos 100; div64_u64 neg scaled)
          else div64_u64 (u64 (neg * 100)) pos

unfoldable pub get_current_benefit : UksmBenefit → Run ℕ
get_current_benefit benefit =
    if ltb benefit.pos benefit.neg
    then ok 0
    else div64_u64 (benefit.pos - benefit.neg) benefit.scanned

-- The part of `judge_rshash_direction` behind `current_benefit`.
unfoldable pub judge_benefit : ℕ → Uksm → Run (Uksm × RshashDirect)
judge_benefit current_benefit u =
    let stable_benefit = u.rshash_state.stable_benefit in
    if stable_benefit == 0 then ok (record u { rshash_cont_obscure = 0 }, obscure) else do
      let change =
          if ltb stable_benefit current_benefit
          then current_benefit - stable_benefit
          else if ltb current_benefit stable_benefit
          then stable_benefit - current_benefit
          else 0
      delta ← div64_u64 (u64 (100 * change)) stable_benefit
      if ltb 50 delta
          then (let count = u64 (u.rshash_cont_obscure + 1) in
              ok (record u { rshash_cont_obscure = count }, if ltb 2 count then obscure else still))
          else ok (record u { rshash_cont_obscure = 0 }, still)

unfoldable pub judge_rshash_direction : Uksm → Run (Uksm × RshashDirect)
unfolding judge_benefit
judge_rshash_direction u =
    if bit_and u.fully_scanned_round 0xff == 10
    then ok (record u { rshash_cont_obscure = 0 }, obscure)
    else do
      current_neg_ratio ← get_current_neg_ratio u.benefit
      if current_neg_ratio == 0
          then (let count = u64 (u.rshash_neg_cont_zero + 1) in
              ok
                (record u { rshash_neg_cont_zero = count }, if ltb 2 count then go_down else still))
          else (let v = record u { rshash_neg_cont_zero = 0 } in
              if ltb 90 current_neg_ratio
              then ok (record v { rshash_cont_obscure = 0 }, go_up)
              else (do
                current_benefit ← get_current_benefit v.benefit
                judge_benefit current_benefit v))
