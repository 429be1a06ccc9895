-- ===== src/DirtPages/Benefit.antt =====
-- dirtPages.c, sections 7 and 9: the running counters of saved and wasted work, their transfer into
-- the scaled long-term `benefit`, and the counter of scanned pages.
pub mod Scale
pub mod Counters
use random_c_code_snippets_b.Prelude.{
  ℕ, ◌+◌, ◌-◌, ◌/◌, ◌^◌, Bool, true, false, ◌||◌, ◌==◌, if◌then◌else◌, Run, ok, fault, bug, ◌>>=◌,
}
use random_c_code_snippets_b.Word.{u64, sub64}
use random_c_code_snippets_b.DirtPages.{UksmBenefit, Uksm, can_overflow_u64, u64_max}

-- The branch of `encode_benefit` that halves the counters, and the three sums after it.
unfoldable pub accumulate : UksmBenefit → ℕ → ℕ → ℕ → UksmBenefit
accumulate b pos_delta neg_delta scanned_delta =
    if can_overflow_u64 b.pos pos_delta
      || (can_overflow_u64 b.neg neg_delta || can_overflow_u64 b.scanned scanned_delta)
    then record {
      pos = u64 (b.pos / 2 + pos_delta / 2);
      neg = u64 (b.neg / 2 + neg_delta / 2);
      scanned = u64 (b.scanned / 2 + scanned_delta / 2);
      base = u64 (b.base + 1);
    }
    else record {
      pos = u64 (b.pos + pos_delta);
      neg = u64 (b.neg + neg_delta);
      scanned = u64 (b.scanned + scanned_delta);
      base = b.base;
    }

-- The `benefit` that `encode_benefit` stores.
unfoldable pub encoded : Uksm → UksmBenefit
encoded u =
    let base = u.benefit.base in
    let scanned_delta = sub64 u.uksm_pages_scanned u.uksm_pages_scanned_last in
    accumulate u.benefit (u.rshash_pos / 2 ^ base) (u.rshash_neg / 2 ^ base)
      (scanned_delta / 2 ^ base)

-- The state after the transfer.
abbrev pub drained : Uksm → Uksm
drained u = record u {
  benefit = encoded u;
  rshash_pos = 0;
  rshash_neg = 0;
  uksm_pages_scanned_last = u.uksm_pages_scanned;
}

-- `false` is the return of 0, `true` of 1.
unfoldable pub encode_benefit : Uksm → Run (Uksm × Bool)
encode_benefit u =
    if sub64 u.uksm_pages_scanned u.uksm_pages_scanned_last == 0
    then ok (u, false)
    else if (encoded u).scanned == 0
    then fault bug
    else ok (drained u, true)

unfoldable pub reset_benefit : Uksm → Uksm
reset_benefit u = record u { benefit = record { pos = 0; neg = 0; scanned = 0; base = 0 } }

-- The call of `encode_benefit` whose result is not used.
unfoldable pub encode_if : Bool → Uksm → Run Uksm
encode_if overflows u =
    if overflows then (do (encoded_u, _) ← encode_benefit u; ok encoded_u) else ok u

unfoldable pub inc_rshash_pos : ℕ → Uksm → Run Uksm
unfolding encode_if
inc_rshash_pos delta u = do
  v ← encode_if (can_overflow_u64 u.rshash_pos delta) u
  ok (record v { rshash_pos = u64 (v.rshash_pos + delta) })

unfoldable pub inc_rshash_neg : ℕ → Uksm → Run Uksm
unfolding encode_if
inc_rshash_neg delta u = do
  v ← encode_if (can_overflow_u64 u.rshash_neg delta) u
  ok (record v { rshash_neg = u64 (v.rshash_neg + delta) })

-- The part of `inc_uksm_pages_scanned` that keeps the count of a full counter.
unfoldable pub store_scanned : Uksm → Uksm
store_scanned u =
    let delta = u.uksm_pages_scanned / 2 ^ u.pages_scanned_base in
    if can_overflow_u64 u.pages_scanned_stored delta
    then record u {
      pages_scanned_stored = u64 (u.pages_scanned_stored / 2 + delta / 2);
      pages_scanned_base = u64 (u.pages_scanned_base + 1);
      uksm_pages_scanned = 0;
      uksm_pages_scanned_last = 0;
    }
    else record u {
      pages_scanned_stored = u64 (u.pages_scanned_stored + delta);
      uksm_pages_scanned = 0;
      uksm_pages_scanned_last = 0;
    }

unfoldable pub inc_uksm_pages_scanned : Uksm → Run Uksm
unfolding encode_if store_scanned
inc_uksm_pages_scanned u = do
  let full = u.uksm_pages_scanned == u64_max
  v ← encode_if full u
  let w = if full then store_scanned v else v
  ok (record w { uksm_pages_scanned = u64 (w.uksm_pages_scanned + 1) })
