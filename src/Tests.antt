-- ===== src/Tests.antt =====
-- Data for the examples of the child modules: a table of positions, a page, and states of the
-- dirty-page detection. No source code is modelled here.
mod Hashing
mod Tuning
mod Rounds
mod Setup
mod Blocks
mod Launch
mod Pages
mod Copies
mod StableTree
mod Protection
use random_c_code_snippets_b.Prelude.{
  ℕ, zero, suc, ◌+◌, ◌*◌, ◌^◌, ◌<◌, ◌≡◌, ◌≢◌, refl, sym, ap, ◌∙◌, arith, List, [], ◌∷◌, length,
  get_or, true, ok,
}
use random_c_code_snippets_b.DirtPages.{
  Page, Uksm, UksmBenefit, RshashState, RshashStates, rshash_new, rshash_trydown, rshash_tryup,
  go_up, RmapItem, hash_strength_full,
}
use random_c_code_snippets_b.DirtPages.Benefit.{encode_benefit, encoded, accumulate}
use random_c_code_snippets_b.DirtPages.Init.{filled_page}
use random_c_code_snippets_b.DirtPages.Init.Costs.{filled_page-IsPage}
use random_c_code_snippets_b.DirtPages.Sample.Positions.{IsTable, IsPage}
use random_c_code_snippets_b.DirtPages.Sample.Detect.{IsDistinct}

abbrev ascending : ℕ → ℕ → List ℕ
ascending zero i = []
ascending (suc n) i = i ∷ ascending n (i + 1)

length-ascending : (n i : ℕ) → length (ascending n i) ≡ n
length-ascending zero i = refl
length-ascending (suc n) i = ap suc (length-ascending n (i + 1))

get_or-ascending : (n i j : ℕ) → j < n → get_or (ascending n i) j 0 ≡ i + j
get_or-ascending zero i j h = absurd (omega arith)
get_or-ascending (suc n) i zero h = omega arith
get_or-ascending (suc n) i (suc j) h = get_or-ascending n (i + 1) j (omega arith) ∙ omega arith

unfoldable pub table : List ℕ
table = ascending hash_strength_full 0

pub table_at : (j : ℕ) → j < hash_strength_full → get_or table j 0 ≡ j
unfolding table
table_at j h = omega (arith, get_or-ascending hash_strength_full 0 j h)

pub table-IsTable : IsTable table
unfolding table
table-IsTable = record {
  entries = length-ascending hash_strength_full 0;
  inside = λ i h. omega (arith, get_or-ascending hash_strength_full 0 i h);
}

pub table-IsDistinct : IsDistinct table
table-IsDistinct i j p q e = sym (table_at i p) ∙ e ∙ table_at j q

unfoldable pub page : Page
page = filled_page 7

pub page-IsPage : IsPage page
unfolding page
page-IsPage = filled_page-IsPage 7 (omega arith)

abbrev pub state : RshashStates → RshashState
state s = record {
  state = s;
  pre_direct = go_up;
  below_count = 0;
  lookup_window_index = 0;
  stable_benefit = 20;
  turn_point_down = 256;
  turn_benefit_down = 20;
  turn_point_up = 256;
  turn_benefit_up = 20;
  stable_point = 256;
}

-- Some pages are scanned and some work is saved and wasted.
abbrev pub busy : RshashStates → Uksm
busy s = record {
  random_nums = [];
  hash_strength = 256;
  hash_strength_delta = 1;
  rshash_pos = 5000;
  rshash_neg = 100;
  benefit = record { pos = 1000; neg = 10; scanned = 20; base = 0 };
  memcmp_cost = 3000;
  rshash_neg_cont_zero = 0;
  rshash_cont_obscure = 0;
  rshash_state = state s;
  uksm_pages_scanned = 70;
  uksm_pages_scanned_last = 20;
  pages_scanned_stored = 3;
  pages_scanned_base = 2;
  fully_scanned_round = 1;
  zero_hash_table = [];
}

abbrev pub sampling : Uksm
sampling = record (busy rshash_new) { random_nums = table }

abbrev pub fresh : Uksm
fresh = busy rshash_new

-- `fresh`, after `encode_benefit`.
abbrev pub drained_fresh : Uksm
drained_fresh = record fresh {
  rshash_pos = 0;
  rshash_neg = 0;
  benefit = record { pos = 6000; neg = 110; scanned = 70; base = 0 };
  uksm_pages_scanned_last = 70;
}

pub fresh_encoded : encode_benefit fresh ≡ ok (drained_fresh, true)
unfolding encode_benefit encoded accumulate
fresh_encoded = refl
