-- ===== src/DirtPages.antt =====
-- dirtPages.c: the constants of section 2, the structs and enums of section 3 and the globals of
-- section 4 that the dirty-page detection keeps. PAGE_SIZE is the 4096 of x86.
pub mod Sample
pub mod Memory
pub mod Benefit
pub mod Hashing
pub mod Rbtree
pub mod Strength
pub mod WriteProtect
pub mod StableTree
pub mod Adjust
pub mod Init
use random_c_code_snippets_b.Prelude.{ℕ, ◌+◌, ◌-◌, ◌/◌, ◌*◌, ◌^◌, List, Bool, ltb}

abbrev pub page_size : ℕ
page_size = 4096

-- The number of u32 words in a page.
abbrev pub hash_strength_full : ℕ
hash_strength_full = page_size / 4

abbrev pub hash_strength_max : ℕ
hash_strength_max = hash_strength_full + 10

abbrev pub hash_strength_delta_max : ℕ
hash_strength_delta_max = 5

abbrev pub shiftl : ℕ
shiftl = 8

abbrev pub shiftr : ℕ
shiftr = 12

abbrev pub u64_max : ℕ
u64_max = 2 ^ 64 - 1

abbrev pub can_overflow_u64 : ℕ → ℕ → Bool
can_overflow_u64 x delta = ltb (u64_max - x) delta

-- The u32 words of a mapped page.
abbrev pub Page : Type 0
Page = List ℕ

pub record UksmBenefit : Type 0 where
  pub pos : ℕ
  pub neg : ℕ
  pub scanned : ℕ
  pub base : ℕ

pub data RshashStates : Type 0 where
  rshash_still rshash_tryup rshash_trydown rshash_new rshash_pre_still : RshashStates

pub data RshashDirect : Type 0 where
  go_up go_down obscure still : RshashDirect

-- The anonymous struct of the global `rshash_state`.
pub record RshashState : Type 0 where
  pub state : RshashStates
  pub pre_direct : RshashDirect
  pub below_count : ℕ
  pub lookup_window_index : ℕ
  pub stable_benefit : ℕ
  pub turn_point_down : ℕ
  pub turn_benefit_down : ℕ
  pub turn_point_up : ℕ
  pub turn_benefit_up : ℕ
  pub stable_point : ℕ

-- The global variables.
pub record Uksm : Type 0 where
  pub random_nums : List ℕ
  pub hash_strength : ℕ
  pub hash_strength_delta : ℕ
  pub rshash_pos : ℕ
  pub rshash_neg : ℕ
  pub benefit : UksmBenefit
  pub memcmp_cost : ℕ
  pub rshash_neg_cont_zero : ℕ
  pub rshash_cont_obscure : ℕ
  pub rshash_state : RshashState
  pub uksm_pages_scanned : ℕ
  pub uksm_pages_scanned_last : ℕ
  pub pages_scanned_stored : ℕ
  pub pages_scanned_base : ℕ
  pub fully_scanned_round : ℕ
  pub zero_hash_table : List ℕ

-- Codes of section 2 that `check_collision` returns.
pub data MergeErr : Type 0 where
  merge_err_pgerr merge_err_colli merge_err_colli_max merge_err_changed : MergeErr

-- The fields of `struct rmap_item` that the hashing of an item in the unstable tree uses.
pub record RmapItem : Type 0 where
  pub page : Page
  pub hash_max : ℕ
