-- ===== src/DirtPages/Hashing.antt =====
-- dirtPages.c, sections 8, 10 and 12, and the table of zero-page hashes of section 14: the hash of a
-- page with its cost, the full-strength hash, and the verdict on a page whose hash met another.
-- A `struct page` is its words; `kmap_atomic` gives them. The build is that of CONFIG_X86_64.
pub mod Accounts
pub mod Collision
pub mod ZeroPage
use Prim.Native.Nat.{Ordering}
use random_c_code_snippets_b.Prelude.{
  ℕ, zero, suc, ◌+◌, ◌-◌, List, [], ◌∷◌, ◌++◌, Bool, true, false, ◌==◌, ltb, if◌then◌else◌, Run, ok,
  read, ◌>>=◌, replicate,
}
use random_c_code_snippets_b.Word.{u64}
use random_c_code_snippets_b.DirtPages.{
  Page, Uksm, RmapItem, MergeErr, merge_err_colli, merge_err_changed, page_size, hash_strength_full,
  hash_strength_max,
}
use random_c_code_snippets_b.DirtPages.Memory.{memcmpx86_64, is_full_zero_64}
use random_c_code_snippets_b.DirtPages.Sample.{random_sample_hash, delta_hash}
use random_c_code_snippets_b.DirtPages.Benefit.{inc_rshash_pos, inc_rshash_neg}

unfoldable pub page_hash : Page → ℕ → Bool → Uksm → Run (Uksm × ℕ)
page_hash page hash_strength cost_accounting u = do
  val ← random_sample_hash u.random_nums page hash_strength
  if cost_accounting
      then (do
        let delta =
            if ltb hash_strength hash_strength_full then hash_strength_full - hash_strength else 0
        v ← inc_rshash_pos delta u
        ok (v, val))
      else ok (u, val)

-- The value of `page_hash_max` from that of `delta_hash`: 0 is kept for "not computed".
abbrev pub nonzero : ℕ → ℕ
nonzero hash_max = if hash_max == 0 then 1 else hash_max

unfoldable pub page_hash_max : Page → ℕ → Uksm → Run (Uksm × ℕ)
page_hash_max page hash_old u = do
  hash_max ← delta_hash u.random_nums page u.hash_strength hash_strength_max hash_old
  v ← inc_rshash_neg (hash_strength_max - u.hash_strength) u
  ok (v, nonzero hash_max)

unfoldable pub memcmp_pages_with_cost : Page → Page → Bool → Uksm → Run (Uksm × Ordering)
memcmp_pages_with_cost page1 page2 cost_accounting u = do
  ret ← memcmpx86_64 page1 page2 page_size
  if cost_accounting then (do v ← inc_rshash_neg u.memcmp_cost u; ok (v, ret)) else ok (u, ret)

-- `!ret`
abbrev pub is_zero : Ordering → Bool
is_zero Ordering.lt = false
is_zero Ordering.eq = true
is_zero Ordering.gt = false

unfoldable pub pages_identical_with_cost : Page → Page → Uksm → Run Bool
unfolding memcmp_pages_with_cost
pages_identical_with_cost page1 page2 u = do
  (_, ret) ← memcmp_pages_with_cost page1 page2 false u
  ok (is_zero ret)

-- `flag` is the processor's zero flag before the call.
unfoldable pub is_page_full_zero : Bool → Page → Run Bool
is_page_full_zero flag page = is_full_zero_64 flag page page_size

unfoldable pub find_zero_page_hash : ℕ → ℕ → Uksm → Run Bool
find_zero_page_hash strength hash u = do entry ← read u.zero_hash_table strength; ok (entry == hash)

-- `if (new_val > node_val) return 1; ...`: `gt`, `lt` and `eq` stand for 1, -1 and 0.
unfoldable pub hash_cmp : ℕ → ℕ → Ordering
hash_cmp new_val node_val =
    if ltb node_val new_val
    then Ordering.gt
    else if ltb new_val node_val
    then Ordering.lt
    else Ordering.eq

unfoldable pub rmap_item_hash_max : RmapItem → ℕ → Uksm → Run (Uksm × RmapItem × ℕ)
rmap_item_hash_max item hash u =
    if item.hash_max == 0
    then (do
      (v, hash_max) ← page_hash_max item.page hash u
      ok (v, record item { hash_max = hash_max }, hash_max))
    else ok (u, item, item.hash_max)

unfoldable pub check_collision : RmapItem → ℕ → Uksm → Run (Uksm × MergeErr)
check_collision rmap_item hash u =
    if rmap_item.hash_max == 0
    then (do
      v ← inc_rshash_neg (u64 (u.memcmp_cost + u.hash_strength)) u
      (w, now) ← page_hash rmap_item.page v.hash_strength false v
      ok (w, if now == hash then merge_err_colli else merge_err_changed))
    else (do
      v ← inc_rshash_neg u.memcmp_cost u
      w ← inc_rshash_neg (hash_strength_max - v.hash_strength) v
      (x, now) ← page_hash_max rmap_item.page hash w
      ok (x, if rmap_item.hash_max == now then merge_err_colli else merge_err_changed))

-- The loop of `init_zeropage_hash_table` at `i`, with `left` rounds to go.
unfoldable pub zero_hashes : ℕ → ℕ → Page → Uksm → Run (List ℕ)
zero_hashes zero i page u = ok []
zero_hashes (suc left) i page u = do
  (_, hash) ← page_hash page i false u
  rest ← zero_hashes left (i + 1) page u
  ok (hash ∷ rest)

-- The results of the functions of section 14.
pub data InitResult : Type 0 where
  success enomem : InitResult

-- `page_ok` and `table_ok` say whether `alloc_page` and `kmalloc_array` succeed.
unfoldable pub init_zeropage_hash_table : Bool → Bool → Uksm → Run (Uksm × InitResult)
unfolding zero_hashes
init_zeropage_hash_table page_ok table_ok u =
    if page_ok
    then if table_ok
      then (do
        table ← zero_hashes hash_strength_max 0 (replicate hash_strength_full 0) u
        ok (record u { zero_hash_table = table }, success))
      else ok (record u { zero_hash_table = [] }, enomem)
    else ok (u, enomem)
