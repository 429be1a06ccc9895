-- ===== src/Tests/Hashing.antt =====
-- Examples of the hashing of pages of dirtPages.c.
use random_c_code_snippets_b.Prelude.{
  ℕ, ◌≡◌, ◌≢◌, ◌↔◌, inl, refl, ap, ◌∙◌, arith, true, false, ok, fault, out_of_bounds, Returns,
  get_or, set, ◌==◌, if◌then◌else◌, List, [], ◌∷◌,
}
use Prim.{tt}
use Prim.Native.Nat.{Ordering}
use random_c_code_snippets_b.DirtPages.{
  RmapItem, merge_err_colli, merge_err_changed, hash_strength_max,
}
use random_c_code_snippets_b.DirtPages.Sample.{mix, unmix, random_sample_hash, delta_hash}
use random_c_code_snippets_b.DirtPages.Sample.Mix.{unmix-mix}
use random_c_code_snippets_b.DirtPages.Sample.Delta.{sample, delta_hash-random_sample_hash}
use random_c_code_snippets_b.DirtPages.Sample.Detect.{random_sample_hash-set_ne}
use random_c_code_snippets_b.DirtPages.Hashing.{
  check_collision, rmap_item_hash_max, nonzero, success, init_zeropage_hash_table,
  find_zero_page_hash,
}
use random_c_code_snippets_b.DirtPages.Hashing.Collision.{
  check_collision_unchanged, check_collision_changed, rmap_item_hash_max-check_collision,
}
use random_c_code_snippets_b.DirtPages.Hashing.ZeroPage.{
  zero_page, find_zero_page_hash-zero_page, find_zero_page_hash-hash_strength_max, zero_page-IsPage,
}
use random_c_code_snippets_b.DirtPages.Memory.{
  memcmpx86_32, memcmpx86_64, is_full_zero_32, is_full_zero_64, is_full_zero_generic,
}
use random_c_code_snippets_b.DirtPages.Memory.Agreement.{AllZero, memcmpx86_lem, is_full_zero_lem}
use random_c_code_snippets_b.DirtPages.Init.{filled_word, filled_page}
use random_c_code_snippets_b.Tests.{
  table, table_at, table-IsTable, table-IsDistinct, page, page-IsPage, sampling,
}

unmix-mix_example : unmix (mix 0xdeadbeef 0x12345678) 0x12345678 ≡ 0xdeadbeef
unmix-mix_example = unmix-mix 0xdeadbeef 0x12345678 (omega arith) (omega arith)

delta_hash-random_sample_hash_example : Returns (random_sample_hash table page 256) λ old.
    Returns (random_sample_hash table page 1034) λ new. delta_hash table page 256 1034 old ≡ ok new
delta_hash-random_sample_hash_example =
    delta_hash-random_sample_hash table-IsTable page-IsPage 256 1034 (omega arith) (omega arith)

-- The word that position 3 of the table selects.
third_word : (v : ℕ) → v ≡ 9 → v ≢ get_or page (get_or table 3 0) 0
unfolding page filled_page
third_word v e same =
    let three = table_at 3 (omega arith) in
    let moved = ap (λ q. get_or page q 0) three in
    let old : get_or page 3 0 ≡ filled_word 7 = refl in
    let seven : v ≡ filled_word 7 = same ∙ moved ∙ old in omega arith

random_sample_hash-set_ne_example :
    Returns
      (random_sample_hash table page 256)
      λ old. Returns (random_sample_hash table (set page (get_or table 3 0) 9) 256) λ new. old ≢ new
random_sample_hash-set_ne_example =
    random_sample_hash-set_ne table-IsTable page-IsPage 256 9 (omega arith) (omega arith)
      table-IsDistinct 3 (omega arith) (third_word 9 refl)

abbrev item : RmapItem
item = record { page = page; hash_max = 0 }

check_collision_unchanged_example :
    check_collision item (sample table page 256) sampling
    ≡ ok (record sampling { rshash_neg = 3356 }, merge_err_colli)
check_collision_unchanged_example =
    check_collision_unchanged sampling item table-IsTable page-IsPage (omega arith, omega arith)
      (inl refl)

check_collision_changed_example :
    Returns
      (check_collision
        (record { page = set page (get_or table 3 0) 9; hash_max = 0 })
        (sample table page 256)
        sampling)
      λ r. r.1 ≡ merge_err_changed
check_collision_changed_example =
    check_collision_changed sampling page 3 9 table-IsTable table-IsDistinct page-IsPage
      (omega arith, omega arith) (omega arith) (omega arith) (omega arith) (third_word 9 refl)

rmap_item_hash_max-check_collision_example :
    Returns (rmap_item_hash_max item (sample table page 256) sampling) λ r.
      let (v, cached, hash_max) = r in
      (hash_max ≢ 0)
      × (cached ≡ record item { hash_max = hash_max })
      × (Returns
          (check_collision (record cached { page = zero_page }) (sample table zero_page 256) v)
          λ s. s.1 ≡ (
            if hash_max == nonzero (sample table zero_page hash_strength_max)
            then merge_err_colli
            else merge_err_changed))
rmap_item_hash_max-check_collision_example =
    rmap_item_hash_max-check_collision sampling item zero_page table-IsTable page-IsPage
      zero_page-IsPage (omega arith, omega arith) refl

find_zero_page_hash-zero_page_example :
    Returns
      (init_zeropage_hash_table true true sampling)
      λ r. (r.1 ≡ success) × (find_zero_page_hash 256 (sample table zero_page 256) r.0 ≡ ok true)
find_zero_page_hash-zero_page_example =
    find_zero_page_hash-zero_page sampling table-IsTable 256 (omega arith)

find_zero_page_hash-hash_strength_max_example :
    Returns
      (init_zeropage_hash_table true true sampling)
      λ r. find_zero_page_hash hash_strength_max 77 r.0 ≡ fault out_of_bounds
find_zero_page_hash-hash_strength_max_example =
    find_zero_page_hash-hash_strength_max sampling table-IsTable 77

abbrev first_words : List ℕ
first_words = 1 ∷ 2 ∷ []

abbrev second_words : List ℕ
second_words = 1 ∷ 3 ∷ []

memcmpx86_lem_example :
    (Returns
      (memcmpx86_32 first_words second_words 8)
      λ r. (r ≡ Ordering.eq) ↔ (first_words ≡ second_words))
    × (Returns
        (memcmpx86_64 first_words second_words 8)
        λ r. (r ≡ Ordering.eq) ↔ (first_words ≡ second_words))
memcmpx86_lem_example =
    memcmpx86_lem 1 refl refl (omega arith, (omega arith, tt)) (omega arith, (omega arith, tt))

is_full_zero_lem_example :
    (Returns (is_full_zero_32 false (0 ∷ 5 ∷ []) 8) λ r. (r ≡ true) ↔ AllZero (0 ∷ 5 ∷ []))
    × (Returns (is_full_zero_64 false (0 ∷ 5 ∷ []) 8) λ r. (r ≡ true) ↔ AllZero (0 ∷ 5 ∷ []))
    × (Returns (is_full_zero_generic (0 ∷ 5 ∷ []) 8) λ r. (r ≡ true) ↔ AllZero (0 ∷ 5 ∷ []))
is_full_zero_lem_example = is_full_zero_lem false 1 (0 ∷ 5 ∷ []) (omega arith) refl
