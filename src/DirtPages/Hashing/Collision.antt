-- ===== src/DirtPages/Hashing/Collision.antt =====
-- dirtPages.c, section 12: the verdicts and the costs of `check_collision`.
use random_c_code_snippets_b.Prelude.{
  ℕ, ◌+◌, ◌-◌, ◌*◌, ◌^◌, ◌≤◌, ◌<◌, ◌≡◌, ◌≢◌, ◌⊎◌, refl, arith, ◌==◌, if◌then◌else◌, ok, Returns,
  get_or, set,
}
use random_c_code_snippets_b.DirtPages.{
  Page, Uksm, RmapItem, merge_err_colli, merge_err_changed, hash_strength_full, hash_strength_max,
}
use random_c_code_snippets_b.DirtPages.Sample.Positions.{IsTable, IsPage}
use random_c_code_snippets_b.DirtPages.Sample.Delta.{sample}
use random_c_code_snippets_b.DirtPages.Sample.Detect.{IsDistinct, sample-set_ne, set-IsPage}
use random_c_code_snippets_b.DirtPages.Hashing.{nonzero, rmap_item_hash_max, check_collision}
use random_c_code_snippets_b.DirtPages.Hashing.Accounts.{
  inc_rshash_neg_room, page_hash_free, page_hash_max_lem,
}

-- What a check costs at most.
abbrev pub HasRoom : Uksm → Type 0
HasRoom u =
    (u.hash_strength ≤ hash_strength_max)
    × (u.rshash_neg + u.memcmp_cost + 2 * hash_strength_max < 2 ^ 64)

module _ (u : Uksm) (item : RmapItem) (table : IsTable u.random_nums) (page : IsPage item.page)
    (room : HasRoom u) where
  -- The check of an item with no cached full hash.
  check_collision_fresh :
      (hash : ℕ)
      → item.hash_max ≡ 0
      → check_collision item hash u
        ≡ ok (
          record u { rshash_neg = u.rshash_neg + (u.memcmp_cost + u.hash_strength) },
          if sample u.random_nums item.page u.hash_strength == hash
              then merge_err_colli
              else merge_err_changed,
        )
  unfolding check_collision
  check_collision_fresh hash e =
      let cost = u.memcmp_cost + u.hash_strength in
      let paid = record u { rshash_neg = u.rshash_neg + cost } in
      ground (
        arith,
        inc_rshash_neg_room cost u,
        page_hash_free paid item.page table page u.hash_strength,
      )

  check_collision_cached :
      item.hash_max ≢ 0
      → check_collision item (sample u.random_nums item.page u.hash_strength) u
        ≡ ok (
          record u {
            rshash_neg =
                u.rshash_neg
                + u.memcmp_cost
                + (hash_strength_max - u.hash_strength)
                + (hash_strength_max - u.hash_strength);
          },
          if item.hash_max == nonzero (sample u.random_nums item.page hash_strength_max)
              then merge_err_colli
              else merge_err_changed,
        )
  unfolding check_collision
  check_collision_cached e =
      let once = record u { rshash_neg = u.rshash_neg + u.memcmp_cost } in
      let more = hash_strength_max - u.hash_strength in
      let twice = record u { rshash_neg = u.rshash_neg + u.memcmp_cost + more } in
      ground (
        arith,
        inc_rshash_neg_room u.memcmp_cost u,
        inc_rshash_neg_room more once,
        page_hash_max_lem twice item.page table page,
      )

  -- An unchanged page is never reported as changed. For a table of positions inside the page, a page
  -- of u32 words, room in the counter and the hash of the page at the current strength: the check
  -- returns MERGE_ERR_COLLI if no full hash is cached and if the cached one is that of the page, and
  -- it changes `rshash_neg` alone: by memcmp_cost + hash_strength in the first case, and in the
  -- second by memcmp_cost and twice HASH_STRENGTH_MAX - hash_strength.
  pub check_collision_unchanged :
      (item.hash_max ≡ 0)
        ⊎ (item.hash_max ≡ nonzero (sample u.random_nums item.page hash_strength_max))
      → check_collision item (sample u.random_nums item.page u.hash_strength) u
        ≡ ok (
          record u {
            rshash_neg =
                u.rshash_neg
                + u.memcmp_cost
                + (if item.hash_max == 0
                    then u.hash_strength
                    else 2 * (hash_strength_max - u.hash_strength));
          },
          merge_err_colli,
        )
  check_collision_unchanged known = ground (
    arith,
    check_collision_fresh (sample u.random_nums item.page u.hash_strength),
    check_collision_cached,
  )

-- Caching by `rmap_item_hash_max` and a later check fit together, when each gets the hash that its
-- page has at the current strength at the time of the call. For a table of positions inside the page,
-- a page of u32 words, room in the counter and no full hash cached: `rmap_item_hash_max`, with the
-- hash of the item's page at the current strength, caches a full hash that is not the 0 which stands
-- for "not computed". A `check_collision` of that item, whose page is then any page of u32 words, with
-- the hash of the page it has then at the current strength, ends. It returns MERGE_ERR_COLLI if the
-- full-strength hash of that page is the cached one and MERGE_ERR_CHANGED if not. Nothing is said of a
-- check with a hash that was taken before the page was written.
pub rmap_item_hash_max-check_collision :
    (u : Uksm) (item : RmapItem) (page : Page)
    → IsTable u.random_nums
    → IsPage item.page
    → IsPage page
    → (u.hash_strength ≤ hash_strength_max)
      × (u.rshash_neg + u.memcmp_cost + 3 * hash_strength_max < 2 ^ 64)
    → item.hash_max ≡ 0
    → Returns (rmap_item_hash_max item (sample u.random_nums item.page u.hash_strength) u) λ r.
      let (v, cached, hash_max) = r in
      (hash_max ≢ 0)
      × (cached ≡ record item { hash_max = hash_max })
      × (Returns
          (check_collision
            (record cached { page = page })
            (sample u.random_nums page u.hash_strength)
            v)
          λ s. s.1 ≡ (
            if hash_max == nonzero (sample u.random_nums page hash_strength_max)
            then merge_err_colli
            else merge_err_changed))
rmap_item_hash_max-check_collision u item other table page is_page room e =
    let more = hash_strength_max - u.hash_strength in
    let hash_max = nonzero (sample u.random_nums item.page hash_strength_max) in
    let v = record u { rshash_neg = u.rshash_neg + more } in
    let cached = record item { hash_max = hash_max } in
    let positive : hash_max ≢ 0 = ground arith in
    (
      (v, cached, hash_max),
      unfold rmap_item_hash_max in ground (arith, page_hash_max_lem u item.page table page),
      (
        positive,
        refl,
        (
          (
            record v { rshash_neg = v.rshash_neg + v.memcmp_cost + more + more },
            if hash_max == nonzero (sample u.random_nums other hash_strength_max)
                then merge_err_colli
                else merge_err_changed,
          ),
          check_collision_cached v (record cached { page = other }) table is_page
              (omega arith, omega arith) positive,
          refl,
        ),
      ),
    )

-- A page that was written since its hash was taken is found. For a table of positions inside the
-- page with none twice, a page of u32 words, room in the counter and a strength of at most
-- HASH_STRENGTH_FULL: if an item with no cached full hash is checked against the hash that its page
-- had before a write of another value to a word that the strength samples, `check_collision`
-- returns MERGE_ERR_CHANGED.
pub check_collision_changed :
    (u : Uksm) (before : Page) (i value : ℕ)
    → IsTable u.random_nums
    → IsDistinct u.random_nums
    → IsPage before
    → HasRoom u
    → u.hash_strength ≤ hash_strength_full
    → i < u.hash_strength
    → value < 2 ^ 32
    → value ≢ get_or before (get_or u.random_nums i 0) 0
    → Returns
        (check_collision
          (record { page = set before (get_or u.random_nums i 0) value; hash_max = 0 })
          (sample u.random_nums before u.hash_strength)
          u)
        λ r. r.1 ≡ merge_err_changed
check_collision_changed u before i value table distinct page room low sampled fits changed =
    let w = get_or u.random_nums i 0 in
    let after = set before w value in
    let is_page = set-IsPage before w value page (table.inside i (omega arith)) fits in
    let apart =
      sample-set_ne table page u.hash_strength value low fits distinct i sampled changed in
    (
      (
        record u { rshash_neg = u.rshash_neg + (u.memcmp_cost + u.hash_strength) },
        if sample u.random_nums after u.hash_strength == sample u.random_nums before u.hash_strength
            then merge_err_colli
            else merge_err_changed,
      ),
      check_collision_fresh u (record { page = after; hash_max = 0 }) table is_page room
          (sample u.random_nums before u.hash_strength) refl,
      ground (arith, apart),
    )
