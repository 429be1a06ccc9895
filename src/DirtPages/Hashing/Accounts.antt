-- ===== src/DirtPages/Hashing/Accounts.antt =====
-- dirtPages.c, section 8: the values and the costs of `page_hash` and `page_hash_max`.
use random_c_code_snippets_b.Prelude.{
  ℕ, ◌+◌, ◌-◌, ◌^◌, ◌≤◌, ◌<◌, ◌≡◌, arith, true, false, ltb, if◌then◌else◌, ok,
}
use random_c_code_snippets_b.DirtPages.{Page, Uksm, hash_strength_full, hash_strength_max}
use random_c_code_snippets_b.DirtPages.Sample.Positions.{IsTable, IsPage}
use random_c_code_snippets_b.DirtPages.Sample.Delta.{
  sample, random_sample_hash-sample, delta_hash-sample,
}
use random_c_code_snippets_b.DirtPages.Benefit.{inc_rshash_pos, inc_rshash_neg}
use random_c_code_snippets_b.DirtPages.Hashing.{page_hash, page_hash_max, nonzero}

-- With room in the counter, the increments only add.
pub inc_rshash_pos_room :
    (delta : ℕ) (u : Uksm)
    → u.rshash_pos + delta < 2 ^ 64
    → inc_rshash_pos delta u ≡ ok (record u { rshash_pos = u.rshash_pos + delta })
unfolding inc_rshash_pos
inc_rshash_pos_room delta u h = ground arith

pub inc_rshash_neg_room :
    (delta : ℕ) (u : Uksm)
    → u.rshash_neg + delta < 2 ^ 64
    → inc_rshash_neg delta u ≡ ok (record u { rshash_neg = u.rshash_neg + delta })
unfolding inc_rshash_neg
inc_rshash_neg_room delta u h = ground arith

module _ (u : Uksm) (page : Page) (table : IsTable u.random_nums) (is_page : IsPage page) where
  pub page_hash_free :
      (strength : ℕ)
      → strength ≤ hash_strength_max
      → page_hash page strength false u ≡ ok (u, sample u.random_nums page strength)
  unfolding page_hash
  page_hash_free strength h = rw (random_sample_hash-sample table is_page strength h)

  pub page_hash_paid :
      (strength : ℕ)
      → strength ≤ hash_strength_max
      → u.rshash_pos + hash_strength_full < 2 ^ 64
      → page_hash page strength true u
        ≡ ok (
          record u { rshash_pos = u.rshash_pos + (hash_strength_full - strength) },
          sample u.random_nums page strength,
        )
  unfolding page_hash
  page_hash_paid strength h room = rw (random_sample_hash-sample table is_page strength h) (
      ground (
        arith,
        inc_rshash_pos_room
            (if ltb strength hash_strength_full then hash_strength_full - strength else 0) u,
      ))

  pub page_hash_max_lem :
      u.hash_strength ≤ hash_strength_max
      → u.rshash_neg + hash_strength_max < 2 ^ 64
      → page_hash_max page (sample u.random_nums page u.hash_strength) u
        ≡ ok (
          record u { rshash_neg = u.rshash_neg + (hash_strength_max - u.hash_strength) },
          nonzero (sample u.random_nums page hash_strength_max),
        )
  unfolding page_hash_max
  page_hash_max_lem h room = rw (
    delta_hash-sample table is_page u.hash_strength hash_strength_max h (omega arith),
    inc_rshash_neg_room (hash_strength_max - u.hash_strength) u (omega arith),
  )
