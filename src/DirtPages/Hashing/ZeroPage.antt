-- ===== src/DirtPages/Hashing/ZeroPage.antt =====
-- dirtPages.c, sections 10 and 14: the table of zero-page hashes.
use random_c_code_snippets_b.Prelude.{
  ℕ, zero, suc, ◌+◌, ◌^◌, ◌≤◌, ◌<◌, ◌≡◌, ◌≢◌, refl, ap, ◌∙◌, arith, true, false, ◌==◌, ok, fault,
  out_of_bounds, read, read-get_or, Returns, List, [], ◌∷◌, length, get_or, set, replicate,
  length-replicate, get_elem?-beyond, get_or-replicate, ==_refl, ==_ne,
}
use random_c_code_snippets_b.DirtPages.{Page, Uksm, hash_strength_full, hash_strength_max}
use random_c_code_snippets_b.DirtPages.Sample.Positions.{IsTable, IsPage}
use random_c_code_snippets_b.DirtPages.Sample.Delta.{sample}
use random_c_code_snippets_b.DirtPages.Sample.Detect.{IsDistinct, sample-set_ne}
use random_c_code_snippets_b.DirtPages.Hashing.{
  find_zero_page_hash, zero_hashes, init_zeropage_hash_table, success,
}
use random_c_code_snippets_b.DirtPages.Hashing.Accounts.{page_hash_free}

abbrev pub zero_page : Page
zero_page = replicate hash_strength_full 0

pub zero_page-IsPage : IsPage zero_page
zero_page-IsPage = record {
  size = length-replicate {A = ℕ} hash_strength_full 0;
  words = λ i. rw (get_or-replicate {A = ℕ} hash_strength_full i 0) (omega arith);
}

zero_word_ne : (w value : ℕ) → 0 < value → value ≢ get_or zero_page w 0
zero_word_ne w value h e =
    let clear = get_or-replicate {A = ℕ} hash_strength_full w 0 in omega arith

-- The hashes of a page at the strengths `i`, `i + 1`, ….
samples : List ℕ → Page → ℕ → ℕ → List ℕ
samples random_nums page zero i = []
samples random_nums page (suc left) i =
    sample random_nums page i ∷ samples random_nums page left (i + 1)

length-samples :
    (random_nums : List ℕ) (page : Page) (left i : ℕ)
    → length (samples random_nums page left i) ≡ left
unfolding samples
length-samples random_nums page zero i = refl
length-samples random_nums page (suc left) i = ap suc (length-samples random_nums page left (i + 1))

get_or-samples :
    (random_nums : List ℕ) (page : Page) (left i j k : ℕ)
    → j < left
    → k ≡ i + j
    → get_or (samples random_nums page left i) j 0 ≡ sample random_nums page k
unfolding samples
get_or-samples random_nums page zero i j k h e = absurd (omega arith)
get_or-samples random_nums page (suc left) i zero k h e =
    let same : i ≡ k = omega arith in ap (sample random_nums page) same
get_or-samples random_nums page (suc left) i (suc j) k h e =
    get_or-samples random_nums page left (i + 1) j k (omega arith) (omega arith)

module _ (u : Uksm) (table : IsTable u.random_nums) where
  zero_hashes-samples :
      (left i : ℕ) (page : Page)
      → IsPage page
      → i + left ≤ hash_strength_max
      → zero_hashes left i page u ≡ ok (samples u.random_nums page left i)
  unfolding zero_hashes samples
  zero_hashes-samples zero i page is_page h = refl
  zero_hashes-samples (suc left) i page is_page h = rw (
    page_hash_free u page table is_page i (omega arith),
    zero_hashes-samples left (i + 1) page is_page (omega arith),
  )

  filled : Uksm
  filled = record u { zero_hash_table = samples u.random_nums zero_page hash_strength_max 0 }

  init_zeropage_hash_table-filled : init_zeropage_hash_table true true u ≡ ok (filled, success)
  unfolding init_zeropage_hash_table filled
  init_zeropage_hash_table-filled =
      rw (zero_hashes-samples hash_strength_max 0 zero_page zero_page-IsPage (omega arith))

  find_zero_page_hash-filled :
      (strength hash : ℕ)
      → strength < hash_strength_max
      → find_zero_page_hash strength hash filled
        ≡ ok (sample u.random_nums zero_page strength == hash)
  unfolding find_zero_page_hash filled
  find_zero_page_hash-filled strength hash h =
      let hashes = samples u.random_nums zero_page hash_strength_max 0 in
      let long = length-samples u.random_nums zero_page hash_strength_max 0 in
      rw (
        read-get_or hashes strength 0 (omega (arith, long)),
        get_or-samples u.random_nums zero_page hash_strength_max 0 strength strength h
            (omega arith),
      )

  find_zero_page_hash-beyond :
      (strength hash : ℕ)
      → hash_strength_max ≤ strength
      → find_zero_page_hash strength hash filled ≡ fault out_of_bounds
  unfolding find_zero_page_hash filled
  find_zero_page_hash-beyond strength hash h =
      let hashes = samples u.random_nums zero_page hash_strength_max 0 in
      let long = length-samples u.random_nums zero_page hash_strength_max 0 in
      rw (get_elem?-beyond hashes strength (omega (arith, long)), read)

  -- With a table of positions inside the page and both allocations granted,
  -- `init_zeropage_hash_table` succeeds, and then `find_zero_page_hash` finds the hash of a zero page
  -- at every strength below HASH_STRENGTH_MAX.
  pub find_zero_page_hash-zero_page :
      (strength : ℕ)
      → strength < hash_strength_max
      → Returns (init_zeropage_hash_table true true u) λ r.
        (r.1 ≡ success)
        × (find_zero_page_hash strength (sample u.random_nums zero_page strength) r.0 ≡ ok true)
  find_zero_page_hash-zero_page strength h = (
    (filled, success),
    init_zeropage_hash_table-filled,
    (
      refl,
      find_zero_page_hash-filled strength _ h
          ∙ ap ok (==_refl (sample u.random_nums zero_page strength)),
    ),
  )

  -- With a table of positions inside the page and none twice, both allocations granted and a
  -- strength of at most HASH_STRENGTH_FULL: after `init_zeropage_hash_table`, `find_zero_page_hash`
  -- does not find the hash of a page that differs from the zero page in one word that is sampled.
  pub find_zero_page_hash-set_ne :
      (strength i value : ℕ)
      → strength ≤ hash_strength_full
      → IsDistinct u.random_nums
      → i < strength
      → 0 < value
      → value < 2 ^ 32
      → Returns (init_zeropage_hash_table true true u) λ r.
        find_zero_page_hash strength
          (sample u.random_nums (set zero_page (get_or u.random_nums i 0) value) strength)
          r.0
        ≡ ok false
  find_zero_page_hash-set_ne strength i value low distinct sampled positive fits = (
    (filled, success),
    init_zeropage_hash_table-filled,
    find_zero_page_hash-filled strength _ (omega arith)
        ∙ ap ok (
            ==_ne _ _ (
              sample-set_ne table zero_page-IsPage strength value low fits distinct i sampled
                (λ e. zero_word_ne (get_or u.random_nums i 0) value positive e))),
  )

  -- With a table of positions inside the page and both allocations granted: at the strength
  -- HASH_STRENGTH_MAX, `find_zero_page_hash` reads outside the table that `init_zeropage_hash_table`
  -- filled.
  pub find_zero_page_hash-hash_strength_max :
      (hash : ℕ)
      → Returns
          (init_zeropage_hash_table true true u)
          λ r. find_zero_page_hash hash_strength_max hash r.0 ≡ fault out_of_bounds
  find_zero_page_hash-hash_strength_max hash = (
    (filled, success),
    init_zeropage_hash_table-filled,
    find_zero_page_hash-beyond hash_strength_max hash (omega arith),
  )
