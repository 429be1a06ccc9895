-- ===== src/DirtPages/Sample/Delta.antt =====
-- dirtPages.c: `random_sample_hash` and `delta_hash` compared (section 6).
use random_c_code_snippets_b.Prelude.{
  ℕ, ◌-◌, ◌^◌, ◌≤◌, ◌<◌, ◌≡◌, ap, ◌∙◌, arith, min, List, ok, Returns, ◌⊎◌, inl, inr,
}
use random_c_code_snippets_b.DirtPages.{Page, hash_strength_full, hash_strength_max}
use random_c_code_snippets_b.DirtPages.Sample.{
  hash_from_to, hash_from_down_to, random_sample_hash, delta_hash,
}
use random_c_code_snippets_b.DirtPages.Sample.Positions.{
  IsTable, IsPage, absorb, release, hash_rounds-absorb, unhash_rounds-release, absorb-lt,
  absorb_split, release-absorb,
}

le_or_lt : (a b : ℕ) → (a ≤ b) ⊎ (b < a)
le_or_lt a b = ground arith

abbrev pub seed : ℕ
seed = 0xdeadbeef

-- The sampled hash as a value: the rounds over the page, and those of the second pass.
pub sample : List ℕ → Page → ℕ → ℕ
sample random_nums key strength =
    absorb random_nums key (strength - hash_strength_full) 0
      (absorb random_nums key (min strength hash_strength_full) 0 seed)

pub sample-lt :
    (random_nums : List ℕ) (key : Page) (strength : ℕ) → sample random_nums key strength < 2 ^ 32
unfolding sample
sample-lt random_nums key strength =
    absorb-lt random_nums key _ 0 _ (absorb-lt random_nums key _ 0 seed (omega arith))

module _ {random_nums : List ℕ} {key : Page} (table : IsTable random_nums) (page : IsPage key) where
  from_to-absorb :
      (from to hash : ℕ)
      → from ≤ hash_strength_full
      → to ≤ hash_strength_full
      → hash_from_to random_nums key from to hash
        ≡ ok (absorb random_nums key (to - from) from hash)
  unfolding hash_from_to
  from_to-absorb from to hash p q =
      hash_rounds-absorb table page (to - from) from hash (omega arith)

  from_down_to-release :
      (from to hash : ℕ)
      → from ≤ hash_strength_full
      → to ≤ hash_strength_full
      → hash_from_down_to random_nums key from to hash
        ≡ ok (release random_nums key (from - to) to hash)
  unfolding hash_from_down_to
  from_down_to-release from to hash p q =
      unhash_rounds-release table page (from - to) to hash (omega arith)

  -- From the rounds over the first `from` positions to those over the first `to`.
  extend :
      (from to hash : ℕ)
      → from ≤ to
      → to ≤ hash_strength_full
      → hash_from_to random_nums key from to (absorb random_nums key from 0 hash)
        ≡ ok (absorb random_nums key to 0 hash)
  extend from to hash h p =
      rw (absorb_split random_nums key from (to - from) to 0 from hash (omega arith) (omega arith))
        (from_to-absorb from to _ (omega arith) p)

  -- And back.
  retract :
      (from to hash : ℕ)
      → to ≤ from
      → from ≤ hash_strength_full
      → hash < 2 ^ 32
      → hash_from_down_to random_nums key from to (absorb random_nums key from 0 hash)
        ≡ ok (absorb random_nums key to 0 hash)
  retract from to hash h p q =
      from_down_to-release from to _ p (omega arith)
      ∙ ap ok (
          rw
            (absorb_split random_nums key to (from - to) from 0 to hash (omega arith) (omega arith))
            (release-absorb random_nums key page (from - to) to _
              (absorb-lt random_nums key to 0 hash q)))

module _ (random_nums : List ℕ) (key : Page) where
  pub sample_low :
      (n : ℕ) → n ≤ hash_strength_full → sample random_nums key n ≡ absorb random_nums key n 0 seed
  unfolding sample absorb
  sample_low n h =
      let over : n - hash_strength_full ≡ 0 = omega arith in
      let whole : min n hash_strength_full ≡ n = omega arith in rw (over, whole)

  sample_high :
      (n : ℕ)
      → hash_strength_full ≤ n
      → sample random_nums key n
        ≡ absorb random_nums key
            (n - hash_strength_full)
            0
            (absorb random_nums key hash_strength_full 0 seed)
  unfolding sample
  sample_high n h =
      let whole : min n hash_strength_full ≡ hash_strength_full = omega arith in rw whole

module _ {random_nums : List ℕ} {key : Page} (table : IsTable random_nums) (page : IsPage key) where
  -- The sampled hash exists at every strength: no read leaves the page or the table.
  pub random_sample_hash-sample :
      (strength : ℕ)
      → strength ≤ hash_strength_max
      → random_sample_hash random_nums key strength ≡ ok (sample random_nums key strength)
  unfolding random_sample_hash
  random_sample_hash-sample strength h = ground (
    arith,
    sample_low random_nums key strength,
    sample_high random_nums key strength,
    from_to-absorb table page 0 strength seed,
    from_to-absorb table page 0 hash_strength_full seed,
    from_to-absorb table page 0 (strength - hash_strength_full)
        (absorb random_nums key hash_strength_full 0 seed),
  )

  module _ (from to : ℕ) (p : from ≤ hash_strength_max) (q : to ≤ hash_strength_max) where
    abbrev once : ℕ
    once = absorb random_nums key hash_strength_full 0 seed

    delta_hash_up :
        from < to
        → delta_hash random_nums key from to (sample random_nums key from)
          ≡ ok (sample random_nums key to)
    unfolding delta_hash absorb
    delta_hash_up h = ground (
      arith,
      sample_low random_nums key from,
      sample_low random_nums key to,
      sample_high random_nums key from,
      sample_high random_nums key to,
      extend table page from to seed,
      extend table page from hash_strength_full seed,
      extend table page 0 (to - hash_strength_full) once,
      extend table page (from - hash_strength_full) (to - hash_strength_full) once,
    )

    delta_hash_down :
        to ≤ from
        → delta_hash random_nums key from to (sample random_nums key from)
          ≡ ok (sample random_nums key to)
    unfolding delta_hash absorb
    delta_hash_down h = ground (
      arith,
      sample_low random_nums key from,
      sample_low random_nums key to,
      sample_high random_nums key from,
      sample_high random_nums key to,
      absorb-lt random_nums key hash_strength_full 0 seed,
      retract table page from to seed,
      retract table page hash_strength_full to seed,
      retract table page (from - hash_strength_full) 0 once,
      retract table page (from - hash_strength_full) (to - hash_strength_full) once,
    )

    pub delta_hash-sample :
        delta_hash random_nums key from to (sample random_nums key from)
        ≡ ok (sample random_nums key to)
    delta_hash-sample = elim (le_or_lt to from) [
      | inl h ↦ delta_hash_down h
      | inr h ↦ delta_hash_up h
    ]

    -- For every two strengths up to HASH_STRENGTH_MAX, a table of positions inside the page and a
    -- page of u32 words: `delta_hash` takes the hash that `random_sample_hash` computes at the first
    -- strength to the hash that it computes at the second, upwards and downwards, with no read
    -- outside the page or the table.
    pub delta_hash-random_sample_hash : Returns (random_sample_hash random_nums key from) λ old.
        Returns
          (random_sample_hash random_nums key to)
          λ new. delta_hash random_nums key from to old ≡ ok new
    delta_hash-random_sample_hash = (
      sample random_nums key from,
      random_sample_hash-sample from p,
      (sample random_nums key to, random_sample_hash-sample to q, delta_hash-sample),
    )
