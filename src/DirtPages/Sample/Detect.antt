-- ===== src/DirtPages/Sample/Detect.antt =====
-- dirtPages.c: which changes of a page the sampled hash sees (section 6).
use random_c_code_snippets_b.Prelude.{
  ℕ, zero, suc, ◌+◌, ◌^◌, ◌≤◌, ◌<◌, ◌≡◌, ◌≢◌, refl, sym, ap, ◌∙◌, arith, List, get_or, set,
  length-set, get_or-set_self, get_or-set_ne, ok, Returns, dec_lt, ℕ_discrete,
}
use random_c_code_snippets_b.DirtPages.{Page, hash_strength_full}
use random_c_code_snippets_b.DirtPages.Sample.{random_sample_hash}
use random_c_code_snippets_b.DirtPages.Sample.Mix.{mix-lt, mix_injective, mix_word_injective}
use random_c_code_snippets_b.DirtPages.Sample.Positions.{IsTable, IsPage, word_at, absorb}
use random_c_code_snippets_b.DirtPages.Sample.Delta.{
  seed, sample, sample_low, random_sample_hash-sample,
}

-- No position stands twice in the table.
abbrev pub IsDistinct : List ℕ → Type 0
IsDistinct random_nums =
    (i j : ℕ)
    → i < hash_strength_full
    → j < hash_strength_full
    → get_or random_nums i 0 ≡ get_or random_nums j 0
    → i ≡ j

module _ (random_nums : List ℕ) where
  -- Pages that agree at the positions of the rounds have the same hash after them.
  absorb_agree :
      (key key' : Page) (left index hash : ℕ)
      → ((j : ℕ)
          → index ≤ j
          → j < index + left
          → word_at random_nums key j ≡ word_at random_nums key' j)
      → absorb random_nums key left index hash ≡ absorb random_nums key' left index hash
  unfolding absorb
  absorb_agree key key' zero index hash h = refl
  absorb_agree key key' (suc left) index hash h =
      rw (h index (omega arith) (omega arith))
        (absorb_agree key key' left (index + 1) _ (λ j p q. h j (omega arith) (omega arith)))

  -- The rounds of one page keep two hashes apart.
  absorb_injective :
      {key : Page}
      → IsPage key
      → (left index hash hash' : ℕ) → hash < 2 ^ 32
      → hash' < 2 ^ 32
      → absorb random_nums key left index hash ≡ absorb random_nums key left index hash'
      → hash ≡ hash'
  unfolding absorb
  absorb_injective page zero index hash hash' p q e = e
  absorb_injective {key} page (suc left) index hash hash' p q e =
      mix_injective p q (word_at random_nums key index) (page.words _)
        (absorb_injective page left (index + 1) _ _ (mix-lt _ _) (mix-lt _ _) e)

  module _ {key key' : Page} (page : IsPage key) (page' : IsPage key') where
    -- Pages that differ at one round only have different hashes.
    absorb_differ :
        (left index hash m : ℕ)
        → index ≤ m
        → m < index + left
        → hash < 2 ^ 32
        → ((j : ℕ)
            → j < index + left
            → j ≢ m
            → word_at random_nums key j ≡ word_at random_nums key' j)
        → absorb random_nums key left index hash ≡ absorb random_nums key' left index hash
        → word_at random_nums key m ≡ word_at random_nums key' m
    unfolding absorb
    absorb_differ zero index hash m p q r agree e = absurd (omega arith)
    absorb_differ (suc left) index hash m p q r agree e = elim (dec_lt index m) [
      | yes below ↦
          absorb_differ left (index + 1) _ m (omega arith) (omega arith) (mix-lt hash _)
            (λ j s t. agree j (omega arith) t) (rw (agree index (omega arith) (omega arith)) at e)
      | no here ↦
          let at_m : m ≡ index = omega arith in
          rw at_m (
            mix_word_injective hash _ _ r (page.words _) (page'.words _) (
              absorb_injective page left (index + 1) _ _ (mix-lt hash _) (mix-lt hash _) (
                e
                ∙ sym (
                    absorb_agree key key' left (index + 1) _
                      (λ j s t. agree j (omega arith) (omega arith))))))
    ]

-- A page after a write of one word.
pub set-IsPage :
    (key : Page) (w v : ℕ) → IsPage key → w < hash_strength_full → v < 2 ^ 32 → IsPage (set key w v)
set-IsPage key w v page inside h = record {
  size = length-set key w v ∙ page.size;
  words = λ i. elim (ℕ_discrete w i) [
    | yes same ↦ rw (← same, get_or-set_self key w v 0 (omega (arith, page.size))) h
    | no other ↦ rw (get_or-set_ne key w i v 0 other) (page.words i)
  ];
}

module _ {random_nums : List ℕ} {key : Page} (table : IsTable random_nums) (page : IsPage key)
    (strength v : ℕ) (low : strength ≤ hash_strength_full) (fits : v < 2 ^ 32) where
  pub sample-set_ne :
      IsDistinct random_nums
      → (i : ℕ) → i < strength
      → v ≢ get_or key (get_or random_nums i 0) 0
      → sample random_nums key strength
        ≢ sample random_nums (set key (get_or random_nums i 0) v) strength
  sample-set_ne distinct i h changed e =
      let w = get_or random_nums i 0 in
      let w-lt : w < hash_strength_full = table.inside i (omega arith) in
      let apart = λ (j : ℕ) (s : j < strength) (t : j ≢ i). sym (
        get_or-set_ne key w (get_or random_nums j 0) v 0
          (λ same. t (sym (distinct i j (omega arith) (omega arith) same)))) in
      changed (
        sym (get_or-set_self key w v 0 (omega (arith, page.size)))
        ∙ sym (
            absorb_differ random_nums page (set-IsPage key w v page w-lt fits) strength 0 seed i
              (omega arith) (omega arith) (omega arith) (λ j s t. apart j (omega arith) t)
              (sym (sample_low random_nums key strength low)
                ∙ e
                ∙ sample_low random_nums (set key w v) strength low)))

  -- A write of another u32 value to a word that the current strength samples always changes the
  -- hash: for a table of positions inside the page with none twice, a page of u32 words and a
  -- strength of at most HASH_STRENGTH_FULL, the sampled hashes of the page before and after the write
  -- exist and differ.
  pub random_sample_hash-set_ne :
      IsDistinct random_nums
      → (i : ℕ) → i < strength
      → v ≢ get_or key (get_or random_nums i 0) 0
      → Returns (random_sample_hash random_nums key strength) λ old.
        Returns
          (random_sample_hash random_nums (set key (get_or random_nums i 0) v) strength)
          λ new. old ≢ new
  random_sample_hash-set_ne distinct i h changed =
      let w = get_or random_nums i 0 in
      let page' = set-IsPage key w v page (table.inside i (omega arith)) fits in
      (
        sample random_nums key strength,
        random_sample_hash-sample table page strength (omega arith),
        (
          sample random_nums (set key w v) strength,
          random_sample_hash-sample table page' strength (omega arith),
          sample-set_ne distinct i h changed,
        ),
      )

  -- For a table of positions inside the page, a page of u32 words and a strength of at most
  -- HASH_STRENGTH_FULL: a write of a u32 value to a word that the strength does not sample leaves the
  -- hash as it is, so that the scan cannot see it.
  pub random_sample_hash-set_unsampled :
      (w : ℕ)
      → w < hash_strength_full
      → ((i : ℕ) → i < strength → get_or random_nums i 0 ≢ w)
      → random_sample_hash random_nums (set key w v) strength
        ≡ random_sample_hash random_nums key strength
  random_sample_hash-set_unsampled w w-lt apart =
      random_sample_hash-sample table (set-IsPage key w v page w-lt fits) strength (omega arith)
      ∙ ap ok (
          sample_low random_nums (set key w v) strength low
          ∙ absorb_agree random_nums (set key w v) key strength 0 seed
              (λ j s t. get_or-set_ne key w _ v 0 (λ same. apart j (omega arith) (sym same)))
          ∙ sym (sample_low random_nums key strength low))
      ∙ sym (random_sample_hash-sample table page strength (omega arith))
