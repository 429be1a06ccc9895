-- ===== src/DirtPages/Sample/Positions.antt =====
-- dirtPages.c: the reads of the two hash loops, and the loops as folds over the words at the
-- positions of `random_nums`.
use random_c_code_snippets_b.Prelude.{
  ℕ, zero, suc, ◌+◌, ◌^◌, ◌≤◌, ◌<◌, ◌≡◌, refl, ◌∙◌, arith, List, length, get_or, ok, read,
  read-get_or,
}
use random_c_code_snippets_b.DirtPages.{Page, hash_strength_full}
use random_c_code_snippets_b.DirtPages.Sample.{mix, unmix, hash_rounds, unhash_rounds}
use random_c_code_snippets_b.DirtPages.Sample.Mix.{mix-lt, unmix-mix}

-- The word that the sampling reads at `index`.
abbrev pub word_at : List ℕ → Page → ℕ → ℕ
word_at random_nums key index = get_or key (get_or random_nums index 0) 0

-- A table of positions inside a page, as `init_random_sampling` leaves it.
pub record IsTable (random_nums : List ℕ) : Type 0 where
  pub entries : length random_nums ≡ hash_strength_full
  pub inside : (i : ℕ) → i < hash_strength_full → get_or random_nums i 0 < hash_strength_full

-- A page of `u32` words.
pub record IsPage (key : Page) : Type 0 where
  pub size : length key ≡ hash_strength_full
  pub words : (i : ℕ) → get_or key i 0 < 2 ^ 32

module _ (random_nums : List ℕ) (key : Page) where
  -- `left` rounds from `index` on, read as plain values.
  unfoldable pub absorb : ℕ → ℕ → ℕ → ℕ
  absorb zero index hash = hash
  absorb (suc left) index hash = absorb left (index + 1) (mix hash (word_at random_nums key index))

  unfoldable pub release : ℕ → ℕ → ℕ → ℕ
  release zero to hash = hash
  release (suc left) to hash = release left to (unmix hash (word_at random_nums key (to + left)))

module _ {random_nums : List ℕ} {key : Page} (table : IsTable random_nums) (page : IsPage key) where
  read_position :
      (i : ℕ) → i < hash_strength_full → read random_nums i ≡ ok (get_or random_nums i 0)
  read_position i h = read-get_or random_nums i 0 (omega (arith, table.entries))

  read_word :
      (i : ℕ)
      → i < hash_strength_full
      → read key (get_or random_nums i 0) ≡ ok (word_at random_nums key i)
  read_word i h =
      read-get_or key (get_or random_nums i 0) 0 (omega (arith, page.size, table.inside i h))

  pub hash_rounds-absorb :
      (left index hash : ℕ)
      → index + left ≤ hash_strength_full
      → hash_rounds random_nums key left index hash ≡ ok (absorb random_nums key left index hash)
  unfolding hash_rounds absorb
  hash_rounds-absorb zero index hash h = refl
  hash_rounds-absorb (suc left) index hash h =
      rw (read_position index (omega arith), read_word index (omega arith))
        (hash_rounds-absorb left (index + 1) _ (omega arith))

  pub unhash_rounds-release :
      (left to hash : ℕ)
      → to + left ≤ hash_strength_full
      → unhash_rounds random_nums key left to hash ≡ ok (release random_nums key left to hash)
  unfolding unhash_rounds release
  unhash_rounds-release zero to hash h = refl
  unhash_rounds-release (suc left) to hash h =
      rw (read_position (to + left) (omega arith), read_word (to + left) (omega arith))
        (unhash_rounds-release left to _ (omega arith))

module _ (random_nums : List ℕ) (key : Page) where
  pub absorb-lt :
      (left index hash : ℕ) → hash < 2 ^ 32 → absorb random_nums key left index hash < 2 ^ 32
  unfolding absorb
  absorb-lt zero index hash h = h
  absorb-lt (suc left) index hash h = absorb-lt left (index + 1) _ (mix-lt hash _)

  -- A run of rounds is two runs, the second from where the first ends.
  pub absorb_split :
      (a b n i j hash : ℕ)
      → n ≡ a + b
      → j ≡ i + a
      → absorb random_nums key n i hash
        ≡ absorb random_nums key b j (absorb random_nums key a i hash)
  unfolding absorb
  absorb_split zero b n i j hash e f =
      let n-eq : n ≡ b = omega arith in let j-eq : j ≡ i = omega arith in rw (n-eq, j-eq)
  absorb_split (suc a) b zero i j hash e f = absurd (omega arith)
  absorb_split (suc a) b (suc n) i j hash e f =
      absorb_split a b n (i + 1) j _ (omega arith) (omega arith)

  absorb_last :
      (left i hash : ℕ)
      → absorb random_nums key (suc left) i hash
        ≡ mix (absorb random_nums key left i hash) (word_at random_nums key (i + left))
  absorb_last left i hash =
      absorb_split left 1 (suc left) i (i + left) hash (omega arith) refl ∙ unfold absorb in refl

  -- The rounds downwards undo the rounds upwards over the same positions.
  pub release-absorb :
      IsPage key
      → (left to hash : ℕ) → hash < 2 ^ 32
      → release random_nums key left to (absorb random_nums key left to hash) ≡ hash
  unfolding release
  release-absorb page zero to hash h = unfold absorb in refl
  release-absorb page (suc left) to hash h =
      rw
        (
          absorb_last left to hash,
          unmix-mix (absorb random_nums key left to hash) (word_at random_nums key (to + left))
              (absorb-lt left to hash h) (page.words _),
        )
        (release-absorb page left to hash h)
