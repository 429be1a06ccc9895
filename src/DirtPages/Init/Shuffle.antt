-- ===== src/DirtPages/Init/Shuffle.antt =====
-- dirtPages.c, section 14: the table that the shuffle leaves.
use native.Mathlib.Nat.{mod-lt}
use random_c_code_snippets_b.Prelude.{
  ℕ, zero, suc, ◌+◌, ◌-◌, ◌%◌, ◌<◌, ◌≡◌, refl, sym, ap, ◌∙◌, arith, List, ◌==◌, if◌then◌else◌,
  length, get_or, set, length-set, get_or-set_self, get_or-set_ne, Returns, read-get_or, write-set,
  ◌>>=◌, ℕ_discrete,
}
use random_c_code_snippets_b.DirtPages.{hash_strength_full}
use random_c_code_snippets_b.DirtPages.Sample.Positions.{IsTable}
use random_c_code_snippets_b.DirtPages.Sample.Detect.{IsDistinct}
use random_c_code_snippets_b.DirtPages.Init.{identity_rounds, shuffle_rounds}

-- The table is a permutation of the numbers below HASH_STRENGTH_FULL.
pub record IsPermutation (random_nums : List ℕ) : Type 0 where
  pub table : IsTable random_nums
  pub distinct : IsDistinct random_nums
  pub covers :
      (w : ℕ)
      → w < hash_strength_full
      → (i : ℕ) × (i < hash_strength_full) × (get_or random_nums i 0 ≡ w)

-- Where an exchange of the places `i` and `s` takes the contents of place `j` from.
abbrev exchange : ℕ → ℕ → ℕ → ℕ
exchange i s j = if j == s then i else if j == i then s else j

exchange_twice : (i s j : ℕ) → exchange i s (exchange i s j) ≡ j
exchange_twice i s j = ground arith

abbrev swapped : List ℕ → ℕ → ℕ → List ℕ
swapped nums i s = set (set nums i (get_or nums s 0)) s (get_or nums i 0)

get_or-swapped :
    (nums : List ℕ) (i s j : ℕ)
    → i < length nums
    → s < length nums
    → get_or (swapped nums i s) j 0 ≡ get_or nums (exchange i s j) 0
get_or-swapped nums i s j p q = ground (
  arith,
  length-set nums i (get_or nums s 0),
  get_or-set_self (set nums i (get_or nums s 0)) s (get_or nums i 0) 0,
  get_or-set_ne (set nums i (get_or nums s 0)) s j (get_or nums i 0) 0,
  get_or-set_self nums i (get_or nums s 0) 0,
  get_or-set_ne nums i j (get_or nums s 0) 0,
)

swapped-IsPermutation :
    (nums : List ℕ) (i s : ℕ)
    → i < hash_strength_full
    → s < hash_strength_full
    → IsPermutation nums
    → IsPermutation (swapped nums i s)
swapped-IsPermutation nums i s p q perm =
    let at = λ (j : ℕ).
      get_or-swapped nums i s j (omega (arith, perm.table.entries))
        (omega (arith, perm.table.entries)) in
    record {
      table = record {
        entries = length-set _ s _ ∙ length-set nums i _ ∙ perm.table.entries;
        inside = λ j h. rw (at j) (perm.table.inside (exchange i s j) (ground arith));
      };
      distinct = λ j k hj hk e.
          ground (arith, perm.distinct (exchange i s j) (exchange i s k), at j, at k);
      covers = λ w h.
          let (j, below, found) = perm.covers w h in
          (
            exchange i s j,
            ground arith,
            at (exchange i s j) ∙ ap (λ k. get_or nums k 0) (exchange_twice i s j) ∙ found,
          );
    }

identity_rounds_lem :
    (left i : ℕ) (nums : List ℕ)
    → i + left ≡ hash_strength_full
    → length nums ≡ hash_strength_full
    → ((j : ℕ) → j < i → get_or nums j 0 ≡ j)
    → Returns
        (identity_rounds left i nums)
        λ r. (length r ≡ hash_strength_full) × ((j : ℕ) → j < hash_strength_full → get_or r j 0 ≡ j)
unfolding identity_rounds
identity_rounds_lem zero i nums e len done = (nums, refl, (len, λ j h. done j (omega arith)))
identity_rounds_lem (suc left) i nums e len done = rw (write-set nums i i (omega arith)) (
    identity_rounds_lem left (i + 1) (set nums i i) (omega arith) (length-set nums i i ∙ len)
      (λ j h. elim (ℕ_discrete i j) [
        | yes same ↦ rw (← same) (get_or-set_self nums i i 0 (omega arith))
        | no other ↦ get_or-set_ne nums i j i 0 other ∙ done j (omega arith)
      ]))

identity-IsPermutation :
    (nums : List ℕ)
    → length nums ≡ hash_strength_full
    → ((j : ℕ) → j < hash_strength_full → get_or nums j 0 ≡ j)
    → IsPermutation nums
identity-IsPermutation nums len at = record {
  table = record { entries = len; inside = λ i h. rw (at i h) h };
  distinct = λ i j p q e. sym (at i p) ∙ e ∙ at j q;
  covers = λ w h. (w, h, at w h);
}

shuffle_rounds_lem :
    (prandom : ℕ → ℕ) (left i : ℕ) (nums : List ℕ)
    → i + left ≡ hash_strength_full
    → IsPermutation nums
    → Returns (shuffle_rounds prandom left i nums) IsPermutation
unfolding shuffle_rounds
shuffle_rounds_lem prandom zero i nums e perm = (nums, refl, perm)
shuffle_rounds_lem prandom (suc left) i nums e perm =
    let s = i + prandom i % (hash_strength_full - i) in
    let s-lt : s < hash_strength_full =
      omega (arith, mod-lt (prandom i) {m = hash_strength_full - i} (omega arith)) in
    let len = perm.table.entries in
    rw
      (
        read-get_or nums i 0 (omega arith),
        read-get_or nums s 0 (omega arith),
        write-set nums i (get_or nums s 0) (omega arith),
        write-set (set nums i (get_or nums s 0)) s (get_or nums i 0)
            (omega (arith, length-set nums i (get_or nums s 0))),
      )
      (shuffle_rounds_lem prandom left (i + 1) (swapped nums i s) (omega arith)
        (swapped-IsPermutation nums i s (omega arith) s-lt perm))

-- For every memory of a page and every sequence of random values, the two loops of
-- `init_random_sampling` stay inside the table and leave a permutation of the numbers below
-- HASH_STRENGTH_FULL.
pub shuffle-IsPermutation :
    (prandom : ℕ → ℕ) (memory : List ℕ)
    → length memory ≡ hash_strength_full
    → Returns
        (identity_rounds hash_strength_full 0 memory
          >>= shuffle_rounds prandom hash_strength_full 0)
        IsPermutation
shuffle-IsPermutation prandom memory len =
    let (identity, run, (len', at)) =
      identity_rounds_lem hash_strength_full 0 memory (omega arith) len
        (λ j h. absurd (omega arith)) in
    rw run (
      shuffle_rounds_lem prandom hash_strength_full 0 identity (omega arith)
        (identity-IsPermutation identity len' at))
