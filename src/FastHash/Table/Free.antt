-- ===== src/FastHash/Table/Free.antt =====
-- fast_hash.h: free_hash_table, on the log that the table stands for.
use mathlib.Core.List.{Perm, perm_middle}
use mathlib.Core.List.Perm
use random_c_code_snippets_b.Prelude.{
  ℕ, zero, suc, ◌+◌, ◌^◌, ◌≤◌, ◌<◌, ◌≡◌, refl, arith, Option, List, [], ◌∷◌, ◌++◌, length, get_or,
  ==_iff, ==_ne, ok, read-get_or, Returns, ℕ_discrete,
}
use random_c_code_snippets_b.FastHash.{M128}
use random_c_code_snippets_b.FastHash.Table.{FhEntry, FhTable, free_buckets, free_hash_table}
use random_c_code_snippets_b.FastHash.Table.Log.{bucket_of, chain_of, Represents, inside}

-- The chains of `left` buckets from `i` on, one after the other.
abbrev all_chains : ℕ → ℕ → ℕ → List FhEntry → List FhEntry
all_chains n zero i log = []
all_chains n (suc left) i log = chain_of n i log ++ all_chains n left (i + 1) log

all_chains-nil : (n left i : ℕ) → all_chains n left i [] ≡ []
all_chains-nil n zero i = refl
all_chains-nil n (suc left) i = all_chains-nil n left (i + 1)

module _ (n : ℕ) (e : FhEntry) (log : List FhEntry) where
  all_chains-before :
      (left i : ℕ) → bucket_of n e < i → all_chains n left i (e ∷ log) ≡ all_chains n left i log
  all_chains-before zero i h = refl
  all_chains-before (suc left) i h =
      rw (==_ne (bucket_of n e) i (λ x. omega arith), all_chains-before left (i + 1) (omega arith))

  -- An entry is in one of the chains.
  all_chains-cons :
      (left i : ℕ)
      → i ≤ bucket_of n e
      → bucket_of n e < i + left
      → Perm (all_chains n left i (e ∷ log)) (e ∷ all_chains n left i log)
  all_chains-cons zero i h k = absurd (omega arith)
  all_chains-cons (suc left) i h k = elim (ℕ_discrete (bucket_of n e) i) [
    | yes here ↦
        rw ((==_iff (bucket_of n e) i).1 here, all_chains-before left (i + 1) (omega arith))
          (Perm.refl (e ∷ (chain_of n i log ++ all_chains n left (i + 1) log)))
    | no away ↦ rw (==_ne (bucket_of n e) i away) (
        Perm.trans
          (Perm.append_left (chain_of n i log)
            (all_chains-cons left (i + 1) (omega arith) (omega arith)))
          (perm_middle (chain_of n i log) (all_chains n left (i + 1) log)))
  ]

all_chains-Perm :
    (n : ℕ) → 0 < n → n ≤ 2 ^ 63 → (log : List FhEntry) → Perm (all_chains n n 0 log) log
all_chains-Perm n p q [] = rw (all_chains-nil n n 0) (Perm.refl [])
all_chains-Perm n p q (e ∷ log) =
    Perm.trans (all_chains-cons n e log n 0 (omega arith) (omega (arith, inside e.hash n p q)))
      (Perm.cons e (all_chains-Perm n p q log))

free_buckets_lem :
    (n : ℕ) (buckets : List (List FhEntry)) (log : List FhEntry)
    → length buckets ≡ n
    → ((j : ℕ) → j < n → get_or buckets j [] ≡ chain_of n j log)
    → (left i : ℕ) → i + left ≡ n
    → free_buckets left i buckets ≡ ok (all_chains n left i log)
unfolding free_buckets
free_buckets_lem n buckets log size chains zero i s = refl
free_buckets_lem n buckets log size chains (suc left) i s = rw (
  read-get_or buckets i [] (omega arith),
  chains i (omega arith),
  free_buckets_lem n buckets log size chains left (i + 1) (omega arith),
)

-- From a table that stands for a log, free_hash_table frees every entry of the log, each once, and
-- leaves a table of no buckets.
pub free_hash_table-Perm :
    (aes : Option (M128 → M128 → M128)) (memory : ℕ → List ℕ) (t : FhTable) (log : List FhEntry)
    → Represents aes memory t log
    → Returns
        (free_hash_table t)
        (λ x. Perm x.0 log × (x.1 ≡ record { buckets = []; bucket_count = 0; entry_count = 0 }))
unfolding free_hash_table
free_hash_table-Perm aes memory t log r =
    let n = t.bucket_count in
    (
      (all_chains n n 0 log, record { buckets = []; bucket_count = 0; entry_count = 0 }),
      rw (free_buckets_lem n t.buckets log r.buckets_size r.chains n 0 (omega arith)) refl,
      (all_chains-Perm n r.positive r.bounded log, refl),
    )
