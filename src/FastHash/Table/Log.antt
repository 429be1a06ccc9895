-- ===== src/FastHash/Table/Log.antt =====
-- fast_hash.h: what the hash table stands for, the log of its entries, the newest first.
use random_c_code_snippets_b.Prelude.{
  ℕ, ◌^◌, ◌≤◌, ◌<◌, ◌≡◌, refl, arith, bit_and, Bool, true, false, ◌&&◌, Option, none, some, List,
  [], ◌∷◌, length, get_or, ◌==◌, ==_refl, if◌then◌else◌, ok,
}
use random_c_code_snippets_b.Bits.{bit_and-le}
use random_c_code_snippets_b.Word.{u64, sub64}
use random_c_code_snippets_b.FastHash.{M128, fast_hash}
use random_c_code_snippets_b.FastHash.Table.{FhEntry, FhTable}

-- The entries of the bucket `j` of `n`.
abbrev pub bucket_of : ℕ → FhEntry → ℕ
bucket_of n e = bit_and e.hash (sub64 n 1)

abbrev pub chain_of : ℕ → ℕ → List FhEntry → List FhEntry
chain_of n j [] = []
chain_of n j (e ∷ log) = if bucket_of n e == j then e ∷ chain_of n j log else chain_of n j log

abbrev pub eq_bytes : List ℕ → List ℕ → Bool
eq_bytes [] [] = true
eq_bytes [] (y ∷ b) = false
eq_bytes (x ∷ a) [] = false
eq_bytes (x ∷ a) (y ∷ b) = (x == y) && eq_bytes a b

pub eq_bytes_refl : (a : List ℕ) → eq_bytes a a ≡ true
eq_bytes_refl [] = refl
eq_bytes_refl (x ∷ a) = rw (==_refl x) (eq_bytes_refl a)

-- The bucket of a hash is one of the table.
pub inside : (h n : ℕ) → 0 < n → n ≤ 2 ^ 63 → bit_and h (sub64 n 1) < n
inside h n p q = omega (arith, bit_and-le h (sub64 n 1))

module _ (aes : Option (M128 → M128 → M128)) (memory : ℕ → List ℕ) where
  -- What insert makes of a block.
  pub record IsEntry (e : FhEntry) : Type 0 where
    pub size : length (memory e.data_pointer) ≡ e.len
    pub hashed : fast_hash aes (memory e.data_pointer) e.len ≡ ok e.hash

  abbrev pub AllEntries : List FhEntry → Type 0
  AllEntries [] = Unit
  AllEntries (e ∷ log) = IsEntry e × AllEntries log

  -- The table `t` holds the entries of the log.
  pub record Represents (t : FhTable) (log : List FhEntry) : Type 0 where
    pub positive : 0 < t.bucket_count
    pub bounded : t.bucket_count ≤ 2 ^ 63
    pub buckets_size : length t.buckets ≡ t.bucket_count
    pub chains :
        (j : ℕ) → j < t.bucket_count → get_or t.buckets j [] ≡ chain_of t.bucket_count j log
    pub entries : AllEntries log
    pub count : t.entry_count ≡ u64 (length log)

  -- The entry is of a block with the same bytes.
  abbrev pub holds : ℕ → ℕ → FhEntry → Bool
  holds block len e = (e.len == len) && eq_bytes (memory e.data_pointer) (memory block)

  -- The newest entry of a block with the same bytes.
  abbrev pub newest : ℕ → ℕ → List FhEntry → Option FhEntry
  newest block len [] = none
  newest block len (e ∷ log) = if holds block len e then some e else newest block len log
