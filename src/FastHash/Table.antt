-- ===== src/FastHash/Table.antt =====
-- fast_hash.h: the hash table with separate chaining (fh_entry, fh_table and their functions). A
-- pointer to a block is a number, `memory` gives the bytes of the block at a pointer, and a chain of
-- entries is the list of them. Whether the allocator returns memory is an argument.
pub mod Grow
pub mod Total
pub mod Log
pub mod Lookup
pub mod Insert
pub mod Free
pub mod Answers
use random_c_code_snippets_b.Prelude.{
  ℕ, zero, suc, ◌+◌, ◌*◌, List, [], ◌∷◌, ◌++◌, Bool, true, false, ◌&&◌, Option, none, some, bit_and,
  length, replicate, ◌==◌, ltb, if◌then◌else◌, Run, ok, fault, Fault, no_fuel, out_of_bounds, read,
  write, ◌>>=◌,
}
use random_c_code_snippets_b.Word.{u64, sub64}
use random_c_code_snippets_b.FastHash.{M128, fast_hash}

pub record FhEntry : Type 0 where
  pub hash : ℕ
  pub data_pointer : ℕ
  pub len : ℕ

pub record FhTable : Type 0 where
  pub buckets : List (List FhEntry)
  pub bucket_count : ℕ
  pub entry_count : ℕ

-- `while (n < bucket_count) n <<= 1`
unfoldable pub grow : ℕ → ℕ → ℕ → Run ℕ
grow zero n bucket_count = fault no_fuel
grow (suc fuel) n bucket_count =
    let rest = grow fuel (u64 (n * 2)) bucket_count in if ltb n bucket_count then rest else ok n

-- `none` is the table that could not be allocated.
unfoldable pub init_hash_table : Bool → ℕ → Run (Option FhTable)
init_hash_table allocated bucket_count = do
  n ← grow 64 1 bucket_count
  ok (
      if allocated
      then some (record { buckets = replicate n []; bucket_count = n; entry_count = 0 })
      else none)

-- `memcmp(a, b, len) == 0`
unfoldable pub is_same : ℕ → List ℕ → List ℕ → Run Bool
is_same zero a b = ok true
is_same (suc n) (x ∷ a) (y ∷ b) = let rest = is_same n a b in if x == y then rest else ok false
is_same (suc n) _ _ = fault out_of_bounds

module _ (aes : Option (M128 → M128 → M128)) (memory : ℕ → List ℕ) where
  unfoldable pub hash_table_insert : Bool → FhTable → ℕ → ℕ → Run (Bool × FhTable)
  hash_table_insert false t block len = ok (false, t)
  hash_table_insert true t block len = do
    h ← fast_hash aes (memory block) len
    let idx = bit_and h (sub64 t.bucket_count 1)
    next ← read t.buckets idx
    let e : FhEntry = record { hash = h; data_pointer = block; len = len }
    buckets' ← write t.buckets idx (e ∷ next)
    ok (
      true,
      record {
        buckets = buckets';
        bucket_count = t.bucket_count;
        entry_count = u64 (t.entry_count + 1);
      },
    )

  -- `e->hash == h && e->len == len && memcmp(e->data, data, len) == 0`
  unfoldable pub is_match : ℕ → ℕ → ℕ → FhEntry → Run Bool
  is_match h block len e =
      if (e.hash == h) && (e.len == len)
      then is_same len (memory e.data_pointer) (memory block)
      else ok false

  -- The walk along a chain.
  unfoldable pub find_entry : ℕ → ℕ → ℕ → List FhEntry → Run (Option FhEntry)
  find_entry h block len [] = ok none
  find_entry h block len (e ∷ next) = do
    found ← is_match h block len e
    let rest = find_entry h block len next
    if found then ok (some e) else rest

  unfoldable pub hash_table_lookup : FhTable → ℕ → ℕ → Run (Option FhEntry)
  hash_table_lookup t block len = do
    h ← fast_hash aes (memory block) len
    let idx = bit_and h (sub64 t.bucket_count 1)
    e ← read t.buckets idx
    find_entry h block len e

-- The buckets from `i` on, with `left` to go: the entries that are freed, in order.
unfoldable pub free_buckets : ℕ → ℕ → List (List FhEntry) → Run (List FhEntry)
free_buckets zero i buckets = ok []
free_buckets (suc left) i buckets = do
  chain ← read buckets i
  rest ← free_buckets left (i + 1) buckets
  ok (chain ++ rest)

-- The entries that are freed, and the table that is left.
unfoldable pub free_hash_table : FhTable → Run (List FhEntry × FhTable)
free_hash_table t = do
  freed ← free_buckets t.bucket_count 0 t.buckets
  ok (freed, record { buckets = []; bucket_count = 0; entry_count = 0 })
