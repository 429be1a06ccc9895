-- ===== src/FastHash/Table/Insert.antt =====
-- fast_hash.h: hash_table_insert, on the log that the table stands for.
use random_c_code_snippets_b.Prelude.{
  ℕ, ◌+◌, ◌<◌, ◌≡◌, refl, sym, ap, ◌∙◌, arith, true, Option, List, [], ◌∷◌, length, get_or, set,
  length-set, get_or-set_self, get_or-set_ne, ==_ne, ==_iff, ok, read-get_or, write-set, Returns,
  ℕ_discrete,
}
use random_c_code_snippets_b.Word.{u64}
use random_c_code_snippets_b.FastHash.{M128, fast_hash}
use random_c_code_snippets_b.FastHash.Table.{FhEntry, FhTable, hash_table_insert}
use random_c_code_snippets_b.FastHash.Table.Log.{bucket_of, chain_of, Represents, inside}

abbrev pub entry : ℕ → ℕ → ℕ → FhEntry
entry h block len = record { hash = h; data_pointer = block; len = len }

-- A chain that is put in its bucket.
chains_set :
    (buckets : List (List FhEntry)) (n : ℕ) (e : FhEntry) (log : List FhEntry)
    → length buckets ≡ n
    → bucket_of n e < n
    → ((j : ℕ) → j < n → get_or buckets j [] ≡ chain_of n j log)
    → (j : ℕ) → j < n
    → get_or (set buckets (bucket_of n e) (e ∷ get_or buckets (bucket_of n e) [])) j []
      ≡ chain_of n j (e ∷ log)
chains_set buckets n e log size below chains j h = elim (ℕ_discrete (bucket_of n e) j) [
  | yes here ↦
      let b = bucket_of n e in
      rw ((==_iff b j).1 here) (
        ap (λ q. get_or (set buckets b (e ∷ get_or buckets b [])) q []) (sym here)
        ∙ get_or-set_self buckets b _ [] (rw size below)
        ∙ ap (λ c. e ∷ c) (chains b below ∙ ap (λ q. chain_of n q log) here))
  | no away ↦
      rw (==_ne (bucket_of n e) j away)
        (get_or-set_ne buckets (bucket_of n e) j _ [] away ∙ chains j h)
]

module _ (aes : Option (M128 → M128 → M128)) (memory : ℕ → List ℕ) where
  -- In a table that stands for a log, for a block of `len` bytes whose hash is computed and with
  -- memory for the entry: hash_table_insert succeeds, and the table that it leaves stands for the log
  -- with the block in front.
  pub hash_table_insert-Represents :
      (h block len : ℕ)
      → length (memory block) ≡ len
      → fast_hash aes (memory block) len ≡ ok h
      → (t : FhTable) (log : List FhEntry) → Represents aes memory t log
      → Returns
          (hash_table_insert aes memory true t block len)
          (λ x. (x.0 ≡ true) × Represents aes memory x.1 (entry h block len ∷ log))
  unfolding hash_table_insert
  hash_table_insert-Represents h block len size hashed t log r =
      let e = entry h block len in
      let idx = bucket_of t.bucket_count e in
      let here = inside h t.bucket_count r.positive r.bounded in
      let below : idx < length t.buckets = rw r.buckets_size here in
      let t' : FhTable = record {
        buckets = set t.buckets idx (e ∷ get_or t.buckets idx []);
        bucket_count = t.bucket_count;
        entry_count = u64 (t.entry_count + 1);
      } in
      (
        (true, t'),
        rw
            (
              hashed,
              read-get_or t.buckets idx [] below,
              write-set t.buckets idx (e ∷ get_or t.buckets idx []) below,
            )
            refl,
        (
          refl,
          record {
            positive = r.positive;
            bounded = r.bounded;
            buckets_size = length-set t.buckets idx _ ∙ r.buckets_size;
            chains = chains_set t.buckets t.bucket_count e log r.buckets_size here r.chains;
            entries = (record { size = size; hashed = hashed }, r.entries);
            count = omega (arith, r.count);
          },
        ),
      )
