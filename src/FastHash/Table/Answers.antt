-- ===== src/FastHash/Table/Answers.antt =====
-- fast_hash.h: a table as its callers see it, from init_hash_table to hash_table_lookup.
use Prim.{tt}
use native.Mathlib.Nat.{one-le-pow}
use random_c_code_snippets_b.Prelude.{
  ℕ, ◌^◌, ◌≤◌, ◌≡◌, ◌≢◌, ◌&&◌, eq-false, refl, sym, ap, ap₂, ◌∙◌, ◌⊎◌, arith, Bool, true, false,
  Option, none, some, inl, inr, List, [], length, get_or, replicate, length-replicate,
  get_or-replicate, ==_refl, Returns, ◌>>=◌,
}
use random_c_code_snippets_b.FastHash.{M128, fast_hash}
use random_c_code_snippets_b.FastHash.Table.{
  FhEntry, FhTable, init_hash_table, hash_table_insert, hash_table_lookup,
}
use random_c_code_snippets_b.FastHash.Table.Grow.{
  IsSize, init_hash_table_lem, init_hash_table_refused,
}
use random_c_code_snippets_b.FastHash.Table.Total.{fast_hash_returns}
use random_c_code_snippets_b.FastHash.Table.Log.{Represents, holds, eq_bytes, eq_bytes_refl}
use random_c_code_snippets_b.FastHash.Table.Lookup.{
  hash_table_lookup-newest, eq_bytes_sound, and_parts,
}
use random_c_code_snippets_b.FastHash.Table.Insert.{entry, hash_table_insert-Represents}

module _ (aes : Option (M128 → M128 → M128)) (memory : ℕ → List ℕ) where
  represents :
      (t : FhTable) (wish : ℕ)
      → IsSize wish t.bucket_count
      → t.buckets ≡ replicate t.bucket_count []
      → t.entry_count ≡ 0
      → Represents aes memory t []
  represents t wish s empty none_yet = record {
    positive = omega (arith, s.power, one-le-pow s.exponent 2);
    bounded = s.fits;
    buckets_size = ap length empty ∙ length-replicate t.bucket_count [];
    chains = λ j h. ap (λ b. get_or b j []) empty ∙ get_or-replicate t.bucket_count j [];
    entries = tt;
    count = none_yet;
  }

  -- For a wish of at most 2 ^ 63 buckets the call ends. If calloc gives no memory, the call returns 0
  -- and makes no table. If calloc gives the memory, the call makes a table whose size is the least power
  -- of two that is enough, and which stands for the empty log.
  pub init_hash_table-Represents :
      (allocated : Bool) (wish : ℕ)
      → wish ≤ 2 ^ 63
      → Returns (init_hash_table allocated wish) λ o.
        ((allocated ≡ false) × (o ≡ none))
        ⊎ ((allocated ≡ true)
            × ((t : FhTable) × (o ≡ some t)
                × IsSize wish t.bucket_count
                × Represents aes memory t []))
  init_hash_table-Represents false wish small =
      (none, init_hash_table_refused wish small, inl (refl, refl))
  init_hash_table-Represents true wish small =
      let made = init_hash_table_lem wish small in
      (
        made.0,
        made.1,
        inr (
          refl,
          (made.2.0, made.2.1, made.2.2, represents made.2.0 wish made.2.2 made.2.3 made.2.4),
        ),
      )

  -- With memory for the entry, a block of 128 or of 4096 bytes that is put into a table that stands
  -- for a log is found again, from any copy of its bytes: the lookup gives the entry just made.
  pub hash_table_lookup-insert :
      (t : FhTable) (log : List FhEntry) (block copy len : ℕ)
      → Represents aes memory t log
      → length (memory block) ≡ len
      → (len ≡ 128) ⊎ (len ≡ 4096)
      → memory copy ≡ memory block
      → Returns
          (hash_table_insert aes memory true t block len >>= λ x.
            hash_table_lookup aes memory x.1 copy len)
          (λ o. (e : FhEntry) × (o ≡ some e) × (e.data_pointer ≡ block) × (e.len ≡ len))
  hash_table_lookup-insert t log block copy len r size either same =
      let hash = fast_hash_returns aes (memory block) len size either in
      let inserted = hash_table_insert-Represents aes memory hash.0 block len size hash.1 t log r in
      let found =
        hash_table_lookup-newest aes memory hash.0 copy len (ap length same ∙ size)
          (ap (λ b. fast_hash aes b len) same ∙ hash.1) inserted.0.1 _ inserted.2.1 in
      let match =
        ap₂ ◌&&◌ (==_refl len) (ap (eq_bytes (memory block)) same ∙ eq_bytes_refl (memory block)) in
      (
        some (entry hash.0 block len),
        rw (inserted.1, found, match) refl,
        (entry hash.0 block len, refl, refl, refl),
      )

  -- With memory for the entry, putting a block into a table that stands for a log changes no answer
  -- about a block with other bytes, where both have 128 or 4096 bytes.
  pub hash_table_lookup-insert_ne :
      (t : FhTable) (log : List FhEntry) (block other len other_len : ℕ)
      → Represents aes memory t log
      → length (memory block) ≡ len
      → (len ≡ 128) ⊎ (len ≡ 4096)
      → length (memory other) ≡ other_len
      → (other_len ≡ 128) ⊎ (other_len ≡ 4096)
      → memory other ≢ memory block
      → (hash_table_insert aes memory true t block len >>= λ x.
          hash_table_lookup aes memory x.1 other other_len)
        ≡ hash_table_lookup aes memory t other other_len
  hash_table_lookup-insert_ne t log block other len other_len r size either size' either' differ =
      let hash = fast_hash_returns aes (memory block) len size either in
      let hash' = fast_hash_returns aes (memory other) other_len size' either' in
      let inserted = hash_table_insert-Represents aes memory hash.0 block len size hash.1 t log r in
      let after =
        hash_table_lookup-newest aes memory hash'.0 other other_len size' hash'.1 inserted.0.1 _
          inserted.2.1 in
      let before =
        hash_table_lookup-newest aes memory hash'.0 other other_len size' hash'.1 t log r in
      let missed =
        eq-false (holds aes memory other other_len (entry hash.0 block len))
          (λ m. differ (sym (eq_bytes_sound _ _ (and_parts _ _ m).1))) in
      rw (inserted.1, before, after, missed) refl
