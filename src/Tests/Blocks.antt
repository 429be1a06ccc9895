-- ===== src/Tests/Blocks.antt =====
-- Examples of the hash functions and of the hash table of fast_hash.h, and of hashalg.c.
use mathlib.Core.List.{Perm}
use Prim.{tt}
use random_c_code_snippets_b.Prelude.{
  ◌⊎◌, false, ℕ, zero, suc, ◌^◌, ◌<◌, ◌≡◌, ◌≢◌, inl, refl, arith, true, Option, none, some, List,
  [], ◌∷◌, replicate, length, length-replicate, get_or, set, get_or-replicate, length-set,
  get_or-set_ne, sym, ap, ◌∙◌, ok, Returns, ◌>>=◌, ℕ_discrete,
}
use random_c_code_snippets_b.FastHash.{M128, fast_hash_words, fast_hash}
use random_c_code_snippets_b.FastHash.Loops.{fast_hash-words}
use random_c_code_snippets_b.FastHash.Detect.{IsBlock, Differ}
use random_c_code_snippets_b.FastHash.OneWord.{fast_hash_words-Differ}
use random_c_code_snippets_b.FastHash.Table.{
  FhEntry, FhTable, init_hash_table, hash_table_insert, hash_table_lookup, free_hash_table,
}
use random_c_code_snippets_b.FastHash.Table.Grow.{IsSize}
use random_c_code_snippets_b.FastHash.Table.Total.{fast_hash_returns}
use random_c_code_snippets_b.FastHash.Table.Log.{Represents, newest}
use random_c_code_snippets_b.FastHash.Table.Lookup.{hash_table_lookup-newest}
use random_c_code_snippets_b.FastHash.Table.Free.{free_hash_table-Perm}
use random_c_code_snippets_b.FastHash.Table.Insert.{entry, hash_table_insert-Represents}
use random_c_code_snippets_b.FastHash.Table.Answers.{
  init_hash_table-Represents, hash_table_lookup-insert, hash_table_lookup-insert_ne,
}

-- A build without AES-NI.
abbrev scalar : Option (M128 → M128 → M128)
scalar = none

-- A block of zeros.
abbrev zeros : List ℕ
zeros = replicate 128 0

length-zeros : length zeros ≡ 128
length-zeros = length-replicate {A = ℕ} 128 0

fast_hash-words_example : fast_hash none zeros 128 ≡ fast_hash_words zeros 128
fast_hash-words_example = fast_hash-words zeros 128 (inl refl)

-- The block with a bit of byte 20 flipped.
abbrev flipped : List ℕ
flipped = set zeros 20 1

zeros-IsBlock : IsBlock zeros 128
zeros-IsBlock = record {
  size = length-zeros;
  bytes = λ i. rw (get_or-replicate {A = ℕ} 128 i 0) (omega arith);
}

flipped-IsBlock : IsBlock flipped 128
flipped-IsBlock = record {
  size = length-set zeros 20 1 ∙ length-zeros;
  bytes = λ i. elim (ℕ_discrete 20 i) [
    | yes here ↦ rw (← here) (omega arith)
    | no away ↦ rw (get_or-set_ne zeros 20 i 1 0 away) (zeros-IsBlock.bytes i)
  ];
}

zeros-Differ : Differ zeros flipped 128 16
zeros-Differ = record {
  left_block = zeros-IsBlock;
  right_block = flipped-IsBlock;
  rest = λ i away. sym (get_or-set_ne zeros 20 i 1 0 (λ e. away (omega arith)));
}

fast_hash_words-Differ_example :
    Returns (fast_hash_words zeros 128) λ h. Returns (fast_hash_words flipped 128) λ h'. h ≢ h'
fast_hash_words-Differ_example =
    fast_hash_words-Differ zeros-Differ refl (omega arith) refl (omega arith) 20
      (λ e. omega (arith, e))

fast_hash_returns_example : Returns (fast_hash scalar zeros 128) (λ h. h < 2 ^ 64)
fast_hash_returns_example = fast_hash_returns scalar zeros 128 length-zeros (inl refl)

-- Pointer 2 is to the flipped block, the others to blocks of zeros.
abbrev memory : ℕ → List ℕ
memory zero = zeros
memory (suc zero) = zeros
memory (suc (suc p)) = flipped

init_hash_table-Represents_example : Returns (init_hash_table true 5) λ o.
    ((true ≡ false) × (o ≡ none))
    ⊎ ((true ≡ true)
        × ((t : FhTable) × (o ≡ some t) × IsSize 5 t.bucket_count × Represents scalar memory t []))
init_hash_table-Represents_example = init_hash_table-Represents scalar memory true 5 (omega arith)

-- A table of four buckets.
abbrev empty_table : FhTable
empty_table = record { buckets = [] ∷ [] ∷ [] ∷ [] ∷ []; bucket_count = 4; entry_count = 0 }

empty_table-Represents : Represents scalar memory empty_table []
empty_table-Represents = record {
  positive = omega arith;
  bounded = omega arith;
  buckets_size = refl;
  chains = λ j h. get_or-replicate 4 j [];
  entries = tt;
  count = refl;
}

hash_table_lookup-insert_example :
    Returns
      (hash_table_insert scalar memory true empty_table 0 128 >>= λ x.
        hash_table_lookup scalar memory x.1 1 128)
      (λ o. (e : FhEntry) × (o ≡ some e) × (e.data_pointer ≡ 0) × (e.len ≡ 128))
hash_table_lookup-insert_example =
    hash_table_lookup-insert scalar memory empty_table [] 0 1 128 empty_table-Represents
      length-zeros (inl refl) refl

blocks_differ : flipped ≢ zeros
blocks_differ e = let byte = ap (λ b. get_or b 20 0) e in omega (arith, byte)

hash_table_lookup-insert_ne_example :
    (hash_table_insert scalar memory true empty_table 0 128 >>= λ x.
    hash_table_lookup scalar memory x.1 2 128)
    ≡ hash_table_lookup scalar memory empty_table 2 128
hash_table_lookup-insert_ne_example =
    hash_table_lookup-insert_ne scalar memory empty_table [] 0 2 128 128 empty_table-Represents
      length-zeros (inl refl) flipped-IsBlock.size (inl refl) blocks_differ

-- The hash of the block of zeros, and the table that it is put into.
zeros_hash : Returns (fast_hash scalar zeros 128) (λ h. h < 2 ^ 64)
zeros_hash = fast_hash_returns scalar zeros 128 length-zeros (inl refl)

stored :
    Returns
      (hash_table_insert scalar memory true empty_table 0 128)
      (λ x. (x.0 ≡ true) × Represents scalar memory x.1 (entry zeros_hash.0 0 128 ∷ []))
stored =
    hash_table_insert-Represents scalar memory zeros_hash.0 0 128 length-zeros zeros_hash.1
      empty_table [] empty_table-Represents

hash_table_insert-Represents_example :
    Returns
      (hash_table_insert scalar memory true empty_table 0 128)
      (λ x. (x.0 ≡ true) × Represents scalar memory x.1 (entry zeros_hash.0 0 128 ∷ []))
hash_table_insert-Represents_example =
    hash_table_insert-Represents scalar memory zeros_hash.0 0 128 length-zeros zeros_hash.1
      empty_table [] empty_table-Represents

hash_table_lookup-newest_example :
    hash_table_lookup scalar memory stored.0.1 1 128
    ≡ ok (newest scalar memory 1 128 (entry zeros_hash.0 0 128 ∷ []))
hash_table_lookup-newest_example =
    hash_table_lookup-newest scalar memory zeros_hash.0 1 128 length-zeros zeros_hash.1 stored.0.1
      (entry zeros_hash.0 0 128 ∷ []) stored.2.1

free_hash_table-Perm_example : Returns (free_hash_table stored.0.1) (λ x.
    Perm x.0 (entry zeros_hash.0 0 128 ∷ [])
    × (x.1 ≡ record { buckets = []; bucket_count = 0; entry_count = 0 }))
free_hash_table-Perm_example =
    free_hash_table-Perm scalar memory stored.0.1 (entry zeros_hash.0 0 128 ∷ []) stored.2.1
