-- ===== src/FastHash/Table/Lookup.antt =====
-- fast_hash.h: hash_table_lookup, on the log that the table stands for.
use random_c_code_snippets_b.Prelude.{
  ℕ, zero, suc, ◌≡◌, refl, sym, ap, ap₂, ◌∙◌, inl, inr, arith, bit_and, Bool, true, false, ◌&&◌,
  Bool-cases, eq-false, Option, List, [], ◌∷◌, length, ◌==◌, ==_iff, ok, ok_injective, read-get_or,
}
use random_c_code_snippets_b.Word.{sub64}
use random_c_code_snippets_b.FastHash.{M128, fast_hash}
use random_c_code_snippets_b.FastHash.Table.{
  FhEntry, FhTable, is_same, is_match, find_entry, hash_table_lookup,
}
use random_c_code_snippets_b.FastHash.Table.Log.{
  bucket_of, chain_of, eq_bytes, IsEntry, AllEntries, Represents, holds, newest, inside,
}

is_same_lem :
    (n : ℕ) (a b : List ℕ) → length a ≡ n → length b ≡ n → is_same n a b ≡ ok (eq_bytes a b)
unfolding is_same
is_same_lem zero [] [] p q = refl
is_same_lem zero [] (y ∷ b) p q = absurd (omega arith)
is_same_lem zero (x ∷ a) b p q = absurd (omega arith)
is_same_lem (suc n) [] b p q = absurd (omega arith)
is_same_lem (suc n) (x ∷ a) [] p q = absurd (omega arith)
is_same_lem (suc n) (x ∷ a) (y ∷ b) p q =
    rw (is_same_lem n a b (omega arith) (omega arith))
      (elim (Bool-cases (x == y)) [ inl e ↦ rw e refl | inr e ↦ rw e refl ])

clash : {b : Bool} → b ≡ true → b ≡ false → ⊥
clash p q = cc

pub and_parts : (a b : Bool) → (a && b) ≡ true → (a ≡ true) × (b ≡ true)
and_parts true true e = (refl, refl)
and_parts true false e = absurd cc
and_parts false b e = absurd cc

pub eq_bytes_sound : (a b : List ℕ) → eq_bytes a b ≡ true → a ≡ b
eq_bytes_sound [] [] e = refl
eq_bytes_sound [] (y ∷ b) e = absurd (cc)
eq_bytes_sound (x ∷ a) [] e = absurd (cc)
eq_bytes_sound (x ∷ a) (y ∷ b) e =
    let parts = and_parts (x == y) (eq_bytes a b) e in
    ap₂ ◌∷◌ ((==_iff x y).0 parts.0) (eq_bytes_sound a b parts.1)

module _ (aes : Option (M128 → M128 → M128)) (memory : ℕ → List ℕ) where
  module _ (h block len : ℕ) (size : length (memory block) ≡ len)
      (hashed : fast_hash aes (memory block) len ≡ ok h) where
    holds_hash :
        (e : FhEntry) → IsEntry aes memory e → holds aes memory block len e ≡ true → e.hash ≡ h
    holds_hash e v m =
        let parts = and_parts (e.len == len) (eq_bytes (memory e.data_pointer) (memory block)) m in
        let bytes = eq_bytes_sound (memory e.data_pointer) (memory block) parts.1 in
        ok_injective
          (sym v.hashed ∙ ap₂ (fast_hash aes) bytes ((==_iff e.len len).0 parts.0) ∙ hashed)

    is_match_lem :
        (e : FhEntry)
        → IsEntry aes memory e
        → is_match aes memory h block len e ≡ ok (holds aes memory block len e)
    unfolding is_match
    is_match_lem e v = elim (Bool-cases (e.len == len)) [
      | inr other ↦ elim (Bool-cases (e.hash == h)) [
        | inl same ↦ rw (same, other)
        | inr differ ↦ rw (differ, other)
      ]
      | inl same_len ↦
          let sized =
            is_same_lem len (memory e.data_pointer) (memory block)
              (v.size ∙ (==_iff e.len len).0 same_len) size in
          elim (Bool-cases (e.hash == h)) [
            | inl same ↦ rw (same, same_len, sized)
            | inr differ ↦ rw differ (
                ap ok (
                  sym (
                    eq-false (holds aes memory block len e)
                      (λ m. clash ((==_iff e.hash h).1 (holds_hash e v m)) differ))))
          ]
    ]

    find_entry_lem :
        (n : ℕ) (log : List FhEntry)
        → AllEntries aes memory log
        → find_entry aes memory h block len (chain_of n (bit_and h (sub64 n 1)) log)
          ≡ ok (newest aes memory block len log)
    unfolding find_entry
    find_entry_lem n [] v = refl
    find_entry_lem n (e ∷ log) v = elim (Bool-cases (bucket_of n e == bit_and h (sub64 n 1))) [
      | inl inside ↦
          rw (inside, is_match_lem e v.0, find_entry_lem n log v.1)
            (elim (Bool-cases (holds aes memory block len e)) [ inl m ↦ rw m | inr m ↦ rw m ])
      | inr outside ↦
          let missed = eq-false (holds aes memory block len e) (λ m.
            clash
              ((==_iff (bucket_of n e) (bit_and h (sub64 n 1))).1
                (ap (λ x. bit_and x (sub64 n 1)) (holds_hash e v.0 m)))
              outside) in
          rw (outside, missed) (find_entry_lem n log v.1)
    ]

    -- In a table that stands for a log, for a block of `len` bytes whose hash is computed:
    -- hash_table_lookup ends, and finds the newest entry of the log that holds the same bytes, or
    -- nothing if there is none.
    pub hash_table_lookup-newest :
        (t : FhTable) (log : List FhEntry)
        → Represents aes memory t log
        → hash_table_lookup aes memory t block len ≡ ok (newest aes memory block len log)
    unfolding hash_table_lookup
    hash_table_lookup-newest t log r =
        let here = inside h t.bucket_count r.positive r.bounded in
        rw
          (
            hashed,
            read-get_or t.buckets (bit_and h (sub64 t.bucket_count 1)) [] (rw r.buckets_size here),
            r.chains (bit_and h (sub64 t.bucket_count 1)) here,
          )
          (find_entry_lem t.bucket_count log r.entries)
