-- ===== src/FastHash/Table/Grow.antt =====
-- fast_hash.h: the number of buckets of init_hash_table.
use native.Mathlib.Nat.{pow-suc, one-le-pow, pow-le-pow_right}
use random_c_code_snippets_b.Prelude.{
  ℕ, zero, suc, ◌+◌, ◌*◌, ◌^◌, ◌≤◌, ◌<◌, ◌≡◌, refl, ap, ◌⊎◌, inl, inr, arith, true, some, [],
  replicate, Run, ok, fault, no_fuel, Ensures, Returns, Returns-Ensures, lt→ltb, le→ltb, dec_lt,
  ◌>>=◌,
}
use random_c_code_snippets_b.Word.{u64}
use random_c_code_snippets_b.FastHash.Table.{none, false, FhTable, grow, init_hash_table}

-- The least power of two that is not below the wish.
pub record IsSize (wish n : ℕ) : Type 0 where
  pub exponent : ℕ
  pub power : n ≡ 2 ^ exponent
  pub fits : n ≤ 2 ^ 63
  pub enough : wish ≤ n
  pub least : (n ≡ 1) ⊎ (n < wish + wish)

power_below : (k : ℕ) → k ≤ 63 → 2 ^ k ≤ 2 ^ 63
power_below k h = pow-le-pow_right (omega arith) {j = 63} h

doubled : (k : ℕ) → 2 ^ k < 2 ^ 63 → u64 (2 ^ k * 2) ≡ 2 ^ suc k
doubled k h = omega (arith, pow-suc 2 k)

IsSize-power :
    (k wish : ℕ) → k ≤ 63 → wish ≤ 2 ^ k → (2 ^ k ≡ 1) ⊎ (2 ^ k < wish + wish) → IsSize wish (2 ^ k)
IsSize-power k wish h e l = record {
  exponent = k;
  power = refl;
  fits = power_below k h;
  enough = e;
  least = l;
}

grow-IsSize :
    (fuel k wish : ℕ)
    → k + fuel ≡ 63
    → wish ≤ 2 ^ 63
    → (2 ^ k ≡ 1) ⊎ (2 ^ k < wish + wish)
    → Ensures (grow (suc fuel) (2 ^ k) wish) (IsSize wish)
unfolding grow
grow-IsSize zero k wish s small least = elim (dec_lt (2 ^ k) wish) [
  | yes below ↦
      let top : k ≡ 63 = omega arith in
      let large : 2 ^ 63 < wish = rw top at below in absurd (omega arith)
  | no done ↦
      rw (le→ltb (2 ^ k) wish (omega arith)) (IsSize-power k wish (omega arith) (omega arith) least)
]
grow-IsSize (suc fuel) k wish s small least = elim (dec_lt (2 ^ k) wish) [
  | yes below ↦
      rw (lt→ltb (2 ^ k) wish below, doubled k (omega arith))
        (grow-IsSize fuel (suc k) wish (omega arith) small (inr (omega (arith, pow-suc 2 k))))
  | no done ↦
      rw (le→ltb (2 ^ k) wish (omega arith)) (IsSize-power k wish (omega arith) (omega arith) least)
]

stuck : (fuel wish : ℕ) → 0 < wish → grow fuel 0 wish ≡ fault no_fuel
unfolding grow
stuck zero wish h = refl
stuck (suc fuel) wish h = rw (lt→ltb 0 wish h) (stuck fuel wish h)

-- Above 2 ^ 63 buckets the size overflows to 0 before it is enough, and the loop never ends.
grow_overflow : (fuel k wish : ℕ) → k ≤ 63 → 2 ^ 63 < wish → grow fuel (2 ^ k) wish ≡ fault no_fuel
unfolding grow
grow_overflow zero k wish s large = refl
grow_overflow (suc fuel) k wish s large =
    rw (lt→ltb (2 ^ k) wish (omega (arith, power_below k s))) (elim (dec_lt k 63) [
      | yes below ↦
          rw
            (doubled k
              (omega (arith, power_below (suc k) (omega arith), pow-suc 2 k, one-le-pow k 2)))
            (grow_overflow fuel (suc k) wish (omega arith) large)
      | no last ↦ let top : k ≡ 63 = omega arith in rw top (stuck fuel wish (omega arith))
    ])

-- A wish of at most 2 ^ 63 buckets gives a table with the least power of two that is enough, where
-- every chain is empty.
pub init_hash_table_lem :
    (wish : ℕ)
    → wish ≤ 2 ^ 63
    → Returns (init_hash_table true wish) (λ o.
      (t : FhTable) × (o ≡ some t)
      × IsSize wish t.bucket_count
      × (t.buckets ≡ replicate t.bucket_count [])
      × (t.entry_count ≡ 0))
unfolding init_hash_table
init_hash_table_lem wish small =
    let size =
      Returns-Ensures (grow 64 1 wish) (IsSize wish)
        (grow-IsSize 63 0 wish refl small (inl refl)) in
    let t : FhTable = record {
      buckets = replicate size.0 [];
      bucket_count = size.0;
      entry_count = 0;
    } in
    (
      some t,
      ap
          (λ (r : Run ℕ). r >>= λ n.
            ok (some (record { buckets = replicate n []; bucket_count = n; entry_count = 0 })))
          size.1,
      (t, refl, size.2, refl, refl),
    )

pub init_hash_table_refused : (wish : ℕ) → wish ≤ 2 ^ 63 → init_hash_table false wish ≡ ok none
unfolding init_hash_table
init_hash_table_refused wish small =
    let size =
      Returns-Ensures (grow 64 1 wish) (IsSize wish)
        (grow-IsSize 63 0 wish refl small (inl refl)) in
    rw size.1 refl

-- For a wish of more than 2 ^ 63 buckets the loop of init_hash_table never ends: no number of
-- rounds is enough.
pub grow_no_end : (fuel wish : ℕ) → 2 ^ 63 < wish → grow fuel 1 wish ≡ fault no_fuel
grow_no_end fuel wish large = grow_overflow fuel 0 wish (omega arith) large
