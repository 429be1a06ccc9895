-- ===== src/DirtPages/Memory/Agreement.antt =====
-- dirtPages.c: the architectures' versions of section 1 compared.
use Prim.Native.Nat.{Ordering}
use random_c_code_snippets_b.Prelude.{
  ℕ, zero, suc, ◌+◌, ◌*◌, ◌/◌, ◌^◌, ◌<◌, ◌≡◌, ◌↔◌, refl, ap, ap₂, arith, List, [], ◌∷◌, Bool, true,
  false, Returns, length, get_or, ◌⊎◌, inl, inr, ℕ_discrete,
}
use random_c_code_snippets_b.DirtPages.Memory.{
  repe_cmps, quads, memcmpx86_32, memcmpx86_64, repe_scas, is_full_zero_32, is_full_zero_64,
  scan_zero, is_full_zero_generic,
}

-- Words of a buffer are below 2 ^ 32.
abbrev pub AllWords : List ℕ → Type 0
AllWords [] = Unit
AllWords (x ∷ xs) = (x < 2 ^ 32) × AllWords xs

abbrev pub AllZero : List ℕ → Type 0
AllZero [] = Unit
AllZero (x ∷ xs) = (x ≡ 0) × AllZero xs

pub AllWords-get_or : (xs : List ℕ) → ((i : ℕ) → get_or xs i 0 < 2 ^ 32) → AllWords xs
AllWords-get_or [] h = tt
AllWords-get_or (x ∷ xs) h = (h 0, AllWords-get_or xs (λ i. h (suc i)))

trichotomy : (x y : ℕ) → (x < y) ⊎ ((x ≡ y) ⊎ (y < x))
trichotomy x y = ground arith

-- `repe_cmps` over the whole of two buffers ends, and ends equal exactly when they are equal.
repe_cmps_eq :
    (s1 s2 : List ℕ)
    → length s1 ≡ length s2
    → Returns (repe_cmps (length s1) s1 s2) λ r. (r ≡ Ordering.eq) ↔ (s1 ≡ s2)
unfolding repe_cmps
repe_cmps_eq [] [] e = (Ordering.eq, refl, (λ _. refl, λ _. refl))
repe_cmps_eq [] (y ∷ s2) e = absurd (omega arith)
repe_cmps_eq (x ∷ s1) [] e = absurd (omega arith)
repe_cmps_eq (x ∷ s1) (y ∷ s2) e = elim (trichotomy x y) [
  | inl below ↦
      (Ordering.lt, ground arith, (λ r. cc, λ r. let heads : x ≡ y = cc in absurd (omega arith)))
  | inr (inl same) ↦
      let (result, run, agree) = repe_cmps_eq s1 s2 (omega arith) in
      (
        result,
        ground (arith, run),
        (λ r. ap₂ ◌∷◌ same (agree.0 r), λ r. let tails : s1 ≡ s2 = cc in agree.1 tails),
      )
  | inr (inr above) ↦
      (Ordering.gt, ground arith, (λ r. cc, λ r. let heads : x ≡ y = cc in absurd (omega arith)))
]

repe_cmps_num :
    (num : ℕ) (s1 s2 : List ℕ)
    → num ≡ length s1
    → num ≡ length s2
    → Returns (repe_cmps num s1 s2) λ r. (r ≡ Ordering.eq) ↔ (s1 ≡ s2)
repe_cmps_num num s1 s2 e f = rw e (repe_cmps_eq s1 s2 (omega arith))

-- Equal 8-byte words are equal pairs of 4-byte words.
quads_injective :
    (s1 s2 : List ℕ) (n : ℕ)
    → length s1 ≡ 2 * n
    → length s2 ≡ 2 * n
    → AllWords s1
    → AllWords s2
    → quads s1 ≡ quads s2
    → s1 ≡ s2
unfolding quads
quads_injective [] [] n p q w v e = refl
quads_injective [] (y ∷ s2) n p q w v e = absurd (omega arith)
quads_injective (x ∷ s1) [] n p q w v e = absurd (omega arith)
quads_injective (x ∷ []) (y ∷ s2) n p q w v e = absurd (omega arith)
quads_injective (x ∷ x' ∷ s1) (y ∷ []) n p q w v e = absurd (omega arith)
quads_injective (x ∷ x' ∷ s1) (y ∷ y' ∷ s2) zero p q w v e = absurd (omega arith)
quads_injective (x ∷ x' ∷ s1) (y ∷ y' ∷ s2) (suc n) p q w v e =
    let heads : x + x' * 2 ^ 32 ≡ y + y' * 2 ^ 32 = cc in
    let tails : quads s1 ≡ quads s2 = cc in
    ap₂ ◌∷◌ (omega arith) (
      ap₂ ◌∷◌ (omega arith) (quads_injective s1 s2 n (omega arith) (omega arith) w.1.1 v.1.1 tails))

length-quads : (s1 : List ℕ) (n : ℕ) → length s1 ≡ 2 * n → length (quads s1) ≡ n
unfolding quads
length-quads [] n p = omega arith
length-quads (x ∷ []) n p = absurd (omega arith)
length-quads (x ∷ x' ∷ s1) zero p = absurd (omega arith)
length-quads (x ∷ x' ∷ s1) (suc n) p = ap suc (length-quads s1 n (omega arith))

module _ (n : ℕ) {s1 s2 : List ℕ} (len1 : length s1 ≡ 2 * n) (len2 : length s2 ≡ 2 * n) where
  -- For two buffers of the same even number of 4-byte words, compared over all their bytes: the
  -- 32-bit and the 64-bit `memcmp` both end, and each returns 0 exactly when the buffers are equal.
  pub memcmpx86_lem :
      AllWords s1
      → AllWords s2
      → (Returns (memcmpx86_32 s1 s2 (8 * n)) λ r. (r ≡ Ordering.eq) ↔ (s1 ≡ s2))
        × (Returns (memcmpx86_64 s1 s2 (8 * n)) λ r. (r ≡ Ordering.eq) ↔ (s1 ≡ s2))
  unfolding memcmpx86_32 memcmpx86_64
  memcmpx86_lem w v =
      let q1 = length-quads s1 n len1 in
      let q2 = length-quads s2 n len2 in
      let (r, run, agree) =
        repe_cmps_num (8 * n / 8) (quads s1) (quads s2) (omega arith) (omega arith) in
      (
        repe_cmps_num (8 * n / 4) s1 s2 (omega arith) (omega arith),
        (
          r,
          run,
          (λ h. quads_injective s1 s2 n len1 len2 w v (agree.0 h), λ h. agree.1 (ap quads h)),
        ),
      )

scan_zero_lem : (src : List ℕ) → Returns (scan_zero (length src) src) λ r. (r ≡ true) ↔ AllZero src
unfolding scan_zero
scan_zero_lem [] = (true, refl, (λ _. tt, λ _. refl))
scan_zero_lem (x ∷ src) = elim (ℕ_discrete x 0) [
  | yes clear ↦
      let (r, run, agree) = scan_zero_lem src in
      (r, ground (arith, run), (λ h. (clear, agree.0 h), λ h. agree.1 h.1))
  | no set ↦ (false, ground arith, (λ h. cc, λ h. absurd (set h.0)))
]

-- `repe; scas` finds what the plain loop finds, whatever the flag was, unless the count is zero.
repe_scas-scan_zero :
    (len : ℕ) (flag : Bool) (src : List ℕ) → repe_scas (suc len) flag src ≡ scan_zero (suc len) src
unfolding repe_scas scan_zero
repe_scas-scan_zero len flag [] = refl
repe_scas-scan_zero zero flag (x ∷ src) = ground arith
repe_scas-scan_zero (suc len) flag (x ∷ src) = ground (arith, repe_scas-scan_zero len true src)

repe_scas_num :
    (len : ℕ) (flag : Bool) (src : List ℕ)
    → 0 < len
    → len ≡ length src
    → Returns (repe_scas len flag src) λ r. (r ≡ true) ↔ AllZero src
repe_scas_num zero flag src h e = absurd (omega arith)
repe_scas_num (suc len) flag src h e = rw repe_scas-scan_zero (rw e (scan_zero_lem src))

scan_zero_num :
    (len : ℕ) (src : List ℕ)
    → len ≡ length src
    → Returns (scan_zero len src) λ r. (r ≡ true) ↔ AllZero src
scan_zero_num len src e = rw e (scan_zero_lem src)

quads-AllZero : (s1 : List ℕ) (n : ℕ) → length s1 ≡ 2 * n → AllZero (quads s1) ↔ AllZero s1
unfolding quads
quads-AllZero [] n e = (λ h. h, λ h. h)
quads-AllZero (x ∷ []) n e = absurd (omega arith)
quads-AllZero (x ∷ x' ∷ s1) zero e = absurd (omega arith)
quads-AllZero (x ∷ x' ∷ s1) (suc n) e =
    let rest = quads-AllZero s1 n (omega arith) in
    (λ h. (omega arith, (omega arith, rest.0 h.1)), λ h. (omega arith, rest.1 h.1.1))

-- For a buffer of a positive even number of 4-byte words, tested over all its bytes: the 32-bit,
-- the 64-bit and the generic `is_full_zero` end, and each returns 1 exactly when every word is zero,
-- whatever the processor's zero flag was.
pub is_full_zero_lem :
    (flag : Bool) (n : ℕ) (s1 : List ℕ)
    → 0 < n
    → length s1 ≡ 2 * n
    → (Returns (is_full_zero_32 flag s1 (8 * n)) λ r. (r ≡ true) ↔ AllZero s1)
      × (Returns (is_full_zero_64 flag s1 (8 * n)) λ r. (r ≡ true) ↔ AllZero s1)
      × (Returns (is_full_zero_generic s1 (8 * n)) λ r. (r ≡ true) ↔ AllZero s1)
unfolding is_full_zero_32 is_full_zero_64 is_full_zero_generic
is_full_zero_lem flag n s1 pos len =
    let q = length-quads s1 n len in
    let same = quads-AllZero s1 n len in
    let (r, run, agree) = repe_scas_num (8 * n / 8) flag (quads s1) (omega arith) (omega arith) in
    let (r', run', agree') = scan_zero_num (8 * n / 8) (quads s1) (omega arith) in
    (
      repe_scas_num (8 * n / 4) flag s1 (omega arith) (omega arith),
      (r, run, (λ h. same.0 (agree.0 h), λ h. agree.1 (same.1 h))),
      (r', run', (λ h. same.0 (agree'.0 h), λ h. agree'.1 (same.1 h))),
    )
