-- ===== src/Bits.antt =====
-- Laws of `^` (exclusive or) and of right shifts at every width, which the models of the hash
-- functions use. No source code is modelled here.
use Prim.Native.Nat.{digits, differ, bit_xor-bitwise, bit_and-bitwise}
use native.Mathlib.Nat.{le_refl, pow-suc, div-div-eq-div-mul}
use random_c_code_snippets_b.Prelude.{
  ℕ, zero, suc, ◌+◌, ◌-◌, ◌*◌, ◌/◌, ◌%◌, ◌^◌, ◌≤◌, ◌<◌, bit_xor, bit_and, min, ◌≡◌, refl, sym, ap,
  ◌∙◌, arith,
}

-- More fuel than the first operand needs changes no digit.
module _ (tail : ℕ → ℕ) (op : ℕ → ℕ → ℕ) where
  one_more : (fuel x y : ℕ) → x ≤ fuel → digits tail op (suc fuel) x y ≡ digits tail op fuel x y
  one_more zero zero y h = refl
  one_more zero (suc x) y h = absurd (omega arith)
  one_more (suc fuel) zero y h = refl
  one_more (suc fuel) (suc x) y h = rw (one_more fuel (suc x / 2) (y / 2) (omega arith))

  many_more :
      (extra fuel x y : ℕ) → x ≤ fuel → digits tail op (fuel + extra) x y ≡ digits tail op fuel x y
  many_more zero fuel x y h = ap (λ n. digits tail op n x y) (omega arith)
  many_more (suc extra) fuel x y h =
      ap (λ n. digits tail op n x y) (omega arith)
      ∙ many_more extra (suc fuel) x y (omega arith)
      ∙ one_more fuel x y h

  -- The digits of a half, with the fuel that is left for them.
  half_digits :
      (x y : ℕ) → digits tail op x (suc x / 2) y ≡ digits tail op (suc x / 2) (suc x / 2) y
  half_digits x y =
      ap (λ n. digits tail op n (suc x / 2) y) (omega arith)
      ∙ many_more (x - suc x / 2) (suc x / 2) (suc x / 2) y (omega arith)

-- The exclusive or of two binary digits.
abbrev xor_digit : ℕ → ℕ → ℕ
xor_digit a b = (a % 2 + b % 2) % 2

differ-sub : (a b : ℕ) → differ a b ≡ (a - b) + (b - a)
differ-sub zero b = omega arith
differ-sub (suc a) zero = omega arith
differ-sub (suc a) (suc b) = omega (arith, differ-sub a b)

differ_lem : (a b : ℕ) → differ (a % 2) (b % 2) ≡ xor_digit a b
differ_lem a b = omega (arith, differ-sub (a % 2) (b % 2))

pub zero-bit_xor : (b : ℕ) → bit_xor 0 b ≡ b
zero-bit_xor b = bit_xor-bitwise 0 b

-- The law for the lowest digit.
bit_xor_step : (a b : ℕ) → bit_xor a b ≡ bit_xor (a / 2) (b / 2) * 2 + xor_digit a b
bit_xor_step zero b = omega (arith, zero-bit_xor b, zero-bit_xor (b / 2))
bit_xor_step (suc a) b = omega (
  arith,
  bit_xor-bitwise (suc a) b,
  bit_xor-bitwise (suc a / 2) (b / 2),
  differ_lem (suc a) b,
  half_digits (λ y. y) differ a (b / 2),
)

bit_xor-zero_fuel : (n a : ℕ) → a ≤ n → bit_xor a 0 ≡ a
bit_xor-zero_fuel n zero h = refl
bit_xor-zero_fuel zero (suc a) h = absurd (omega arith)
bit_xor-zero_fuel (suc n) (suc a) h =
    omega (arith, bit_xor_step (suc a) 0, bit_xor-zero_fuel n (suc a / 2) (omega arith))

pub bit_xor-zero : (a : ℕ) → bit_xor a 0 ≡ a
bit_xor-zero a = bit_xor-zero_fuel a a (le_refl a)

bit_xor_self_fuel : (n a : ℕ) → a ≤ n → bit_xor a a ≡ 0
bit_xor_self_fuel n zero h = refl
bit_xor_self_fuel zero (suc a) h = absurd (omega arith)
bit_xor_self_fuel (suc n) (suc a) h =
    omega (arith, bit_xor_step (suc a) (suc a), bit_xor_self_fuel n (suc a / 2) (omega arith))

pub bit_xor_self : (a : ℕ) → bit_xor a a ≡ 0
bit_xor_self a = bit_xor_self_fuel a a (le_refl a)

bit_xor_comm_fuel : (n a b : ℕ) → a ≤ n → bit_xor a b ≡ bit_xor b a
bit_xor_comm_fuel n zero b h = omega (arith, zero-bit_xor b, bit_xor-zero b)
bit_xor_comm_fuel zero (suc a) b h = absurd (omega arith)
bit_xor_comm_fuel (suc n) (suc a) b h = omega (
  arith,
  bit_xor_step (suc a) b,
  bit_xor_step b (suc a),
  bit_xor_comm_fuel n (suc a / 2) (b / 2) (omega arith),
)

pub bit_xor_comm : (a b : ℕ) → bit_xor a b ≡ bit_xor b a
bit_xor_comm a b = bit_xor_comm_fuel a a b (le_refl a)

-- The digits above the lowest.
pub bit_xor-div_two : (a b : ℕ) → bit_xor a b / 2 ≡ bit_xor (a / 2) (b / 2)
bit_xor-div_two a b = omega (arith, bit_xor_step a b)

bit_xor-mod_two : (a b : ℕ) → bit_xor a b % 2 ≡ xor_digit a b
bit_xor-mod_two a b = omega (arith, bit_xor_step a b)

bit_xor_assoc_fuel : (n a b c : ℕ) → a ≤ n → bit_xor (bit_xor a b) c ≡ bit_xor a (bit_xor b c)
bit_xor_assoc_fuel n zero b c h = rw (zero-bit_xor b, zero-bit_xor (bit_xor b c))
bit_xor_assoc_fuel zero (suc a) b c h = absurd (omega arith)
bit_xor_assoc_fuel (suc n) (suc a) b c h = omega (
  arith,
  bit_xor_step (bit_xor (suc a) b) c,
  bit_xor_step (suc a) (bit_xor b c),
  bit_xor-mod_two (suc a) b,
  bit_xor-mod_two b c,
  ap (λ (t : ℕ). bit_xor t (c / 2)) (bit_xor-div_two (suc a) b),
  ap (λ (t : ℕ). bit_xor (suc a / 2) t) (bit_xor-div_two b c),
  bit_xor_assoc_fuel n (suc a / 2) (b / 2) (c / 2) (omega arith),
)

pub bit_xor_assoc : (a b c : ℕ) → bit_xor (bit_xor a b) c ≡ bit_xor a (bit_xor b c)
bit_xor_assoc a b c = bit_xor_assoc_fuel a a b c (le_refl a)

-- What is mixed in twice is gone.
pub bit_xor_cancel : (a b : ℕ) → bit_xor (bit_xor a b) b ≡ a
bit_xor_cancel a b = rw (bit_xor_assoc, bit_xor_self, bit_xor-zero)

pub bit_xor_injective : (a b c : ℕ) → bit_xor a c ≡ bit_xor b c → a ≡ b
bit_xor_injective a b c e = sym (bit_xor_cancel a c) ∙ ap (λ t. bit_xor t c) e ∙ bit_xor_cancel b c

shr-zero : (x : ℕ) → x / 2 ^ 0 ≡ x
shr-zero x = omega arith

shr-suc : (k x : ℕ) → x / 2 ^ suc k ≡ x / 2 ^ k / 2
shr-suc k x = ap (λ (t : ℕ). x / t) (pow-suc 2 k) ∙ sym (div-div-eq-div-mul x (2 ^ k) 2)

-- A right shift acts on both sides.
pub bit_xor-div : (k a b : ℕ) → bit_xor a b / 2 ^ k ≡ bit_xor (a / 2 ^ k) (b / 2 ^ k)
bit_xor-div zero a b = rw (shr-zero (bit_xor a b), shr-zero a, shr-zero b)
bit_xor-div (suc k) a b =
    shr-suc k (bit_xor a b)
    ∙ ap (λ (t : ℕ). t / 2) (bit_xor-div k a b)
    ∙ bit_xor-div_two (a / 2 ^ k) (b / 2 ^ k)
    ∙ rw (shr-suc k a, shr-suc k b)

half_zero : (a : ℕ) → a < 1 → a / 2 ≡ 0
half_zero a h = omega arith

pub bit_xor-lt : (k a b : ℕ) → a < 2 ^ k → b < 2 ^ k → bit_xor a b < 2 ^ k
bit_xor-lt zero a b p q = omega (
  arith,
  bit_xor_step a b,
  ap (λ (t : ℕ). bit_xor t (b / 2)) (half_zero a p),
  zero-bit_xor (b / 2),
)
bit_xor-lt (suc k) a b p q = omega (
  arith,
  pow-suc 2 k,
  bit_xor_step a b,
  bit_xor-lt k (a / 2) (b / 2) (omega (arith, pow-suc 2 k)) (omega (arith, pow-suc 2 k)),
)

low_digit_and : (x y : ℕ) → bit_and x y ≡ min (x % 2) (y % 2) + 2 * bit_and (x / 2) (y / 2)
low_digit_and zero y = omega (arith, bit_and-bitwise 0 y, bit_and-bitwise 0 (y / 2))
low_digit_and (suc x) y = omega (
  arith,
  bit_and-bitwise (suc x / 2) (y / 2),
  bit_and-bitwise (suc x) y,
  half_digits (λ _. 0) min x (y / 2),
)

bit_and-le_fuel : (fuel x mask : ℕ) → x ≤ fuel → bit_and x mask ≤ mask
bit_and-le_fuel fuel zero mask h = omega (arith, bit_and-bitwise 0 mask)
bit_and-le_fuel zero (suc x) mask h = absurd (omega arith)
bit_and-le_fuel (suc fuel) (suc x) mask h =
    omega
      (arith, low_digit_and (suc x) mask, bit_and-le_fuel fuel (suc x / 2) (mask / 2) (omega arith))

-- A mask bounds what it lets through.
pub bit_and-le : (a b : ℕ) → bit_and a b ≤ b
bit_and-le a b = bit_and-le_fuel a a b (le_refl a)
