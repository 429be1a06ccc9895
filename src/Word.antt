-- ===== src/Word.antt =====
-- Fixed-width unsigned arithmetic of C: `uint32_t` and `uint64_t` values are natural numbers below
-- 2 ^ 32 and 2 ^ 64, and every operation wraps. Also the two reversible steps that all the hash
-- functions are made of, exclusive or with a shifted self, and product by an odd constant.
use random_c_code_snippets_b.Prelude.{ℕ, ◌+◌, ◌-◌, ◌/◌, ◌%◌, ◌^◌, ◌<◌, bit_xor, ◌≡◌, ap, ◌∙◌}
use random_c_code_snippets_b.Bits.{
  bit_xor_assoc, bit_xor_self, bit_xor-zero, zero-bit_xor, bit_xor-div, bit_xor-lt,
}

abbrev pub u8 : ℕ → ℕ
u8 n = n % 2 ^ 8

abbrev pub u32 : ℕ → ℕ
u32 n = n % 2 ^ 32

abbrev pub u64 : ℕ → ℕ
u64 n = n % 2 ^ 64

-- `a - b` on `uint32_t` and on `uint64_t`, for operands in range.
abbrev pub sub32 : ℕ → ℕ → ℕ
sub32 a b = (a + 2 ^ 32 - b) % 2 ^ 32

abbrev pub sub64 : ℕ → ℕ → ℕ
sub64 a b = (a + 2 ^ 64 - b) % 2 ^ 64

-- `x ^ (x >> s)`
unfoldable pub xor_shift : ℕ → ℕ → ℕ
xor_shift s x = bit_xor x (x / 2 ^ s)

pub xor_shift_twice : (s x : ℕ) → xor_shift s (xor_shift s x) ≡ bit_xor x (x / 2 ^ s / 2 ^ s)
unfolding xor_shift
xor_shift_twice s x = rw bit_xor-div (
    rw (bit_xor_assoc x (x / 2 ^ s))
      (rw (← bit_xor_assoc (x / 2 ^ s)) (rw (bit_xor_self, zero-bit_xor))))

-- A shift by half of the width or more is undone by itself.
pub xor_shift_undo : (s x : ℕ) → x / 2 ^ s / 2 ^ s ≡ 0 → xor_shift s (xor_shift s x) ≡ x
xor_shift_undo s x h = xor_shift_twice s x ∙ ap (bit_xor x) h ∙ bit_xor-zero x

-- A shift by a quarter of the width or more is undone by itself and the double shift.
pub xor_shift_undo_double :
    (s t x : ℕ)
    → x / 2 ^ s / 2 ^ s ≡ x / 2 ^ t
    → x / 2 ^ t / 2 ^ t ≡ 0
    → xor_shift t (xor_shift s (xor_shift s x)) ≡ x
xor_shift_undo_double s t x h k =
    ap (xor_shift t) (xor_shift_twice s x ∙ ap (bit_xor x) h)
    ∙ unfold xor_shift in xor_shift_undo t x k

-- A shifted word fits the width of the word.
pub xor_shift-lt : (w s x : ℕ) → x < 2 ^ w → x / 2 ^ s < 2 ^ w → xor_shift s x < 2 ^ w
unfolding xor_shift
xor_shift-lt w s x h k = bit_xor-lt w x (x / 2 ^ s) h k
