-- ===== src/FastHash/Mix.antt =====
-- hashalg.c and fast_hash.h: the inverses of fh_mix and of the multiplications of the lanes.
use random_c_code_snippets_b.Prelude.{ℕ, ◌*◌, ◌/◌, ◌^◌, ◌<◌, ◌≡◌, sym, ap, ap₂, ◌∙◌, arith, bit_xor}
use random_c_code_snippets_b.Bits.{bit_xor_comm, bit_xor_injective, bit_xor-lt}
use random_c_code_snippets_b.Word.{
  u64, xor_shift, xor_shift_undo, xor_shift_undo_double, xor_shift-lt,
}
use random_c_code_snippets_b.FastHash.{fh_k1, fh_k2, fh_k3, fh_mix, lane_step, Lanes, finish}

-- Multiplication by `k` on 64 bits is undone by multiplication by `inverse`.
abbrev pub IsUndone : ℕ → ℕ → Type 0
IsUndone k inverse = (x : ℕ) → x < 2 ^ 64 → u64 (u64 (x * k) * inverse) ≡ x

pub k1_IsUndone : IsUndone fh_k1 0xF1DE83E19937733D
k1_IsUndone x h = omega arith

pub k2_IsUndone : IsUndone fh_k2 0x96DE1B173F119089
k2_IsUndone x h = omega arith

pub k3_IsUndone : IsUndone fh_k3 0x319642B2D24D8EC3
k3_IsUndone x h = omega arith

-- `fh_mix`, backwards.
abbrev pub fh_unmix : ℕ → ℕ
fh_unmix h =
    let b = u64 (xor_shift 32 h * 0x319642B2D24D8EC3) in
    let a = u64 (xor_shift 58 (xor_shift 29 b) * 0x96DE1B173F119089) in xor_shift 33 a

shift_undo : (x : ℕ) → x < 2 ^ 64 → xor_shift 58 (xor_shift 29 (xor_shift 29 x)) ≡ x
shift_undo x h = xor_shift_undo_double 29 58 x (omega arith) (omega arith)

shift-lt : (s x : ℕ) → x < 2 ^ 64 → x / 2 ^ s < 2 ^ 64 → xor_shift s x < 2 ^ 64
shift-lt s x h k = xor_shift-lt 64 s x h k

-- The final mix loses nothing: any 64-bit hash can be had back from its mix.
pub fh_mix_lem : (h : ℕ) → h < 2 ^ 64 → fh_unmix (fh_mix h) ≡ h
unfolding fh_mix
fh_mix_lem h p =
    let a = xor_shift 33 h in
    let b = u64 (a * fh_k2) in
    let c = xor_shift 29 b in
    let a-lt = shift-lt 33 h p (omega arith) in
    let c-lt = shift-lt 29 b (omega arith) (omega arith) in
    rw
      (
        xor_shift_undo 32 (u64 (c * fh_k3)) (omega arith),
        k3_IsUndone c c-lt,
        shift_undo b (omega arith),
        k2_IsUndone a a-lt,
      )
      (xor_shift_undo 33 h (omega arith))

pub fh_mix-lt : (h : ℕ) → fh_mix h < 2 ^ 64
unfolding fh_mix
fh_mix-lt h = shift-lt 32 _ (omega arith) (omega arith)

pub fh_mix_injective : (a b : ℕ) → a < 2 ^ 64 → b < 2 ^ 64 → fh_mix a ≡ fh_mix b → a ≡ b
fh_mix_injective a b p q e = sym (fh_mix_lem a p) ∙ ap fh_unmix e ∙ fh_mix_lem b q

module _ (k inverse : ℕ) (undo : IsUndone k inverse) where
  -- Multiplication by an invertible constant keeps words apart.
  pub product_injective : (a b : ℕ) → a < 2 ^ 64 → b < 2 ^ 64 → u64 (a * k) ≡ u64 (b * k) → a ≡ b
  product_injective a b p q e = sym (undo a p) ∙ ap (λ x. u64 (x * inverse)) e ∙ undo b q

  module _ {a b w v : ℕ} (p : a < 2 ^ 64) (q : b < 2 ^ 64) (r : w < 2 ^ 64) (s : v < 2 ^ 64) where
    inputs_agree : lane_step a w k ≡ lane_step b v k → bit_xor a w ≡ bit_xor b v
    unfolding lane_step
    inputs_agree e = product_injective _ _ (bit_xor-lt 64 a w p r) (bit_xor-lt 64 b v q s) e

  -- One word into two lanes keeps the lanes apart.
  pub lane_step_injective :
      (a b w : ℕ) → a < 2 ^ 64 → b < 2 ^ 64 → w < 2 ^ 64 → lane_step a w k ≡ lane_step b w k → a ≡ b
  lane_step_injective a b w p q r e = bit_xor_injective a b w (inputs_agree p q r r e)

  -- Two words into one lane keep the words apart.
  pub lane_step_word_injective :
      (a w v : ℕ) → a < 2 ^ 64 → w < 2 ^ 64 → v < 2 ^ 64 → lane_step a w k ≡ lane_step a v k → w ≡ v
  lane_step_word_injective a w v p q r e =
      bit_xor_injective w v a (bit_xor_comm w a ∙ inputs_agree p p q r e ∙ bit_xor_comm a v)

pub lane_step-lt : (a w k : ℕ) → lane_step a w k < 2 ^ 64
unfolding lane_step
lane_step-lt a w k = omega arith

-- `(h * k) ^ lane` at the end of the hash functions.
abbrev pub joined : ℕ → ℕ → ℕ → ℕ
joined h lane k = bit_xor (u64 (h * k)) lane

pub joined-lt : (h lane k : ℕ) → lane < 2 ^ 64 → joined h lane k < 2 ^ 64
joined-lt h lane k p = bit_xor-lt 64 (u64 (h * k)) lane (omega arith) p

pub joined_left :
    (k inverse : ℕ)
    → IsUndone k inverse
    → {h h' lane lane' : ℕ} → h < 2 ^ 64
    → h' < 2 ^ 64
    → lane ≡ lane'
    → joined h lane k ≡ joined h' lane' k
    → h ≡ h'
joined_left k inverse undo {h} {h'} {lane} {lane'} p q same e =
    product_injective k inverse undo h h' p q (
      bit_xor_injective (u64 (h * k)) (u64 (h' * k)) lane
        (e ∙ ap (bit_xor (u64 (h' * k))) (sym same)))

pub joined_right :
    (k : ℕ) {h h' lane lane' : ℕ} → h ≡ h' → joined h lane k ≡ joined h' lane' k → lane ≡ lane'
joined_right k {h} {h'} {lane} {lane'} same e = bit_xor_injective lane lane' (u64 (h * k)) (
    bit_xor_comm lane (u64 (h * k))
    ∙ e
    ∙ ap (λ x. bit_xor (u64 (x * k)) lane') (sym same)
    ∙ bit_xor_comm (u64 (h * k)) lane')

-- Before the final mix.
abbrev pub gathered : Lanes → ℕ
gathered l = joined (joined (joined l.h0 l.h1 fh_k1) l.h2 fh_k2) l.h3 fh_k3

pub finish_injective :
    (l l' : Lanes) (len : ℕ)
    → l.h3 < 2 ^ 64
    → l'.h3 < 2 ^ 64
    → len < 2 ^ 64
    → finish l len ≡ finish l' len
    → gathered l ≡ gathered l'
unfolding finish
finish_injective l l' len p q r e = bit_xor_injective (gathered l) (gathered l') len (
    fh_mix_injective (bit_xor (gathered l) len) (bit_xor (gathered l') len)
      (bit_xor-lt 64 (gathered l) len (joined-lt _ l.h3 fh_k3 p) r)
      (bit_xor-lt 64 (gathered l') len (joined-lt _ l'.h3 fh_k3 q) r) e)

-- Lanes are 64-bit words.
pub record IsLanes (l : Lanes) : Type 0 where
  pub h0-lt : l.h0 < 2 ^ 64
  pub h1-lt : l.h1 < 2 ^ 64
  pub h2-lt : l.h2 < 2 ^ 64
  pub h3-lt : l.h3 < 2 ^ 64

-- What is gathered determines each lane, the other three given.
module _ {l l' : Lanes} (v : IsLanes l) (v' : IsLanes l') (e : gathered l ≡ gathered l') where
  pub last_lane : l.h0 ≡ l'.h0 → l.h1 ≡ l'.h1 → l.h2 ≡ l'.h2 → l.h3 ≡ l'.h3
  last_lane e0 e1 e2 =
      joined_right fh_k3 (ap₂ (λ h a. joined h a fh_k2) (ap₂ (λ h a. joined h a fh_k1) e0 e1) e2) e

  third :
      l.h3 ≡ l'.h3
      → joined (joined l.h0 l.h1 fh_k1) l.h2 fh_k2 ≡ joined (joined l'.h0 l'.h1 fh_k1) l'.h2 fh_k2
  third e3 =
      joined_left fh_k3 _ k3_IsUndone (joined-lt _ l.h2 fh_k2 v.h2-lt)
        (joined-lt _ l'.h2 fh_k2 v'.h2-lt) e3 e

  pub third_lane : l.h0 ≡ l'.h0 → l.h1 ≡ l'.h1 → l.h3 ≡ l'.h3 → l.h2 ≡ l'.h2
  third_lane e0 e1 e3 = joined_right fh_k2 (ap₂ (λ h a. joined h a fh_k1) e0 e1) (third e3)

  second : l.h2 ≡ l'.h2 → l.h3 ≡ l'.h3 → joined l.h0 l.h1 fh_k1 ≡ joined l'.h0 l'.h1 fh_k1
  second e2 e3 =
      joined_left fh_k2 _ k2_IsUndone (joined-lt _ l.h1 fh_k1 v.h1-lt)
        (joined-lt _ l'.h1 fh_k1 v'.h1-lt) e2 (third e3)

  pub second_lane : l.h0 ≡ l'.h0 → l.h2 ≡ l'.h2 → l.h3 ≡ l'.h3 → l.h1 ≡ l'.h1
  second_lane e0 e2 e3 = joined_right fh_k1 e0 (second e2 e3)

  pub first_lane : l.h1 ≡ l'.h1 → l.h2 ≡ l'.h2 → l.h3 ≡ l'.h3 → l.h0 ≡ l'.h0
  first_lane e1 e2 e3 = joined_left fh_k1 _ k1_IsUndone v.h0-lt v'.h0-lt e1 (second e2 e3)
