-- ===== src/DirtPages/Sample/Mix.antt =====
-- dirtPages.c: one round of HASH_FROM_TO and one round of HASH_FROM_DOWN_TO.
use random_c_code_snippets_b.Prelude.{ℕ, ◌+◌, ◌*◌, ◌^◌, ◌<◌, ◌≡◌, refl, sym, ap, ◌∙◌, arith}
use random_c_code_snippets_b.Word.{u32, sub32, xor_shift, xor_shift_undo_double, xor_shift-lt}
use random_c_code_snippets_b.DirtPages.Sample.{mix, unmix}

spread : ℕ → ℕ → ℕ
spread hash k = u32 (u32 (hash + k) + u32 (u32 (hash + k) * 2 ^ 8))

gather : ℕ → ℕ → ℕ
gather s k = sub32 (u32 (sub32 s (u32 (s * 2 ^ 8)) + u32 (sub32 s (u32 (s * 2 ^ 8)) * 2 ^ 16))) k

spread-lt : (h k : ℕ) → spread h k < 2 ^ 32
unfolding spread
spread-lt h k = omega arith

gather-spread : (h k : ℕ) → h < 2 ^ 32 → k < 2 ^ 32 → gather (spread h k) k ≡ h
unfolding spread gather
gather-spread h k p q = omega arith

spread-gather : (s k : ℕ) → s < 2 ^ 32 → k < 2 ^ 32 → spread (gather s k) k ≡ s
unfolding spread gather
spread-gather s k p q = omega arith

unshift : (s : ℕ) → s < 2 ^ 32 → xor_shift 24 (xor_shift 12 (xor_shift 12 s)) ≡ s
unshift s h = xor_shift_undo_double 12 24 s (omega arith) (omega arith)

pub mix-lt : (h k : ℕ) → mix h k < 2 ^ 32
unfolding mix spread
mix-lt h k = xor_shift-lt 32 12 (spread h k) (spread-lt h k) (omega (arith, spread-lt h k))

-- The two rounds, as the linear part and the shifts.
mix_parts : (h k : ℕ) → mix h k ≡ xor_shift 12 (spread h k)
unfolding mix spread
mix_parts h k = refl

unmix_parts : (h k : ℕ) → unmix h k ≡ gather (xor_shift 24 (xor_shift 12 h)) k
unfolding unmix gather
unmix_parts h k = refl

-- For a u32 hash and a u32 word, one round of HASH_FROM_DOWN_TO takes out what one round of
-- HASH_FROM_TO mixed in.
pub unmix-mix : (h k : ℕ) → h < 2 ^ 32 → k < 2 ^ 32 → unmix (mix h k) k ≡ h
unmix-mix h k p q =
    rw (mix_parts h k, unmix_parts _ k, unshift (spread h k) (spread-lt h k))
      (gather-spread h k p q)

-- A word that is mixed into one hash can be had back from the result.
spread_word : (h k : ℕ) → h < 2 ^ 32 → k < 2 ^ 32 → gather (spread h k) h ≡ k
unfolding spread gather
spread_word h k p q = omega arith

mix_word : (h k : ℕ) → h < 2 ^ 32 → k < 2 ^ 32 → unmix (mix h k) h ≡ k
mix_word h k p q =
    rw (mix_parts h k, unmix_parts _ h, unshift (spread h k) (spread-lt h k)) (spread_word h k p q)

module _ {h h' : ℕ} (p : h < 2 ^ 32) (p' : h' < 2 ^ 32) where
  -- Two hashes that differ still differ when one word is mixed into both.
  pub mix_injective : (k : ℕ) → k < 2 ^ 32 → mix h k ≡ mix h' k → h ≡ h'
  mix_injective k q e = sym (unmix-mix h k p q) ∙ ap (λ m. unmix m k) e ∙ unmix-mix h' k p' q

-- Two words that differ make one hash differ.
pub mix_word_injective :
    (h k k' : ℕ) → h < 2 ^ 32 → k < 2 ^ 32 → k' < 2 ^ 32 → mix h k ≡ mix h k' → k ≡ k'
mix_word_injective h k k' p q q' e =
    sym (mix_word h k p q) ∙ ap (λ m. unmix m h) e ∙ mix_word h k' p q'
