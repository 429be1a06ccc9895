-- ===== src/FastHash/Detect.antt =====
-- hashalg.c: what a change of one word of the block does to the hash.
use random_c_code_snippets_b.Prelude.{
  ℕ, zero, suc, ◌+◌, ◌*◌, ◌/◌, ◌%◌, ◌^◌, ◌≤◌, ◌<◌, ◌≡◌, ◌≢◌, refl, sym, ap, ◌∙◌, arith, List,
  length, get_or, read-get_or, ◌⊎◌, inl, inr, ok, ℕ_discrete,
}
use random_c_code_snippets_b.FastHash.{
  fh_k1, fh_k2, fh_k3, fh_load64, lane_step, Lanes, start_lanes, lanes_step, finish, word_rounds,
  fast_hash_words,
}
use random_c_code_snippets_b.FastHash.Mix.{
  IsUndone, lane_step_injective, lane_step_word_injective, lane_step-lt,
}

-- A buffer of bytes.
pub record IsBlock (block : List ℕ) (len : ℕ) : Type 0 where
  pub size : length block ≡ len
  pub bytes : (i : ℕ) → get_or block i 0 < 2 ^ 8

-- The word at the byte `p`.
abbrev pub word_at : List ℕ → ℕ → ℕ
word_at block p =
    get_or block p 0
    + get_or block (p + 1) 0 * 2 ^ 8
    + get_or block (p + 2) 0 * 2 ^ 16
    + get_or block (p + 3) 0 * 2 ^ 24
    + get_or block (p + 4) 0 * 2 ^ 32
    + get_or block (p + 5) 0 * 2 ^ 40
    + get_or block (p + 6) 0 * 2 ^ 48
    + get_or block (p + 7) 0 * 2 ^ 56

pub fh_load64_lem :
    (block : List ℕ) (p : ℕ) → p + 7 < length block → fh_load64 block p ≡ ok (word_at block p)
unfolding fh_load64
fh_load64_lem block p h = rw (
  read-get_or block p 0 (omega arith),
  read-get_or block (p + 1) 0 (omega arith),
  read-get_or block (p + 2) 0 (omega arith),
  read-get_or block (p + 3) 0 (omega arith),
  read-get_or block (p + 4) 0 (omega arith),
  read-get_or block (p + 5) 0 (omega arith),
  read-get_or block (p + 6) 0 (omega arith),
  read-get_or block (p + 7) 0 (omega arith),
)

word_at-lt : {len : ℕ} (block : List ℕ) → IsBlock block len → (p : ℕ) → word_at block p < 2 ^ 64
word_at-lt block b p = omega (
  arith,
  b.bytes p,
  b.bytes (p + 1),
  b.bytes (p + 2),
  b.bytes (p + 3),
  b.bytes (p + 4),
  b.bytes (p + 5),
  b.bytes (p + 6),
  b.bytes (p + 7),
)

-- One lane of the loop: `left` rounds from the byte `p` on, a word in 32 bytes each.
abbrev pub lane : ℕ → ℕ → ℕ → List ℕ → ℕ → ℕ
lane k zero p block h = h
lane k (suc left) p block h = lane k left (p + 32) block (lane_step h (word_at block p) k)

abbrev pub lanes : ℕ → ℕ → ℕ → ℕ → ℕ → List ℕ → Lanes → Lanes
lanes left p0 p1 p2 p3 block l = record {
  h0 = lane fh_k1 left p0 block l.h0;
  h1 = lane fh_k2 left p1 block l.h1;
  h2 = lane fh_k3 left p2 block l.h2;
  h3 = lane fh_k1 left p3 block l.h3;
}

-- The loop reads inside the block and leaves the four lanes.
word_rounds_lem :
    (left i p0 p1 p2 p3 : ℕ) (block : List ℕ) (l : Lanes)
    → p0 ≡ (i + 0) * 8
    → p1 ≡ (i + 1) * 8
    → p2 ≡ (i + 2) * 8
    → p3 ≡ (i + 3) * 8
    → i * 8 + left * 32 ≤ length block
    → word_rounds left i block l ≡ ok (lanes left p0 p1 p2 p3 block l)
unfolding word_rounds lanes_step
word_rounds_lem zero i p0 p1 p2 p3 block l e0 e1 e2 e3 h = refl
word_rounds_lem (suc left) i p0 p1 p2 p3 block l e0 e1 e2 e3 h =
    rw
      (
        ← e0,
        ← e1,
        ← e2,
        ← e3,
        fh_load64_lem block p0 (omega arith),
        fh_load64_lem block p1 (omega arith),
        fh_load64_lem block p2 (omega arith),
        fh_load64_lem block p3 (omega arith),
      )
      (word_rounds_lem left (i + 4) (p0 + 32) (p1 + 32) (p2 + 32) (p3 + 32) block _ (omega arith)
        (omega arith) (omega arith) (omega arith) (omega arith))

-- The hash of a block, whose length is a number of rounds, as the four lanes of its words.
pub fast_hash_words_lem :
    (block : List ℕ) (len : ℕ)
    → len ≤ length block
    → len % 32 ≡ 0
    → fast_hash_words block len
      ≡ ok (finish (lanes ((len / 8 + 3) / 4) 0 8 16 24 block start_lanes) len)
unfolding fast_hash_words
fast_hash_words_lem block len size even = rw (
    word_rounds_lem ((len / 8 + 3) / 4) 0 0 8 16 24 block start_lanes refl refl refl refl
      (omega arith))

pub lane-lt : (k left p : ℕ) (block : List ℕ) (h : ℕ) → h < 2 ^ 64 → lane k left p block h < 2 ^ 64
lane-lt k zero p block h s = s
lane-lt k (suc left) p block h s = lane-lt k left (p + 32) block _ (lane_step-lt _ _ _)

-- Two blocks that agree outside the word at the byte `m`.
pub record Differ (block block' : List ℕ) (len m : ℕ) : Type 0 where
  pub left_block : IsBlock block len
  pub right_block : IsBlock block' len
  pub rest : (i : ℕ) → i / 8 ≢ m / 8 → get_or block i 0 ≡ get_or block' i 0

module _ {block block' : List ℕ} {len m : ℕ} (d : Differ block block' len m) where
  word_agree : (q : ℕ) → q % 8 ≡ 0 → m % 8 ≡ 0 → q ≢ m → word_at block q ≡ word_at block' q
  word_agree q e e' ne =
      let away : q / 8 ≢ m / 8 = λ x. ne (omega arith) in
      rw (
        d.rest q (omega arith),
        d.rest (q + 1) (omega arith),
        d.rest (q + 2) (omega arith),
        d.rest (q + 3) (omega arith),
        d.rest (q + 4) (omega arith),
        d.rest (q + 5) (omega arith),
        d.rest (q + 6) (omega arith),
        d.rest (q + 7) (omega arith),
      )

  module _ (aligned : m % 8 ≡ 0) (k inverse : ℕ) (undo : IsUndone k inverse) where
    -- A lane that does not read the word.
    pub lane_agree :
        (left p h : ℕ)
        → p % 8 ≡ 0
        → (m % 32 ≢ p % 32) ⊎ (m < p)
        → lane k left p block h ≡ lane k left p block' h
    lane_agree zero p h e away = refl
    lane_agree (suc left) p h e away =
        let ne : p ≢ m = elim away [ inl a ↦ λ x. a (omega arith) | inr l ↦ λ x. omega arith ] in
        let away' : (m % 32 ≢ (p + 32) % 32) ⊎ (m < p + 32) = elim away [
          | inl a ↦ inl (λ x. a (omega arith))
          | inr l ↦ inr (omega arith)
        ] in
        rw (word_agree p e aligned ne) (lane_agree left (p + 32) _ (omega arith) away')

    -- The rounds of one block keep two states of a lane apart.
    lane_injective :
        (left p h h' : ℕ)
        → h < 2 ^ 64
        → h' < 2 ^ 64
        → lane k left p block h ≡ lane k left p block h'
        → h ≡ h'
    lane_injective zero p h h' s s' e = e
    lane_injective (suc left) p h h' s s' e =
        lane_step_injective k inverse undo h h' (word_at block p) s s'
          (word_at-lt block d.left_block p)
          (lane_injective left (p + 32) _ _ (lane_step-lt _ _ _) (lane_step-lt _ _ _) e)

    -- A lane that reads the word has two values if the word has.
    pub lane_differ :
        (left p h : ℕ)
        → p % 8 ≡ 0
        → m % 32 ≡ p % 32
        → p ≤ m
        → m < p + left * 32
        → h < 2 ^ 64
        → lane k left p block h ≡ lane k left p block' h
        → word_at block m ≡ word_at block' m
    lane_differ zero p h e e' l u s same = absurd (omega arith)
    lane_differ (suc left) p h e e' l u s same = elim (ℕ_discrete p m) [
      | no ne ↦
          lane_differ left (p + 32) _ (omega arith) (omega arith) (omega arith) (omega arith)
            (lane_step-lt h (word_at block p) k)
            (same
              ∙ ap (λ w. lane k left (p + 32) block' (lane_step h w k))
                  (sym (word_agree p e aligned ne)))
      | yes here ↦ rw (← here) (
          lane_step_word_injective k inverse undo h _ _ s (word_at-lt block d.left_block p)
            (word_at-lt block' d.right_block p)
            (lane_injective left (p + 32) _ _ (lane_step-lt _ _ _) (lane_step-lt _ _ _)
              (same ∙ sym (lane_agree left (p + 32) _ (omega arith) (inr (omega arith))))))
    ]
