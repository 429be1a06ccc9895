-- ===== src/VcString/Copies.antt =====
-- VCstring.h: what the copy and the fill leave in the memory.
use random_c_code_snippets_b.Prelude.{
  ℕ, zero, suc, ◌+◌, ◌≤◌, ◌<◌, ◌≡◌, ◌⊎◌, inl, inr, refl, sym, ap, ◌∙◌, arith, List, length,
  length-append, ◌++◌, some, get_or, set, length-set, get_or-set_self, get_or-set_ne, Run, ok,
  read-get_or, write-set, ◌>>=◌, Returns, ℕ_discrete,
}
use random_c_code_snippets_b.Word.{u8}
use random_c_code_snippets_b.VcString.{
  copy_rounds, volatile_memcpy, fill_rounds, volatile_memset, const_memcpy_alloc,
}

-- The memory after `n` bytes at `d` were given the bytes of `source`, all other bytes as `before`.
pub record IsFilled (before after : List ℕ) (d n : ℕ) (source : ℕ → ℕ) : Type 0 where
  pub same_size : length after ≡ length before
  pub inside : (i : ℕ) → i < n → get_or after (d + i) 0 ≡ source i
  pub outside : (j : ℕ) → (j < d) ⊎ (d + n ≤ j) → get_or after j 0 ≡ get_or before j 0

plus_zero : (i : ℕ) → i + 0 ≡ i
plus_zero i = omega arith

plus_suc : (i left : ℕ) → i + suc left ≡ i + 1 + left
plus_suc i left = omega arith

nothing-IsFilled : (memory : List ℕ) (d : ℕ) (source : ℕ → ℕ) → IsFilled memory memory d 0 source
nothing-IsFilled memory d source = record {
  same_size = refl;
  inside = λ i h. absurd (omega arith);
  outside = λ j h. refl;
}

-- One byte more.
IsFilled-more :
    (before after : List ℕ) (d n : ℕ) (source : ℕ → ℕ) (byte : ℕ)
    → IsFilled before after d n source
    → d + n < length after
    → byte ≡ source n
    → IsFilled before (set after (d + n) byte) d (n + 1) source
IsFilled-more before after d n source byte f h e = record {
  same_size = length-set after (d + n) byte ∙ f.same_size;
  inside = λ i below. elim (ℕ_discrete n i) [
    | yes here ↦
        ap (λ q. get_or (set after (d + n) byte) (d + q) 0) (sym here)
        ∙ get_or-set_self after (d + n) byte 0 h
        ∙ e
        ∙ ap source here
    | no away ↦
        get_or-set_ne after (d + n) (d + i) byte 0 (λ q. away (omega arith))
        ∙ f.inside i (omega arith)
  ];
  outside = λ j away.
      get_or-set_ne after (d + n) j byte 0
        (λ q. elim away [ inl a ↦ omega arith | inr a ↦ omega arith ])
      ∙ f.outside j (elim away [ inl a ↦ inl a | inr a ↦ inr (omega arith) ]);
}

fill_rounds_lem :
    (left i p value : ℕ) (before memory : List ℕ)
    → IsFilled before memory p i (λ _. value)
    → p + (i + left) ≤ length memory
    → Returns
        (fill_rounds left i p value memory)
        λ after. IsFilled before after p (i + left) (λ _. value)
unfolding fill_rounds
fill_rounds_lem zero i p value before memory f h = (memory, refl, rw (plus_zero i) f)
fill_rounds_lem (suc left) i p value before memory f h =
    rw (write-set memory (p + i) value (omega arith), plus_suc i left)
      (fill_rounds_lem left (i + 1) p value before (set memory (p + i) value)
        (IsFilled-more before memory p i (λ _. value) value f (omega arith) refl)
        (omega (arith, length-set memory (p + i) value)))

-- For a buffer inside the memory, `volatile_memset` ends and returns its pointer; every byte of the
-- buffer is the low byte of `c`, and no other byte of the memory is changed.
pub volatile_memset_lem :
    (s c n : ℕ) (memory : List ℕ)
    → s + n ≤ length memory
    → Returns (volatile_memset s c n memory) λ r. (r.0 ≡ s) × IsFilled memory r.1 s n (λ _. u8 c)
unfolding volatile_memset
volatile_memset_lem s c n memory h =
    let (after, run, filled) =
      fill_rounds_lem n 0 s (u8 c) memory memory (nothing-IsFilled memory s (λ _. u8 c))
        (omega arith) in
    let bare : 0 + n ≡ n = omega arith in
    ((s, after), ap (λ (r : Run (List ℕ)). r >>= λ m. ok (s, m)) run, (refl, rw bare at filled))

copy_rounds_lem :
    (left i d s : ℕ) (before memory : List ℕ)
    → (d ≤ s) ⊎ (s + (i + left) ≤ d)
    → IsFilled before memory d i (λ k. get_or before (s + k) 0)
    → d + (i + left) ≤ length memory
    → s + (i + left) ≤ length memory
    → Returns
        (copy_rounds left i d s memory)
        λ after. IsFilled before after d (i + left) (λ k. get_or before (s + k) 0)
unfolding copy_rounds
copy_rounds_lem zero i d s before memory apart f h k = (memory, refl, rw (plus_zero i) f)
copy_rounds_lem (suc left) i d s before memory apart f h k =
    let byte = get_or memory (s + i) 0 in
    let original : byte ≡ get_or before (s + i) 0 =
      f.outside (s + i) (elim apart [ inl a ↦ inr (omega arith) | inr a ↦ inl (omega arith) ]) in
    rw
      (
        read-get_or memory (s + i) 0 (omega arith),
        write-set memory (d + i) byte (omega arith),
        plus_suc i left,
      )
      (copy_rounds_lem left (i + 1) d s before (set memory (d + i) byte)
        (elim apart [ inl a ↦ inl a | inr a ↦ inr (omega arith) ])
        (IsFilled-more before memory d i (λ q. get_or before (s + q) 0) byte f (omega arith)
          original)
        (omega (arith, length-set memory (d + i) byte))
        (omega (arith, length-set memory (d + i) byte)))

-- For two buffers inside the memory, of which the destination does not begin inside the source
-- behind its first byte: `volatile_memcpy` ends, the destination has the bytes that the source had,
-- and no other byte of the memory is changed.
pub volatile_memcpy_lem :
    (d s n : ℕ) (memory : List ℕ)
    → (d ≤ s) ⊎ (s + n ≤ d)
    → d + n ≤ length memory
    → s + n ≤ length memory
    → Returns
        (volatile_memcpy d s n memory)
        λ after. IsFilled memory after d n (λ k. get_or memory (s + k) 0)
unfolding volatile_memcpy
volatile_memcpy_lem d s n memory apart h k =
    let bare : 0 + n ≡ n = omega arith in
    let (after, run, filled) =
      copy_rounds_lem n 0 d s memory memory (rw bare apart)
        (nothing-IsFilled memory d (λ q. get_or memory (s + q) 0)) (rw bare h) (rw bare k) in
    (after, run, rw bare at filled)

-- For a source inside the memory and a `malloc` that gives an object of `n` bytes,
-- `const_memcpy_alloc` ends and returns the new object; it has the bytes of the source, and every
-- byte of the memory before is as it was.
pub const_memcpy_alloc_lem :
    (object : List ℕ) (s n : ℕ) (memory : List ℕ)
    → length object ≡ n
    → s + n ≤ length memory
    → Returns (const_memcpy_alloc (some object) s n memory) λ r.
      (r.0 ≡ some (length memory))
      × IsFilled (memory ++ object) r.1 (length memory) n (λ k. get_or (memory ++ object) (s + k) 0)
unfolding const_memcpy_alloc volatile_memcpy
const_memcpy_alloc_lem object s n memory size h =
    let long = length-append memory object in
    let (after, run, filled) =
      volatile_memcpy_lem (length memory) s n (memory ++ object) (inr h) (omega (arith, long))
        (omega (arith, long)) in
    (
      (some (length memory), after),
      ap (λ (r : Run (List ℕ)). r >>= λ m. ok (some (length memory), m)) run,
      (refl, filled),
    )
