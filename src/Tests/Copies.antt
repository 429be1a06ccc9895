-- ===== src/Tests/Copies.antt =====
-- Examples of the copies of VCstring.h.
use random_c_code_snippets_b.Prelude.{ℕ, ◌+◌, arith, List, [], ◌∷◌, get_or, Returns, inl}
use random_c_code_snippets_b.VcString.{volatile_memcpy}
use random_c_code_snippets_b.VcString.Copies.{IsFilled, volatile_memcpy_lem}

abbrev memory : List ℕ
memory = 10 ∷ 11 ∷ 12 ∷ 13 ∷ 14 ∷ 15 ∷ []

-- The buffers overlap.
volatile_memcpy_lem_example :
    Returns
      (volatile_memcpy 1 2 4 memory)
      λ after. IsFilled memory after 1 4 (λ k. get_or memory (2 + k) 0)
volatile_memcpy_lem_example =
    volatile_memcpy_lem 1 2 4 memory (inl (omega arith)) (omega arith) (omega arith)
