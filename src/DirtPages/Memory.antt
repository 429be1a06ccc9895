-- ===== src/DirtPages/Memory.antt =====
-- dirtPages.c, section 1: the comparison of two buffers and the test for a zero buffer, which run
-- over the words of the architecture. The bytes of a buffer are given as its words.
pub mod Agreement
use Prim.Native.Nat.{Ordering, compare}
use random_c_code_snippets_b.Prelude.{
  ℕ, zero, suc, ◌+◌, ◌*◌, ◌/◌, ◌^◌, List, [], ◌∷◌, Bool, true, false, ◌==◌, Run, ok, fault,
  out_of_bounds,
}

-- `repe; cmps` with a count in the register, then `je`, `sbb` and `or`: `eq`, `lt` and `gt` stand
-- for the results 0, -1 and 1. A count of zero is equal, by the `test` in front.
unfoldable pub repe_cmps : ℕ → List ℕ → List ℕ → Run Ordering
repe_cmps zero s1 s2 = ok Ordering.eq
repe_cmps (suc num) [] s2 = fault out_of_bounds
repe_cmps (suc num) (x ∷ s1) [] = fault out_of_bounds
repe_cmps (suc num) (x ∷ s1) (y ∷ s2) = elim (compare x y) [
  | Ordering.eq ↦ repe_cmps num s1 s2
  | Ordering.lt ↦ ok Ordering.lt
  | Ordering.gt ↦ ok Ordering.gt
]

-- The 8-byte words of a buffer of 4-byte words, the low word first.
unfoldable pub quads : List ℕ → List ℕ
quads [] = []
quads (x ∷ []) = []
quads (x ∷ y ∷ words) = (x + y * 2 ^ 32) ∷ quads words

unfoldable pub memcmpx86_32 : List ℕ → List ℕ → ℕ → Run Ordering
unfolding repe_cmps
memcmpx86_32 s1 s2 n = repe_cmps (n / 4) s1 s2

unfoldable pub memcmpx86_64 : List ℕ → List ℕ → ℕ → Run Ordering
unfolding repe_cmps quads
memcmpx86_64 s1 s2 n = repe_cmps (n / 8) (quads s1) (quads s2)

-- `repe; scas` for zero, then `sete`. `flag` is the zero flag before it.
unfoldable pub repe_scas : ℕ → Bool → List ℕ → Run Bool
repe_scas zero flag s1 = ok flag
repe_scas (suc len) flag [] = fault out_of_bounds
repe_scas (suc len) flag (x ∷ s1) = elim (x == 0) [
  | true ↦ repe_scas len true s1
  | false ↦ ok false
]

unfoldable pub is_full_zero_32 : Bool → List ℕ → ℕ → Run Bool
unfolding repe_scas
is_full_zero_32 flag s1 len = repe_scas (len / 4) flag s1

unfoldable pub is_full_zero_64 : Bool → List ℕ → ℕ → Run Bool
unfolding repe_scas quads
is_full_zero_64 flag s1 len = repe_scas (len / 8) flag (quads s1)

-- The loop of the generic version, `len` rounds over the `unsigned long` words.
unfoldable pub scan_zero : ℕ → List ℕ → Run Bool
scan_zero zero src = ok true
scan_zero (suc len) [] = fault out_of_bounds
scan_zero (suc len) (x ∷ src) = elim (x == 0) [ true ↦ scan_zero len src | false ↦ ok false ]

unfoldable pub is_full_zero_generic : List ℕ → ℕ → Run Bool
unfolding scan_zero quads
is_full_zero_generic s1 len = scan_zero (len / 8) (quads s1)
