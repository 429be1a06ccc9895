-- ===== src/VcString.antt =====
-- VCstring.h: copies and fills of volatile memory. The memory is a list of bytes, and a pointer is an
-- index of it, so that two pointers can be to one object. `volatile` forbids the compiler to leave
-- accesses out; the model makes every access.
pub mod Copies
use random_c_code_snippets_b.Prelude.{
  ℕ, zero, suc, ◌+◌, List, ◌++◌, length, take, drop, Bool, true, false, Option, none, some, Run, ok,
  read, write, ◌>>=◌,
}
use random_c_code_snippets_b.Word.{u8}

-- The loop of `volatile_memcpy` at `i`, with `left` rounds to go.
unfoldable pub copy_rounds : ℕ → ℕ → ℕ → ℕ → List ℕ → Run (List ℕ)
copy_rounds zero i d s memory = ok memory
copy_rounds (suc left) i d s memory = do
  byte ← read memory (s + i)
  memory' ← write memory (d + i) byte
  copy_rounds left (i + 1) d s memory'

unfoldable pub volatile_memcpy : ℕ → ℕ → ℕ → List ℕ → Run (List ℕ)
volatile_memcpy dest src n memory = copy_rounds n 0 dest src memory

-- The loop of `volatile_memset` at `i`, with `left` rounds to go.
unfoldable pub fill_rounds : ℕ → ℕ → ℕ → ℕ → List ℕ → Run (List ℕ)
fill_rounds zero i p value memory = ok memory
fill_rounds (suc left) i p value memory = do
  memory' ← write memory (p + i) value
  fill_rounds left (i + 1) p value memory'

-- `c` is the `int` as its two's complement.
unfoldable pub volatile_memset : ℕ → ℕ → ℕ → List ℕ → Run (ℕ × List ℕ)
volatile_memset s c n memory = do memory' ← fill_rounds n 0 s (u8 c) memory; ok (s, memory')

-- `none` is a `malloc` that fails; else the new object stands behind the memory, with the given
-- bytes in it.
unfoldable pub const_memcpy_alloc : Option (List ℕ) → ℕ → ℕ → List ℕ → Run (Option ℕ × List ℕ)
const_memcpy_alloc none src n memory = ok (none, memory)
const_memcpy_alloc (some object) src n memory = do
  memory' ← copy_rounds n 0 (length memory) src (memory ++ object)
  ok (some (length memory), memory')
