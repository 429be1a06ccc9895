-- ===== src/Cuda.antt =====
-- hashalg.cu: the hash of hashalg.c on a GPU. A launch of the kernel runs its threads in any order,
-- a schedule, and each thread reads the input and writes one output.
pub mod Schedule
pub mod Host
use random_c_code_snippets_b.Prelude.{
  out_of_bounds, fault, ◌^◌, ℕ, ◌+◌, ◌-◌, ◌*◌, ◌/◌, List, [], ◌∷◌, drop, ltb, if◌then◌else◌, Run,
  ok, fault, out_of_bounds, ◌^◌, write, ◌>>=◌,
}
use random_c_code_snippets_b.Word.{u32}
use random_c_code_snippets_b.FastHash.{start_lanes, finish, word_rounds}

-- The text of `fast_hash` of hashalg.c.
unfoldable pub fast_hash_device : List ℕ → ℕ → Run ℕ
fast_hash_device block len = do
  l ← word_rounds ((len / 8 + 3) / 4) 0 block start_lanes
  ok (finish l len)

-- `blockIdx.x` and `threadIdx.x`.
abbrev pub ThreadId : Type 0
ThreadId = ℕ × ℕ

-- `blockDim.x * blockIdx.x + threadIdx.x`, an unsigned sum of 32 bits.
abbrev pub thread_index : ℕ → ThreadId → ℕ
thread_index block_dim thread = u32 (block_dim * thread.0 + thread.1)

module _ (block_dim block_len num_blocks : ℕ) (d_in : List ℕ) where
  -- One thread, on the output that the threads before it left. `idx` is an `int`: from 2 ^ 31 on it is
  -- negative, which passes the test and leads to a place before the output. `num_blocks` is an `int`
  -- that is not negative.
  unfoldable pub fast_hash_kernel : ThreadId → List ℕ → Run (List ℕ)
  fast_hash_kernel thread d_out =
      let idx = thread_index block_dim thread in
      if ltb idx (2 ^ 31)
      then (if ltb idx num_blocks
          then (do
            hash ← fast_hash_device (drop (idx * block_len) d_in) block_len
            write d_out idx hash)
          else ok d_out)
      else fault out_of_bounds

  -- The threads of a launch, in the order of the schedule.
  unfoldable pub launch : List ThreadId → List ℕ → Run (List ℕ)
  launch [] d_out = ok d_out
  launch (thread ∷ schedule) d_out = do
    d_out' ← fast_hash_kernel thread d_out
    launch schedule d_out'

abbrev pub threads_per_block : ℕ
threads_per_block = 256

abbrev pub blocks_per_grid1 : ℕ
blocks_per_grid1 = (1 + threads_per_block - 1) / threads_per_block

abbrev pub blocks_per_grid2 : ℕ
blocks_per_grid2 = (2 + threads_per_block - 1) / threads_per_block
