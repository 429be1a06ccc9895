-- ===== src/Cuda/Host.antt =====
-- hashalg.cu: `main`, the host. The CUDA runtime is an interface, and the threads of a launch run in
-- any order. The buffers start with the bytes that their memory happens to have.
pub mod Agreement
pub mod Answers
use random_c_code_snippets_b.Prelude.{
  ℕ, ◌+◌, ◌*◌, List, [], ◌∷◌, Bool, true, ◌≤◌, length, get_or, Returns, IsWritten, ◌==◌,
  if◌then◌else◌, Run, ok, read, ◌>>=◌,
}
use random_c_code_snippets_b.FastHash.Demo.{fill_pattern, flip_bit}
use random_c_code_snippets_b.Cuda.{ThreadId, launch, threads_per_block}

-- The calls inside CUDA_CHECK, in the order of the text.
pub data Call : Type 0 where
  malloc_in128 malloc_out128 malloc_in4k malloc_out4k : Call
  copy_block128 copy_block4k copy_block4k_b : Call
  synchronize : Call
  copy_out128 copy_out4k : Call

-- The three hashes that are printed, and the answer to `one-bit-different buffers match?`.
pub record Results : Type 0 where
  pub h128 : ℕ
  pub h4k_a : ℕ
  pub h4k_b : ℕ
  pub different_match : Bool

-- `exit(EXIT_FAILURE)` at a call, or the end of `main` with what it prints.
pub data HostEnd : Type 0 where
  exit_failure : Call → HostEnd
  finished : Results → HostEnd

-- The CUDA runtime: which calls return cudaSuccess, and the copy of `n` elements to `dst + off`, with
-- what it is documented to do inside of the buffers.
pub record CudaRuntime : Type 0 where
  pub succeeds : Call → Bool
  pub cuda_memcpy : List ℕ → ℕ → List ℕ → ℕ → Run (List ℕ)
  pub copies :
      (dst src : List ℕ) (off n : ℕ)
      → off + n ≤ length dst
      → n ≤ length src
      → Returns (cuda_memcpy dst off src n) (IsWritten (λ k. get_or src k 0) 0 n off dst)

-- The macro CUDA_CHECK, before the rest of the program.
unfoldable pub cuda_check : CudaRuntime → Call → Run HostEnd → Run HostEnd
cuda_check cuda call rest = if cuda.succeeds call then rest else ok (exit_failure call)

-- The memory that the host and the device allocate, and the order of the threads of both launches.
pub record Machine : Type 0 where
  pub h_block128 : List ℕ
  pub h_block4k : List ℕ
  pub h_block4k_b : List ℕ
  pub d_in128 : List ℕ
  pub d_out128 : List ℕ
  pub d_in4k : List ℕ
  pub d_out4k : List ℕ
  pub schedule128 : List ThreadId
  pub schedule4k : List ThreadId

-- `main` from the first copy on, for the buffers that the host has filled.
unfoldable pub run_kernels : CudaRuntime → Machine → List ℕ → List ℕ → List ℕ → Run HostEnd
run_kernels cuda m block128 block4k block4k_b = cuda_check cuda copy_block128 (do
  in128 ← cuda.cuda_memcpy m.d_in128 0 block128 128
  cuda_check cuda copy_block4k (do
    half4k ← cuda.cuda_memcpy m.d_in4k 0 block4k 4096
    cuda_check cuda copy_block4k_b (do
      in4k ← cuda.cuda_memcpy half4k 4096 block4k_b 4096
      out128 ← launch threads_per_block 128 1 in128 m.schedule128 m.d_out128
      out4k ← launch threads_per_block 4096 2 in4k m.schedule4k m.d_out4k
      cuda_check cuda synchronize (
          cuda_check cuda copy_out128 (do
            first ← cuda.cuda_memcpy (0 ∷ 0 ∷ 0 ∷ []) 0 out128 1
            cuda_check cuda copy_out4k (do
              h_results ← cuda.cuda_memcpy first 1 out4k 2
              h128 ← read h_results 0
              h4k_a ← read h_results 1
              h4k_b ← read h_results 2
              ok (
                  finished (record {
                    h128 = h128;
                    h4k_a = h4k_a;
                    h4k_b = h4k_b;
                    different_match = h4k_a == h4k_b;
                  }))))))))

unfoldable pub cuda_main : CudaRuntime → Machine → Run HostEnd
cuda_main cuda m = do
  block128 ← fill_pattern m.h_block128 128 0xA5
  block4k ← fill_pattern m.h_block4k 4096 0x11
  filled4k_b ← fill_pattern m.h_block4k_b 4096 0x11
  block4k_b ← flip_bit filled4k_b
  cuda_check cuda malloc_in128 (
      cuda_check cuda malloc_out128 (
        cuda_check cuda malloc_in4k
          (cuda_check cuda malloc_out4k (run_kernels cuda m block128 block4k block4k_b))))
