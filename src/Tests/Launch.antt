-- ===== src/Tests/Launch.antt =====
-- Examples of the kernel of hashalg.cu and of both `main`s.
use random_c_code_snippets_b.Prelude.{
  read-get_or, write_rounds-IsWritten, read, write_rounds, true, false, ℕ, zero, suc, ◌*◌, ◌<◌, ◌≡◌,
  refl, ap, ◌∙◌, arith, List, [], ◌∷◌, some, length, length-replicate, replicate, get_elem?, get_or,
  drop, ok, Returns, ℕ_discrete,
}
use random_c_code_snippets_b.FastHash.{fast_hash_words}
use random_c_code_snippets_b.Cuda.{ThreadId, launch, threads_per_block, blocks_per_grid2}
use random_c_code_snippets_b.Cuda.Schedule.{IsSchedule, launch-fast_hash_words}
use random_c_code_snippets_b.FastHash.Demo.{hashalg_main}
use random_c_code_snippets_b.FastHash.Demo.Answers.{hashalg_main-answers}
use random_c_code_snippets_b.Cuda.Host.{CudaRuntime, copy_out4k, Machine, cuda_main}
use random_c_code_snippets_b.Cuda.Host.Answers.{IsMachine, EndsWith, cuda_main-hashalg_main}

-- The threads of one block, the last first.
abbrev countdown : ℕ → List ThreadId
countdown zero = []
countdown (suc n) = (0, n) ∷ countdown n

countdown_has : (n t : ℕ) → t < n → (k : ℕ) × (get_elem? (countdown n) k ≡ some (0, t))
countdown_has zero t h = absurd (omega arith)
countdown_has (suc n) t h = elim (ℕ_discrete n t) [
  | yes last ↦ (0, ap (λ q. some (0, q)) last)
  | no earlier ↦ let (k, found) = countdown_has n t (omega arith) in (suc k, found)
]

unfoldable schedule : List ThreadId
schedule = countdown 256

countdown_inside : (n k b t : ℕ) → get_elem? (countdown n) k ≡ some (b, t) → (b < 1) × (t < n)
countdown_inside zero k b t e = absurd (cc)
countdown_inside (suc n) zero b t e =
    let first : 0 ≡ b = cc in let last : n ≡ t = cc in (omega arith, omega arith)
countdown_inside (suc n) (suc k) b t e =
    let (low, high) = countdown_inside n k b t e in (low, omega arith)

-- `blocks_per_grid1` and `blocks_per_grid2` are 1.
schedule-IsSchedule : IsSchedule 1 threads_per_block schedule
unfolding schedule
schedule-IsSchedule = record {
  inside = countdown_inside 256;
  complete = λ b t h k.
      let first : 0 ≡ b = omega arith in
      let (at, found) = countdown_has 256 t k in (at, found ∙ ap (λ q. some (q, t)) first);
}

-- Two blocks of 128 bytes, one behind the other.
unfoldable two_blocks : List ℕ
two_blocks = replicate 256 7

length-two_blocks : length two_blocks ≡ 256
unfolding two_blocks
length-two_blocks = length-replicate {A = ℕ} 256 7

launch-fast_hash_words_example :
    Returns (launch threads_per_block 128 2 two_blocks schedule (0 ∷ 0 ∷ [])) λ out.
      (length out ≡ 2) × (fast_hash_words (drop (1 * 128) two_blocks) 128 ≡ ok (get_or out 1 0))
launch-fast_hash_words_example =
    launch-fast_hash_words 128 2 blocks_per_grid2 two_blocks (0 ∷ 0 ∷ []) schedule 1 refl
      length-two_blocks refl (omega arith) (omega arith) schedule-IsSchedule (omega arith)

-- Memory with the byte 9 in all places.
unfoldable nines : ℕ → List ℕ
nines n = replicate n 9

length-nines : (n : ℕ) → length (nines n) ≡ n
unfolding nines
length-nines n = length-replicate {A = ℕ} n 9

abbrev machine : Machine
machine = record {
  h_block128 = nines 128;
  h_block4k = nines 4096;
  h_block4k_b = nines 4096;
  d_in128 = nines 128;
  d_out128 = nines 1;
  d_in4k = nines 8192;
  d_out4k = nines 2;
  schedule128 = schedule;
  schedule4k = schedule;
}

machine-IsMachine : IsMachine machine
machine-IsMachine = record {
  size_block128 = length-nines 128;
  size_block4k = length-nines 4096;
  size_block4k_b = length-nines 4096;
  size_in128 = length-nines 128;
  size_out128 = length-nines 1;
  size_in4k = length-nines 8192;
  size_out4k = length-nines 2;
  all128 = schedule-IsSchedule;
  all4k = schedule-IsSchedule;
}

-- A copy as a loop over the elements, and calls that succeed but the last one.
abbrev cuda : CudaRuntime
cuda = record {
  succeeds = λ call. elim call [ copy_out4k ↦ false | _ ↦ true ];
  cuda_memcpy = λ dst off src n. write_rounds (read src) n 0 off dst;
  copies = λ dst src off n fits inside.
      write_rounds-IsWritten (read src) (λ k. get_or src k 0) n 0 n off dst (omega arith) fits
        (λ k h. read-get_or src k 0 (omega arith));
}

hashalg_main-answers_example :
    Returns
      (hashalg_main (nines 128) (nines 4096) (nines 4096))
      λ out. (out.rehashed_match ≡ true) × (out.different_match ≡ false)
hashalg_main-answers_example =
    hashalg_main-answers (nines 128) (nines 4096) (nines 4096) (length-nines 128)
      (length-nines 4096) (length-nines 4096)

cuda_main-hashalg_main_example : Returns (hashalg_main (nines 128) (nines 4096) (nines 4096)) λ out.
    (out.different_match ≡ false)
    × Returns (cuda_main cuda machine) (
        EndsWith cuda (record {
          h128 = out.h128;
          h4k_a = out.h4k_a;
          h4k_b = out.h4k_b;
          different_match = out.different_match;
        }))
cuda_main-hashalg_main_example =
    cuda_main-hashalg_main cuda machine (nines 128) (nines 4096) (nines 4096) machine-IsMachine
      (length-nines 128) (length-nines 4096) (length-nines 4096)
