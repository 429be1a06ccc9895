-- ===== src/Cuda/Host/Answers.antt =====
-- hashalg.cu: the end of `main`, whichever calls of the CUDA runtime fail.
use random_c_code_snippets_b.Prelude.{
  ok_injective, ==_ne, ℕ, ◌+◌, ◌<◌, ◌≡◌, ◌⊎◌, inl, inr, refl, sym, ap, ◌∙◌, arith, List, [], ◌∷◌,
  length, get_or, set, drop, false, ◌==◌, Run, ok, Returns, Ensures, Bool-cases, Returns-Ensures,
  list_ext, get_or-drop, read-get_or, length-set, length-drop, read,
}
use random_c_code_snippets_b.FastHash.{fast_hash_words}
use random_c_code_snippets_b.FastHash.Demo.{hashalg_main}
use random_c_code_snippets_b.FastHash.Demo.Answers.{
  hashalg_main_run, fill_pattern-IsPattern, flip_bit-set, IsPattern-unique,
}
use random_c_code_snippets_b.Cuda.{threads_per_block, blocks_per_grid1, blocks_per_grid2}
use random_c_code_snippets_b.Cuda.Schedule.{IsSchedule, launch-fast_hash_words}
use random_c_code_snippets_b.Cuda.Host.{
  Call, exit_failure, finished, HostEnd, cuda_check, CudaRuntime, Machine, run_kernels, cuda_main,
  Results,
}
use random_c_code_snippets_b.Cuda.Host.Agreement.{hash_agree, launch_both}

-- The sizes that `main` allocates, and schedules that run the threads of their grids.
pub record IsMachine (m : Machine) : Type 0 where
  pub size_block128 : length m.h_block128 ≡ 128
  pub size_block4k : length m.h_block4k ≡ 4096
  pub size_block4k_b : length m.h_block4k_b ≡ 4096
  pub size_in128 : length m.d_in128 ≡ 128
  pub size_out128 : length m.d_out128 ≡ 1
  pub size_in4k : length m.d_in4k ≡ 8192
  pub size_out4k : length m.d_out4k ≡ 2
  pub all128 : IsSchedule blocks_per_grid1 threads_per_block m.schedule128
  pub all4k : IsSchedule blocks_per_grid2 threads_per_block m.schedule4k

abbrev pub results : ℕ → ℕ → ℕ → Results
results h128 h4k_a h4k_b = record {
  h128 = h128;
  h4k_a = h4k_a;
  h4k_b = h4k_b;
  different_match = h4k_a == h4k_b;
}

-- The program has left at a call that failed, or it has printed the results.
abbrev pub EndsWith : CudaRuntime → Results → HostEnd → Type 0
EndsWith cuda r end =
    ((call : Call) × (cuda.succeeds call ≡ false) × (end ≡ exit_failure call)) ⊎ (end ≡ finished r)

check_lem :
    (cuda : CudaRuntime) (r : Results) (call : Call) (rest : Run HostEnd)
    → Ensures rest (EndsWith cuda r)
    → Ensures (cuda_check cuda call rest) (EndsWith cuda r)
unfolding cuda_check
check_lem cuda r call rest h = elim (Bool-cases (cuda.succeeds call)) [
  | inl e ↦ rw e h
  | inr e ↦ rw e (inl (call, e, refl))
]

-- A copy of a whole buffer onto one of its size.
copy_all :
    (cuda : CudaRuntime) (dst src : List ℕ) (n : ℕ)
    → length dst ≡ n
    → length src ≡ n
    → cuda.cuda_memcpy dst 0 src n ≡ ok src
copy_all cuda dst src n size size' =
    let (out, run, (len, inside, outside)) =
      cuda.copies dst src 0 n (omega (arith, size)) (omega (arith, size')) in
    run
    ∙ ap ok (
        list_ext out src (len ∙ size ∙ sym size') (λ i h.
          let first : 0 + i ≡ i = omega arith in
          ap (λ q. get_or out q 0) (sym first) ∙ inside i (omega arith) (omega (arith, len, size))))

-- The two blocks of the second launch, one behind the other.
pub record IsPacked (in4k b c : List ℕ) : Type 0 where
  pub size : length in4k ≡ 8192
  pub front : (i : ℕ) → i < 4096 → get_or in4k i 0 ≡ get_or b i 0
  pub behind : (i : ℕ) → i < 4096 → get_or in4k (4096 + i) 0 ≡ get_or c i 0

module _ (cuda : CudaRuntime) (d_in4k b c : List ℕ) (size : length d_in4k ≡ 8192)
    (size_b : length b ≡ 4096) (size_c : length c ≡ 4096) where
  copy_pack :
      Returns
        (cuda.cuda_memcpy d_in4k 0 b 4096)
        λ half. Returns (cuda.cuda_memcpy half 4096 c 4096) λ in4k. IsPacked in4k b c
  copy_pack =
      let (half, run, (len, inside, outside)) =
        cuda.copies d_in4k b 0 4096 (omega (arith, size)) (omega (arith, size_b)) in
      let (in4k, run', (len', inside', outside')) =
        cuda.copies half c 4096 4096 (omega (arith, size, len)) (omega (arith, size_c)) in
      let shifted : (i : ℕ) → 0 + i ≡ i = λ i. omega arith in
      (
        half,
        run,
        (
          in4k,
          run',
          record {
            size = len' ∙ len ∙ size;
            front = λ i h.
                outside' i (inl (omega arith))
                ∙ ap (λ q. get_or half q 0) (sym (shifted i))
                ∙ inside i (omega arith) h;
            behind = λ i h. inside' i (omega arith) h;
          },
        ),
      )

module _ {in4k b c : List ℕ} (p : IsPacked in4k b c) (size_b : length b ≡ 4096)
    (size_c : length c ≡ 4096) where
  front_hash : fast_hash_words in4k 4096 ≡ fast_hash_words b 4096
  front_hash = hash_agree in4k b 4096 refl (omega (arith, p.size)) (omega (arith, size_b)) p.front

  behind_hash : fast_hash_words (drop 4096 in4k) 4096 ≡ fast_hash_words c 4096
  behind_hash =
      hash_agree (drop 4096 in4k) c 4096 refl (omega (arith, length-drop 4096 in4k, p.size))
        (omega (arith, size_c)) (λ i h. get_or-drop 4096 i in4k ∙ p.behind i h)

-- The results that the host copies back from the two outputs.
copy_results :
    (cuda : CudaRuntime) (out128 out4k : List ℕ)
    → length out128 ≡ 1
    → length out4k ≡ 2
    → Returns (cuda.cuda_memcpy (0 ∷ 0 ∷ 0 ∷ []) 0 out128 1) λ first.
      Returns (cuda.cuda_memcpy first 1 out4k 2) λ h_results.
        (read h_results 0 ≡ ok (get_or out128 0 0))
        × (read h_results 1 ≡ ok (get_or out4k 0 0))
        × (read h_results 2 ≡ ok (get_or out4k 1 0))
copy_results cuda out128 out4k size size' =
    let (first, run, (len, inside, outside)) =
      cuda.copies (0 ∷ 0 ∷ 0 ∷ []) out128 0 1 (omega arith) (omega (arith, size)) in
    let (h_results, run', (len', inside', outside')) =
      cuda.copies first out4k 1 2 (omega (arith, len)) (omega (arith, size')) in
    let at : (k : ℕ) → k < 3 → read h_results k ≡ ok (get_or h_results k 0) =
      λ k h. read-get_or h_results k 0 (omega (arith, len', len)) in
    (
      first,
      run,
      (
        h_results,
        run',
        (
          at 0 (omega arith)
              ∙ ap ok (outside' 0 (inl (omega arith)) ∙ inside 0 (omega arith) (omega arith)),
          at 1 (omega arith) ∙ ap ok (inside' 0 (omega arith) (omega arith)),
          at 2 (omega arith) ∙ ap ok (inside' 1 (omega arith) (omega arith)),
        ),
      ),
    )

module _ (cuda : CudaRuntime) (m : Machine) (is : IsMachine m) (a b c : List ℕ)
    (h128 h4k_a h4k_b : ℕ) (size_a : length a ≡ 128) (size_b : length b ≡ 4096)
    (size_c : length c ≡ 4096) (hash_a : fast_hash_words a 128 ≡ ok h128)
    (hash_b : fast_hash_words b 4096 ≡ ok h4k_a) (hash_c : fast_hash_words c 4096 ≡ ok h4k_b) where
  run_kernels_lem : Ensures (run_kernels cuda m a b c) (EndsWith cuda (results h128 h4k_a h4k_b))
  unfolding run_kernels
  run_kernels_lem =
      let r = results h128 h4k_a h4k_b in
      let (half, copy_b, (in4k, copy_c, packed)) =
        copy_pack cuda m.d_in4k b c is.size_in4k size_b size_c in
      let (out128, run128, (len128, at_a)) =
        launch-fast_hash_words 128 1 blocks_per_grid1 a m.d_out128 m.schedule128 0 refl
          (omega (arith, size_a)) is.size_out128 (omega arith) (omega arith) is.all128
          (omega arith) in
      let (out4k, run4k, (len4k, at_b, at_c)) =
        launch_both in4k m.d_out4k m.schedule4k packed.size is.size_out4k is.all4k in
      let (first, copy_1, (h_results, copy_2, (read_0, read_1, read_2))) =
        copy_results cuda out128 out4k len128 len4k in
      let same_a : get_or out128 0 0 ≡ h128 = ok_injective (sym at_a ∙ hash_a) in
      let same_b : get_or out4k 0 0 ≡ h4k_a =
        ok_injective (sym at_b ∙ front_hash packed size_b size_c ∙ hash_b) in
      let same_c : get_or out4k 1 0 ≡ h4k_b =
        ok_injective (sym at_c ∙ behind_hash packed size_b size_c ∙ hash_c) in
      check_lem cuda r _ _ (
        rw (copy_all cuda m.d_in128 a 128 is.size_in128 size_a) (
          check_lem cuda r _ _ (
            rw copy_b (
              check_lem cuda r _ _ (
                rw (copy_c, run128, run4k)
                  (check_lem cuda r _ _ (
                    check_lem cuda r _ _ (
                      rw copy_1 (
                        check_lem cuda r _ _ (
                          rw (copy_2, read_0, read_1, read_2, same_a, same_b, same_c)
                            (inr refl)))))))))))

-- With a CUDA runtime whose copies do what they are documented to do, on a machine with the buffers
-- that `main` of hashalg.cu allocates, with any contents and with any order of the threads of the two
-- launches, `main` ends without a read or write out of bounds. It leaves at a call of the runtime
-- that failed, or it prints the three hashes that the `main` of hashalg.c prints on buffers of any
-- contents, and the same answer, that the buffers which differ in one bit do not match.
pub cuda_main-hashalg_main :
    (cuda : CudaRuntime) (m : Machine) (block128 block4k block4k_b : List ℕ)
    → IsMachine m
    → length block128 ≡ 128
    → length block4k ≡ 4096
    → length block4k_b ≡ 4096
    → Returns (hashalg_main block128 block4k block4k_b) λ out.
      (out.different_match ≡ false)
      × Returns (cuda_main cuda m) (
          EndsWith cuda (record {
            h128 = out.h128;
            h4k_a = out.h4k_a;
            h4k_b = out.h4k_b;
            different_match = out.different_match;
          }))
unfolding cuda_main
cuda_main-hashalg_main cuda m block128 block4k block4k_b is size128 size4k size4k_b =
    let cpu = hashalg_main_run block128 block4k block4k_b size128 size4k size4k_b in
    let (a, fill_a, is_a) = fill_pattern-IsPattern m.h_block128 128 0xA5 is.size_block128 in
    let (b, fill_b, is_b) = fill_pattern-IsPattern m.h_block4k 4096 0x11 is.size_block4k in
    let (c, fill_c, is_c) = fill_pattern-IsPattern m.h_block4k_b 4096 0x11 is.size_block4k_b in
    let same_a : a ≡ cpu.filled128 = IsPattern-unique is_a cpu.is128 in
    let same_b : b ≡ cpu.filled4k = IsPattern-unique is_b cpu.is4k in
    let same_c : c ≡ cpu.filled4k = IsPattern-unique is_c cpu.is4k in
    let launched =
      run_kernels_lem cuda m is cpu.filled128 cpu.filled4k (set cpu.filled4k 2000 64) cpu.h128
        cpu.h4k_a cpu.h4k_b cpu.is128.size cpu.is4k.size
        (length-set cpu.filled4k 2000 64 ∙ cpu.is4k.size) cpu.hash128 cpu.hash4k_a cpu.hash4k_b in
    (
      _,
      cpu.ends,
      (
        ==_ne cpu.h4k_a cpu.h4k_b cpu.differ,
        Returns-Ensures _ _ (
            rw (fill_a, fill_b, fill_c, same_a, same_b, same_c, flip_bit-set cpu.is4k)
              (check_lem cuda _ _ _
                (check_lem cuda _ _ _ (check_lem cuda _ _ _ (check_lem cuda _ _ _ launched))))),
      ),
    )
