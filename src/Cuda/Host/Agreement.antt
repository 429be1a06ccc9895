-- ===== src/Cuda/Host/Agreement.antt =====
-- hashalg.cu: what `main` prints beside what the `main` of hashalg.c prints.
use random_c_code_snippets_b.Prelude.{
  ℕ, zero, suc, ◌+◌, ◌*◌, ◌/◌, ◌%◌, ◌≤◌, ◌<◌, ◌≡◌, refl, sym, ap, ◌∙◌, arith, List, length, get_or,
  drop, ok, read, Returns, bind_congr, read-get_or, ok_injective,
}
use random_c_code_snippets_b.FastHash.{
  fh_load64, word_rounds, start_lanes, lanes_step, Lanes, fast_hash_words,
}
use random_c_code_snippets_b.Cuda.{launch, threads_per_block, blocks_per_grid2, ThreadId}
use random_c_code_snippets_b.Cuda.Schedule.{IsSchedule, launch-fast_hash_words}

-- Two buffers that read the same below a bound have the same words and the same hash.
module _ (block block' : List ℕ) where
  load_agree :
      (p : ℕ)
      → ((q : ℕ) → q < p + 8 → read block q ≡ read block' q)
      → fh_load64 block p ≡ fh_load64 block' p
  unfolding fh_load64
  load_agree p same =
      rw
        (
          same p (omega arith),
          same (p + 1) (omega arith),
          same (p + 2) (omega arith),
          same (p + 3) (omega arith),
          same (p + 4) (omega arith),
          same (p + 5) (omega arith),
          same (p + 6) (omega arith),
          same (p + 7) (omega arith),
        )
        refl

  rounds_agree :
      (left i : ℕ) (l : Lanes)
      → ((q : ℕ) → q < (i + left * 4) * 8 → read block q ≡ read block' q)
      → word_rounds left i block l ≡ word_rounds left i block' l
  unfolding word_rounds
  rounds_agree zero i l same = refl
  rounds_agree (suc left) i l same =
      let load = λ (p : ℕ) (h : p + 8 ≤ (i + suc left * 4) * 8).
        load_agree p (λ q k. same q (omega arith)) in
      bind_congr (load _ (omega arith)) λ w0. bind_congr (load _ (omega arith)) λ w1.
        bind_congr (load _ (omega arith)) λ w2.
          bind_congr (load _ (omega arith))
            λ w3. rounds_agree left (i + 4) (lanes_step l w0 w1 w2 w3) (λ q k. same q (omega arith))

  pub hash_agree :
      (len : ℕ)
      → len % 32 ≡ 0
      → len ≤ length block
      → len ≤ length block'
      → ((q : ℕ) → q < len → get_or block q 0 ≡ get_or block' q 0)
      → fast_hash_words block len ≡ fast_hash_words block' len
  unfolding fast_hash_words
  hash_agree len even fits fits' same =
      bind_congr
        (rounds_agree ((len / 8 + 3) / 4) 0 start_lanes (λ q h.
          read-get_or block q 0 (omega arith)
          ∙ ap ok (same q (omega arith))
          ∙ sym (read-get_or block' q 0 (omega arith))))
        λ l. refl

-- Both outputs of a launch of two blocks, or one of one, that the host reads.
pub launch_both :
    (d_in d_out : List ℕ) (schedule : List ThreadId)
    → length d_in ≡ 8192
    → length d_out ≡ 2
    → IsSchedule blocks_per_grid2 threads_per_block schedule
    → Returns (launch threads_per_block 4096 2 d_in schedule d_out) λ out.
      (length out ≡ 2)
      × (fast_hash_words d_in 4096 ≡ ok (get_or out 0 0))
      × (fast_hash_words (drop 4096 d_in) 4096 ≡ ok (get_or out 1 0))
launch_both d_in d_out schedule size len is =
    let (out, run, (len', first)) =
      launch-fast_hash_words 4096 2 blocks_per_grid2 d_in d_out schedule 0 refl size len
        (omega arith) (omega arith) is (omega arith) in
    let (out', run', (k, second)) =
      launch-fast_hash_words 4096 2 blocks_per_grid2 d_in d_out schedule 1 refl size len
        (omega arith) (omega arith) is (omega arith) in
    let same : out' ≡ out = ok_injective (sym run' ∙ run) in
    (out, run, (len', first, second ∙ ap (λ o. ok (get_or o 1 0)) same))
