-- ===== src/Cuda/Schedule.antt =====
-- hashalg.cu: the outputs of the schedules of a launch.
use random_c_code_snippets_b.Prelude.{
  ℕ, zero, suc, ◌+◌, ◌*◌, ◌/◌, ◌%◌, ◌≤◌, ◌<◌, ◌^◌, ◌≡◌, ◌⊎◌, inl, inr, refl, sym, ap, ◌∙◌, arith,
  List, [], ◌∷◌, none, some, length, get_elem?, get_or, set, drop, length-set, length-drop,
  get_or-set_self, get_or-set_ne, write-set, ltb, lt→ltb, le→ltb, if◌then◌else◌, ok, Returns,
  dec_lt, ℕ_discrete,
}
use random_c_code_snippets_b.FastHash.{start_lanes, finish, fast_hash_words}
use random_c_code_snippets_b.FastHash.Detect.{lanes, fast_hash_words_lem}
use random_c_code_snippets_b.Cuda.{
  fast_hash_device, ThreadId, thread_index, fast_hash_kernel, launch, threads_per_block,
}

-- The device hash is the hash of hashalg.c.
device-words : (block : List ℕ) (len : ℕ) → fast_hash_device block len ≡ fast_hash_words block len
unfolding fast_hash_device fast_hash_words
device-words block len = refl

-- The schedule runs the threads of the grid and no others. A thread may be in it more than once.
pub record IsSchedule (grid_dim block_dim : ℕ) (schedule : List ThreadId) : Type 0 where
  pub inside : (k b t : ℕ) → get_elem? schedule k ≡ some (b, t) → (b < grid_dim) × (t < block_dim)
  pub complete :
      (b t : ℕ) → b < grid_dim → t < block_dim → (k : ℕ) × (get_elem? schedule k ≡ some (b, t))

-- No thread of the schedule has a negative index.
abbrev IsSmall : ℕ → List ThreadId → Type 0
IsSmall block_dim schedule =
    (k : ℕ) (thread : ThreadId)
    → get_elem? schedule k ≡ some thread
    → thread_index block_dim thread < 2 ^ 31

scale_mono : (s a b : ℕ) → a ≤ b → a * s ≤ b * s
scale_mono s a b h = grind arith

succ_times : (i s : ℕ) → (i + 1) * s ≡ i * s + s
succ_times i s = grind arith

some_injective : {A : Type 0} {a b : A} → some a ≡ some b → a ≡ b
some_injective e = cc

none-some : {A : Type 0} {a : A} → none ≡ some a → ⊥
none-some e = cc

module _ (block_len num_blocks : ℕ) (d_in : List ℕ) (even : block_len % 32 ≡ 0)
    (size : length d_in ≡ num_blocks * block_len) where
  hash_of : ℕ → ℕ
  hash_of i =
      finish (lanes ((block_len / 8 + 3) / 4) 0 8 16 24 (drop (i * block_len) d_in) start_lanes)
        block_len

  fits : (i : ℕ) → i < num_blocks → block_len ≤ length (drop (i * block_len) d_in)
  fits i h = omega (
    arith,
    size,
    length-drop (i * block_len) d_in,
    scale_mono block_len (i + 1) num_blocks (omega arith),
    succ_times i block_len,
  )

  hash_ok :
      (i : ℕ)
      → i < num_blocks
      → fast_hash_words (drop (i * block_len) d_in) block_len ≡ ok (hash_of i)
  unfolding hash_of
  hash_ok i h = fast_hash_words_lem (drop (i * block_len) d_in) block_len (fits i h) even

  module _ (block_dim : ℕ) where
    -- The output behind a thread.
    next : ThreadId → List ℕ → List ℕ
    next thread d_out =
        if ltb (thread_index block_dim thread) num_blocks
        then set d_out (thread_index block_dim thread) (hash_of (thread_index block_dim thread))
        else d_out

    kernel-next :
        (thread : ThreadId) (d_out : List ℕ)
        → thread_index block_dim thread < 2 ^ 31
        → length d_out ≡ num_blocks
        → fast_hash_kernel block_dim block_len num_blocks d_in thread d_out ≡ ok (next thread d_out)
    unfolding fast_hash_kernel next
    kernel-next thread d_out small len =
        let idx = thread_index block_dim thread in
        elim (dec_lt idx num_blocks) [
          | yes inside ↦ rw (
            lt→ltb idx (2 ^ 31) small,
            lt→ltb idx num_blocks inside,
            device-words (drop (idx * block_len) d_in) block_len,
            hash_ok idx inside,
            write-set d_out idx (hash_of idx) (omega arith),
          )
          | no outside ↦ rw (lt→ltb idx (2 ^ 31) small, le→ltb idx num_blocks (omega arith))
        ]

    length-next : (thread : ThreadId) (d_out : List ℕ) → length (next thread d_out) ≡ length d_out
    unfolding next
    length-next thread d_out =
        let idx = thread_index block_dim thread in
        elim (dec_lt idx num_blocks) [
          | yes inside ↦ rw (lt→ltb idx num_blocks inside) (length-set d_out idx (hash_of idx))
          | no outside ↦ rw (le→ltb idx num_blocks (omega arith))
        ]

    -- All threads write the same value at a place.
    next_lem :
        (thread : ThreadId) (d_out : List ℕ) (i : ℕ)
        → length d_out ≡ num_blocks
        → i < num_blocks
        → (get_or d_out i 0 ≡ hash_of i) ⊎ (thread_index block_dim thread ≡ i)
        → get_or (next thread d_out) i 0 ≡ hash_of i
    unfolding next
    next_lem thread d_out i len h done =
        let idx = thread_index block_dim thread in
        elim (ℕ_discrete idx i) [
          | yes here ↦ rw (lt→ltb idx num_blocks (omega arith)) (
              ap (λ q. get_or (set d_out idx (hash_of idx)) q 0) (sym here)
              ∙ get_or-set_self d_out idx (hash_of idx) 0 (omega arith)
              ∙ ap hash_of here)
          | no away ↦
              let old : get_or d_out i 0 ≡ hash_of i = elim done [
                | inl e ↦ e
                | inr e ↦ absurd (away e)
              ] in
              elim (dec_lt idx num_blocks) [
                | yes inside ↦
                    rw (lt→ltb idx num_blocks inside)
                      (get_or-set_ne d_out idx i (hash_of idx) 0 away ∙ old)
                | no outside ↦ rw (le→ltb idx num_blocks (omega arith)) old
              ]
        ]

    -- A place is filled, or a thread of the schedule will fill it.
    abbrev IsFilled : List ThreadId → List ℕ → ℕ → Type 0
    IsFilled schedule d_out i =
        (get_or d_out i 0 ≡ hash_of i)
        ⊎ ((k : ℕ) × (thread : ThreadId) × (get_elem? schedule k ≡ some thread)
            × (thread_index block_dim thread ≡ i))

    step-IsFilled :
        (thread : ThreadId) (schedule : List ThreadId) (d_out : List ℕ)
        → length d_out ≡ num_blocks
        → (i : ℕ) → i < num_blocks
        → IsFilled (thread ∷ schedule) d_out i
        → IsFilled schedule (next thread d_out) i
    step-IsFilled thread schedule d_out len i h (inl e) =
        inl (next_lem thread d_out i len h (inl e))
    step-IsFilled thread schedule d_out len i h (inr (zero, other, found, e)) =
        let same : thread ≡ other = some_injective found in
        inl (next_lem thread d_out i len h (inr (ap (thread_index block_dim) same ∙ e)))
    step-IsFilled thread schedule d_out len i h (inr (suc k, other, found, e)) =
        inr (k, other, found, e)

    launch_lem :
        (schedule : List ThreadId) (d_out : List ℕ)
        → IsSmall block_dim schedule
        → length d_out ≡ num_blocks
        → Returns (launch block_dim block_len num_blocks d_in schedule d_out) λ out.
          (length out ≡ num_blocks)
          × ((i : ℕ) → i < num_blocks → IsFilled schedule d_out i → get_or out i 0 ≡ hash_of i)
    unfolding launch
    launch_lem [] d_out small len = (
      d_out,
      refl,
      (len, λ i h filled. elim filled [ inl e ↦ e | inr w ↦ absurd (none-some w.2) ]),
    )
    launch_lem (thread ∷ schedule) d_out small len =
        let (out, run, (len', later)) =
          launch_lem schedule (next thread d_out) (λ k. small (suc k))
            (length-next thread d_out ∙ len) in
        (
          out,
          rw (kernel-next thread d_out (small 0 thread refl) len) run,
          (len', λ i h filled. later i h (step-IsFilled thread schedule d_out len i h filled)),
        )

-- The threads of a grid of at most 2 ^ 31 threads have indices that are not negative.
schedule-IsSmall :
    (grid_dim : ℕ) (schedule : List ThreadId)
    → grid_dim * threads_per_block ≤ 2 ^ 31
    → IsSchedule grid_dim threads_per_block schedule
    → IsSmall threads_per_block schedule
schedule-IsSmall grid_dim schedule bound is k (b, t) found =
    let (low, high) = is.inside k b t found in omega arith

-- For blocks whose length is a multiple of 32, an input of `num_blocks` blocks, an output of
-- `num_blocks` places, and a grid that has a thread for each block and at most 2 ^ 31 threads in all:
-- every schedule that runs the threads of the grid and no others, in whatever order, gives the same
-- output. The launch reads and writes inside its buffers, no index wraps or is negative, and each
-- place of the output has the hash that hashalg.c computes for its block.
pub launch-fast_hash_words :
    (block_len num_blocks grid_dim : ℕ) (d_in d_out : List ℕ) (schedule : List ThreadId) (i : ℕ)
    → block_len % 32 ≡ 0
    → length d_in ≡ num_blocks * block_len
    → length d_out ≡ num_blocks
    → num_blocks ≤ grid_dim * threads_per_block
    → grid_dim * threads_per_block ≤ 2 ^ 31
    → IsSchedule grid_dim threads_per_block schedule
    → i < num_blocks
    → Returns (launch threads_per_block block_len num_blocks d_in schedule d_out) λ out.
      (length out ≡ num_blocks)
      × (fast_hash_words (drop (i * block_len) d_in) block_len ≡ ok (get_or out i 0))
launch-fast_hash_words block_len num_blocks grid_dim d_in d_out schedule i even size len enough
      bound is h =
    let (out, run, (len', filled)) =
      launch_lem block_len num_blocks d_in even size threads_per_block schedule d_out
        (schedule-IsSmall grid_dim schedule bound is) len in
    let (k, found) = is.complete (i / 256) (i % 256) (omega arith) (omega arith) in
    (
      out,
      run,
      (
        len',
        hash_ok block_len num_blocks d_in even size i h
            ∙ ap ok (sym (filled i h (inr (k, (i / 256, i % 256), found, omega arith)))),
      ),
    )
