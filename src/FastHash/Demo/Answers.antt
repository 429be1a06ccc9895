-- ===== src/FastHash/Demo/Answers.antt =====
-- hashalg.c: the buffers that `main` makes, and what it prints.
use random_c_code_snippets_b.Prelude.{
  ok, write-set, get_or-set_ne, ℕ_discrete, read-get_or, get_or-beyond, ==_ne,
  write_rounds-IsWritten, length-set, get_or-set_self, dec_lt, ==_refl, list_ext, Returns, ℕ, ◌+◌,
  ◌<◌, ◌≡◌, ◌≢◌, refl, sym, ap, ◌∙◌, arith, List, length, get_or, set, true, false, ◌==◌,
}
use random_c_code_snippets_b.FastHash.{fast_hash_words}
use random_c_code_snippets_b.FastHash.Demo.{
  Printed, pattern_byte, fill_pattern, flip_bit, hashalg_main,
}
use random_c_code_snippets_b.FastHash.Detect.{IsBlock, Differ, fast_hash_words_lem}
use random_c_code_snippets_b.FastHash.OneWord.{fast_hash_words-Differ}

zero_add : (i : ℕ) → 0 + i ≡ i
zero_add i = omega arith

-- The buffer that `fill_pattern` leaves.
pub record IsPattern (out : List ℕ) (n seed : ℕ) : Type 0 where
  pub size : length out ≡ n
  pub bytes : (i : ℕ) → i < n → get_or out i 0 ≡ pattern_byte seed i

pub fill_pattern-IsPattern :
    (buf : List ℕ) (n seed : ℕ)
    → length buf ≡ n
    → Returns (fill_pattern buf n seed) (λ out. IsPattern out n seed)
unfolding fill_pattern
fill_pattern-IsPattern buf n seed size =
    let (out, run, (len, inside, outside)) =
      write_rounds-IsWritten (λ i. ok (pattern_byte seed i)) (pattern_byte seed) n 0 n 0 buf
        (omega arith) (omega (arith, size)) (λ k h. refl) in
    (
      out,
      run,
      record {
        size = len ∙ size;
        bytes = λ i h. ap (λ q. get_or out q 0) (sym (zero_add i)) ∙ (inside i (omega arith) h);
      },
    )

pub IsPattern-IsBlock : {out : List ℕ} {n seed : ℕ} → IsPattern out n seed → IsBlock out n
IsPattern-IsBlock {out} {n} {seed} p = record {
  size = p.size;
  bytes = λ i. elim (dec_lt i n) [
    | yes inside ↦ omega (arith, p.bytes i inside)
    | no outside ↦ omega (arith, get_or-beyond out i 0 (omega (arith, p.size)))
  ];
}

-- Two buffers with one pattern are one buffer.
pub IsPattern-unique : {a b : List ℕ} {n seed : ℕ} → IsPattern a n seed → IsPattern b n seed → a ≡ b
IsPattern-unique {a} {b} p q =
    list_ext a b (p.size ∙ sym q.size)
      (λ i h. p.bytes i (omega (arith, p.size)) ∙ sym (q.bytes i (omega (arith, p.size))))

-- The byte 2000 of the pattern with the seed 0x11 is 65, and its flip is 64.
pub flip_bit-set : {buf : List ℕ} → IsPattern buf 4096 0x11 → flip_bit buf ≡ ok (set buf 2000 64)
unfolding flip_bit
flip_bit-set {buf} p =
    let inside : 2000 < length buf = omega (arith, p.size) in
    rw (read-get_or buf 2000 0 inside, p.bytes 2000 (omega arith)) (write-set buf 2000 64 inside)

pub flipped-Differ :
    {buf : List ℕ} → IsPattern buf 4096 0x11 → Differ buf (set buf 2000 64) 4096 2000
flipped-Differ {buf} p = record {
  left_block = IsPattern-IsBlock p;
  right_block = record {
    size = length-set buf 2000 64 ∙ p.size;
    bytes = λ i. elim (ℕ_discrete 2000 i) [
      | yes here ↦
          rw (← here) (omega (arith, get_or-set_self buf 2000 64 0 (omega (arith, p.size))))
      | no away ↦ rw (get_or-set_ne buf 2000 i 64 0 away) ((IsPattern-IsBlock p).bytes i)
    ];
  };
  rest = λ i away. sym (get_or-set_ne buf 2000 i 64 0 (λ e. away (omega arith)));
}

pub flipped_hash-Differ :
    {buf : List ℕ}
    → IsPattern buf 4096 0x11
    → Returns
        (fast_hash_words buf 4096)
        λ h. Returns (fast_hash_words (set buf 2000 64) 4096) λ h'. h ≢ h'
flipped_hash-Differ {buf} p =
    fast_hash_words-Differ (flipped-Differ p) refl (omega arith) refl (omega arith) 2000 (λ e.
      omega (
        arith,
        e,
        p.bytes 2000 (omega arith),
        get_or-set_self buf 2000 64 0 (omega (arith, p.size)),
      ))

-- What `main` prints for three hashes.
abbrev pub printed : ℕ → ℕ → ℕ → Printed
printed h128 h4k_a h4k_b = record {
  h128 = h128;
  h4k_a = h4k_a;
  h4k_b = h4k_b;
  rehashed_match = true;
  different_match = h4k_a == h4k_b;
}

-- The buffers of a run of `main`, their hashes and its end.
pub record HashalgRun (block128 block4k block4k_b : List ℕ) : Type 0 where
  pub filled128 : List ℕ
  pub filled4k : List ℕ
  pub h128 : ℕ
  pub h4k_a : ℕ
  pub h4k_b : ℕ
  pub is128 : IsPattern filled128 128 0xA5
  pub is4k : IsPattern filled4k 4096 0x11
  pub hash128 : fast_hash_words filled128 128 ≡ ok h128
  pub hash4k_a : fast_hash_words filled4k 4096 ≡ ok h4k_a
  pub hash4k_b : fast_hash_words (set filled4k 2000 64) 4096 ≡ ok h4k_b
  pub differ : h4k_a ≢ h4k_b
  pub ends : hashalg_main block128 block4k block4k_b ≡ ok (printed h128 h4k_a h4k_b)

module _ (block128 block4k block4k_b : List ℕ) (size128 : length block128 ≡ 128)
    (size4k : length block4k ≡ 4096) (size4k_b : length block4k_b ≡ 4096) where
  pub hashalg_main_run : HashalgRun block128 block4k block4k_b
  unfolding hashalg_main
  hashalg_main_run =
      let (a, fill_a, is_a) = fill_pattern-IsPattern block128 128 0xA5 size128 in
      let (b, fill_b, is_b) = fill_pattern-IsPattern block4k 4096 0x11 size4k in
      let (c, fill_c, is_c) = fill_pattern-IsPattern block4k_b 4096 0x11 size4k_b in
      let (h4k_a, hash_b, (h4k_b, hash_c, differ)) = flipped_hash-Differ is_b in
      let hash_a = fast_hash_words_lem a 128 (omega (arith, is_a.size)) refl in
      record {
        filled128 = a;
        filled4k = b;
        h128 = _;
        h4k_a = h4k_a;
        h4k_b = h4k_b;
        is128 = is_a;
        is4k = is_b;
        hash128 = hash_a;
        hash4k_a = hash_b;
        hash4k_b = hash_c;
        differ = differ;
        ends =
            rw
              (
                fill_a,
                fill_b,
                fill_c,
                IsPattern-unique is_c is_b,
                flip_bit-set is_b,
                hash_a,
                hash_b,
                hash_c,
                ==_refl h4k_a,
              )
              refl;
      }

-- The `main` of hashalg.c, on buffers with any contents, stays inside its buffers, ends, and prints
-- that the same buffer rehashed matches and that the two buffers which differ in one bit do not.
pub hashalg_main-answers :
    (block128 block4k block4k_b : List ℕ)
    → length block128 ≡ 128
    → length block4k ≡ 4096
    → length block4k_b ≡ 4096
    → Returns
        (hashalg_main block128 block4k block4k_b)
        λ out. (out.rehashed_match ≡ true) × (out.different_match ≡ false)
hashalg_main-answers block128 block4k block4k_b size128 size4k size4k_b =
    let run = hashalg_main_run block128 block4k block4k_b size128 size4k size4k_b in
    (_, run.ends, (refl, ==_ne run.h4k_a run.h4k_b run.differ))
