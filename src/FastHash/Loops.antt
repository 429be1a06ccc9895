-- ===== src/FastHash/Loops.antt =====
-- The hash functions of hashalg.c and of fast_hash.h compared.
use random_c_code_snippets_b.Prelude.{
  ℕ, zero, suc, ◌+◌, ◌*◌, ◌≡◌, refl, ap, ◌∙◌, arith, List, none, Run, ok, ◌>>=◌, bind_congr,
  fun_ext, sym, fault, ◌⊎◌, inl, inr,
}
use random_c_code_snippets_b.FastHash.{
  fh_load64, lanes_step, Lanes, start_lanes, finish, word_rounds, fast_hash_words, step,
  fast_hash_128, byte_rounds, fast_hash_4096_scalar, fast_hash_4096, fast_hash, fh_k1, fh_k2, fh_k3,
}

-- Four calls of STEP, one for each lane.
abbrev four_steps : List ℕ → ℕ → Lanes → (Lanes → Run ℕ) → Run ℕ
four_steps block n l g = do
  a0 ← step block n l.h0 fh_k1
  a1 ← step block (n + 1) l.h1 fh_k2
  a2 ← step block (n + 2) l.h2 fh_k3
  a3 ← step block (n + 3) l.h3 fh_k1
  g (record { h0 = a0; h1 = a1; h2 = a2; h3 = a3 })

bind_assoc :
    {A B C : Type 0} (m : Run A) (f : A → Run B) (g : B → Run C)
    → (m >>= f >>= g) ≡ (m >>= λ a. f a >>= g)
bind_assoc (ok a) f g = refl
bind_assoc (fault e) f g = refl

-- One round of the loop of hashalg.c is four calls of STEP.
word_rounds_step :
    (left i : ℕ) (block : List ℕ) (l : Lanes) (g : Lanes → Run ℕ)
    → (word_rounds (suc left) i block l >>= g)
      ≡ four_steps block i l (λ l'. word_rounds left (i + 4) block l' >>= g)
unfolding word_rounds step lanes_step
word_rounds_step left i block l g =
    let load = λ (p q : ℕ) (s : p ≡ q). ap (fh_load64 block) s in
    bind_assoc (fh_load64 block ((i + 0) * 8)) _ g
    ∙ bind_congr (load _ _ (omega arith)) (λ w0.
      bind_assoc (fh_load64 block ((i + 1) * 8)) _ g
      ∙ bind_congr refl (λ w1.
        bind_assoc (fh_load64 block ((i + 2) * 8)) _ g
        ∙ bind_congr refl (λ w2.
          bind_assoc (fh_load64 block ((i + 3) * 8)) _ g
          ∙ sym (bind_assoc (fh_load64 block ((i + 3) * 8)) _ _))
        ∙ sym (bind_assoc (fh_load64 block ((i + 2) * 8)) _ _))
      ∙ sym (bind_assoc (fh_load64 block ((i + 1) * 8)) _ _))
    ∙ sym (bind_assoc (fh_load64 block (i * 8)) _ _)

-- Two groups of four calls agree when what follows them does.
four_steps_congr :
    (block : List ℕ) (n : ℕ) (l : Lanes) (g g' : Lanes → Run ℕ)
    → ((l' : Lanes) → g l' ≡ g' l')
    → four_steps block n l g ≡ four_steps block n l g'
four_steps_congr block n l g g' h = ap (four_steps block n l) (fun_ext h)

-- The loop of hashalg.c, unrolled over its four rounds for a block of 128 bytes.
unrolled : List ℕ → (Lanes → Run ℕ) → ℕ → ℕ → Lanes → Run ℕ
unrolled block g zero i l = g l
unrolled block g (suc left) i l = four_steps block i l (unrolled block g left (i + 4))

word_rounds-unrolled :
    (block : List ℕ) (g : Lanes → Run ℕ) (left i : ℕ) (l : Lanes)
    → (word_rounds left i block l >>= g) ≡ unrolled block g left i l
unfolding unrolled word_rounds
word_rounds-unrolled block g zero i l = refl
word_rounds-unrolled block g (suc left) i l =
    word_rounds_step left i block l g
    ∙ four_steps_congr block i l _ _ (word_rounds-unrolled block g left (i + 4))

-- The unrolled path of fast_hash.h does what the loop of hashalg.c does on 128 bytes, on every
-- buffer: the same value, or the same read out of bounds.
pub fast_hash_128-words : (block : List ℕ) → fast_hash_128 block ≡ fast_hash_words block 128
unfolding fast_hash_128 fast_hash_words unrolled
fast_hash_128-words block =
    sym (word_rounds-unrolled block (λ l. ok (finish l 128)) 4 0 start_lanes)

byte_rounds-word_rounds :
    (left i j : ℕ) (block : List ℕ) (l : Lanes)
    → j ≡ i * 8
    → byte_rounds left j block l ≡ word_rounds left i block l
unfolding byte_rounds word_rounds
byte_rounds-word_rounds zero i j block l e = refl
byte_rounds-word_rounds (suc left) i j block l e =
    let load = λ (p q : ℕ) (s : p ≡ q). ap (fh_load64 block) s in
    bind_congr (load _ _ (omega arith)) λ w0. bind_congr (load _ _ (omega arith)) λ w1.
      bind_congr (load _ _ (omega arith)) λ w2. bind_congr (load _ _ (omega arith)) λ w3.
        byte_rounds-word_rounds left (i + 4) (j + 32) block (lanes_step l w0 w1 w2 w3) (omega arith)

pub fast_hash_4096_scalar-words :
    (block : List ℕ) → fast_hash_4096_scalar block ≡ fast_hash_words block 4096
unfolding fast_hash_4096_scalar fast_hash_words
fast_hash_4096_scalar-words block =
    bind_congr (byte_rounds-word_rounds 128 0 0 block start_lanes refl) λ l. refl

-- On a build without AES-NI, the `fast_hash` of fast_hash.h and that of hashalg.c do the same on
-- every buffer, for the two lengths they support: the same value, or the same read out of bounds.
pub fast_hash-words :
    (block : List ℕ) (len : ℕ)
    → (len ≡ 128) ⊎ (len ≡ 4096)
    → fast_hash none block len ≡ fast_hash_words block len
unfolding fast_hash fast_hash_4096
fast_hash-words block len (inl e) = rw (e, fast_hash_128-words block)
fast_hash-words block len (inr e) = rw (e, fast_hash_4096_scalar-words block)
