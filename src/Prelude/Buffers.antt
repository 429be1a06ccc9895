-- ===== src/Prelude/Buffers.antt =====
-- Loops that fill an array, and arrays given by their entries. No source code is modelled here.
use mathlib.Core.Path.{◌≡◌, refl, sym, ap, ap₂, ◌∙◌}
use mathlib.Core.Logic.{◌⊎◌, inl, inr}
use mathlib.Core.List.{List, [], ◌∷◌}
use native.Mathlib.Omega.{arith}
use native.Mathlib.Decide.{ℕ_discrete}
use Prim.Native.Nat.{ℕ, zero, suc, ◌+◌, ◌≤◌, ◌<◌}
use random_c_code_snippets_b.Prelude.Lists.{
  length, set, get_or, drop, length-set, get_or-set_self, get_or-set_ne,
}
use random_c_code_snippets_b.Prelude.Runs.{Run, ok, ◌>>=◌, write, write-set, Returns}

-- `array[off + i] = value(i)` from the index `i` on, with `left` rounds to go.
unfoldable pub write_rounds : (ℕ → Run ℕ) → ℕ → ℕ → ℕ → List ℕ → Run (List ℕ)
write_rounds value zero i off array = ok array
write_rounds value (suc left) i off array = do
  v ← value i
  array' ← write array (off + i) v
  write_rounds value left (i + 1) off array'

-- What the loop leaves: the values at the indices from `i` to `stop`, the rest as it was.
abbrev pub IsWritten : (ℕ → ℕ) → ℕ → ℕ → ℕ → List ℕ → List ℕ → Type 0
IsWritten g i stop off array out =
    (length out ≡ length array)
    × ((k : ℕ) → i ≤ k → k < stop → get_or out (off + k) 0 ≡ g k)
    × ((j : ℕ) → (j < off + i) ⊎ (off + stop ≤ j) → get_or out j 0 ≡ get_or array j 0)

pub write_rounds-IsWritten :
    (value : ℕ → Run ℕ) (g : ℕ → ℕ) (left i stop off : ℕ) (array : List ℕ)
    → i + left ≡ stop
    → off + stop ≤ length array
    → ((k : ℕ) → k < stop → value k ≡ ok (g k))
    → Returns (write_rounds value left i off array) (IsWritten g i stop off array)
unfolding write_rounds
write_rounds-IsWritten value g zero i stop off array e fits values =
    (array, refl, (refl, (λ k low high. absurd (omega arith)), (λ j away. refl)))
write_rounds-IsWritten value g (suc left) i stop off array e fits values =
    let v = g i in
    let here = off + i in
    let (out, run, (size, inside, outside)) =
      write_rounds-IsWritten value g left (i + 1) stop off (set array here v) (omega arith)
        (omega (arith, length-set array here v)) values in
    (
      out,
      rw (values i (omega arith), write-set array here v (omega arith)) run,
      (
        size ∙ length-set array here v,
        (λ k low high. elim (ℕ_discrete i k) [
          | yes same ↦
              ap (λ q. get_or out (off + q) 0) (sym same)
              ∙ outside here (inl (omega arith))
              ∙ get_or-set_self array here v 0 (omega arith)
              ∙ ap g same
          | no later ↦ inside k (omega arith) high
        ]),
        (λ j away.
            outside j (elim away [ inl a ↦ inl (omega arith) | inr a ↦ inr a ])
            ∙ get_or-set_ne array here j v 0
                (λ q. elim away [ inl a ↦ omega arith | inr a ↦ omega arith ])),
      ),
    )

-- Arrays of one length with the same entries are equal.
pub list_ext :
    (xs ys : List ℕ)
    → length xs ≡ length ys
    → ((i : ℕ) → i < length xs → get_or xs i 0 ≡ get_or ys i 0)
    → xs ≡ ys
list_ext [] [] size same = refl
list_ext [] (y ∷ ys) size same = absurd (omega (arith, size))
list_ext (x ∷ xs) [] size same = absurd (omega (arith, size))
list_ext (x ∷ xs) (y ∷ ys) size same =
    ap₂ ◌∷◌ (same 0 (omega arith))
      (list_ext xs ys (omega (arith, size)) (λ i h. same (suc i) (omega arith)))

pub get_or-drop : (n i : ℕ) (xs : List ℕ) → get_or (drop n xs) i 0 ≡ get_or xs (n + i) 0
get_or-drop zero i xs = ap (λ q. get_or xs q 0) (omega arith)
get_or-drop (suc n) i [] = refl
get_or-drop (suc n) i (x ∷ xs) =
    let shifted : suc n + i ≡ suc (n + i) = omega arith in
    get_or-drop n i xs ∙ sym (ap (λ q. get_or (x ∷ xs) q 0) shifted)
