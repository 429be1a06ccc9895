-- ===== src/DirtPages/Benefit/Counters.antt =====
-- dirtPages.c: the counters of sections 7 and 9, and what they stand for when they are rescaled.
use native.Mathlib.Nat.{one-le-pow, pow-suc, div-le_self}
use native.Mathlib.Numerals.{add-one}
use random_c_code_snippets_b.Prelude.{
  Returns-Ensures, ℕ, ◌+◌, ◌-◌, ◌*◌, ◌^◌, ◌≤◌, ◌<◌, ◌≡◌, ◌≢◌, ◌⊎◌, inl, inr, refl, arith, true,
  false, ok, Returns,
}
use random_c_code_snippets_b.Word.{u64}
use random_c_code_snippets_b.DirtPages.{UksmBenefit, Uksm}
use random_c_code_snippets_b.DirtPages.Benefit.{
  encode_if, store_scanned, encoded, accumulate, drained, encode_benefit, inc_rshash_pos,
  inc_rshash_neg, inc_uksm_pages_scanned,
}
use random_c_code_snippets_b.DirtPages.Benefit.Scale.{
  IsValid, total_scanned, Keeps, total_pos, total_neg, encode_benefit-Keeps, plain_Keeps,
  halved_Keeps,
}

-- The benefit as `reset_benefit` leaves it, or with two units of scanned pages in it.
abbrev pub IsReady : UksmBenefit → Type 0
IsReady b = ((b.base ≡ 0) × (b.pos ≡ 0) × (b.neg ≡ 0)) ⊎ (2 ≤ b.scanned)

encode_benefit_drains :
    (u : Uksm)
    → IsValid u
    → IsReady u.benefit
    → ((u.uksm_pages_scanned ≡ u.uksm_pages_scanned_last) × (encode_benefit u ≡ ok (u, false)))
      ⊎ ((u.uksm_pages_scanned ≢ u.uksm_pages_scanned_last)
          × (encode_benefit u ≡ ok (drained u, true)))
unfolding encode_benefit encoded accumulate
encode_benefit_drains u valid ready = ground (arith, one-le-pow u.benefit.base 2)

-- With counters in range, and with the benefit as `reset_benefit` leaves it or at least two units of
-- scanned pages in it, `encode_benefit` always ends. If no page was scanned since its last transfer,
-- it returns 0 and changes nothing. Else it returns 1, has cleared the running counters and left a
-- divisor `benefit.scanned` that is not zero, and the saved work, the wasted work and the pages
-- scanned that the state stands for are what they were, short of less than three units of the scale
-- before.
pub encode_benefit_ends :
    (u : Uksm)
    → IsValid u
    → IsReady u.benefit
    → Returns (encode_benefit u) λ r.
      let (v, result) = r in
      ((u.uksm_pages_scanned ≡ u.uksm_pages_scanned_last) × (result ≡ false) × (v ≡ u))
      ⊎ ((u.uksm_pages_scanned ≢ u.uksm_pages_scanned_last)
          × (result ≡ true)
          × (v.rshash_pos ≡ 0)
          × (v.rshash_neg ≡ 0)
          × (v.uksm_pages_scanned_last ≡ u.uksm_pages_scanned)
          × (v.benefit.scanned ≢ 0)
          × Keeps u.benefit.base (total_pos u) (total_pos v)
          × Keeps u.benefit.base (total_neg u) (total_neg v)
          × Keeps u.benefit.base (total_scanned u) (total_scanned v))
encode_benefit_ends u valid ready = elim (encode_benefit_drains u valid ready) [
  | inl (idle, run) ↦ ((u, false), run, inl (idle, refl, refl))
  | inr (scanned, run) ↦
      let (pos, neg, pages, divisor) = encode_benefit-Keeps u (drained u) valid run in
      ((drained u, true), run, inr (scanned, refl, refl, refl, refl, divisor, pos, neg, pages))
]

module _ (u : Uksm) (valid : IsValid u) (delta : ℕ) (small : delta < 2 ^ 64) where
  -- The counter has room, or a page has been scanned since the last transfer.
  abbrev pub HasRoom : ℕ → Type 0
  HasRoom counter =
      (counter + delta < 2 ^ 64)
      ⊎ ((u.uksm_pages_scanned ≢ u.uksm_pages_scanned_last) × IsReady u.benefit)

  -- With counters in range, while its counter has room, or a page has been scanned and the benefit
  -- is as reset or has two units of scanned pages: `inc_rshash_pos` ends and adds `delta` to the
  -- saved work, short of less than three units of the scale before, and the counter does not wrap.
  pub inc_rshash_pos-total :
      HasRoom u.rshash_pos
      → Returns
          (inc_rshash_pos delta u)
          λ v. Keeps u.benefit.base (total_pos u + delta) (total_pos v) × (v.rshash_pos < 2 ^ 64)
  unfolding inc_rshash_pos encode_benefit encode_if encoded accumulate
  inc_rshash_pos-total room = Returns-Ensures (inc_rshash_pos delta u) _ (
      ground (
        arith,
        encode_benefit-Keeps u (drained u) valid,
        one-le-pow u.benefit.base 2 (omega arith),
      ))

  -- With counters in range, while its counter has room, or a page has been scanned and the benefit
  -- is as reset or has two units of scanned pages: `inc_rshash_neg` ends and adds `delta` to the
  -- wasted work, short of less than three units of the scale before, and the counter does not wrap.
  pub inc_rshash_neg-total :
      HasRoom u.rshash_neg
      → Returns
          (inc_rshash_neg delta u)
          λ v. Keeps u.benefit.base (total_neg u + delta) (total_neg v) × (v.rshash_neg < 2 ^ 64)
  unfolding inc_rshash_neg encode_benefit encode_if encoded accumulate
  inc_rshash_neg-total room = Returns-Ensures (inc_rshash_neg delta u) _ (
      ground (
        arith,
        encode_benefit-Keeps u (drained u) valid,
        one-le-pow u.benefit.base 2 (omega arith),
      ))

  -- With counters in range, no page scanned since the last transfer and a counter that `delta`
  -- fills, `encode_benefit` does nothing inside `inc_rshash_pos` and the counter wraps: 2 ^ 64 units
  -- of saved work are lost.
  pub inc_rshash_pos_wraps :
      2 ^ 64 ≤ u.rshash_pos + delta
      → u.uksm_pages_scanned ≡ u.uksm_pages_scanned_last
      → Returns (inc_rshash_pos delta u) λ v. v.rshash_pos + 2 ^ 64 ≡ u.rshash_pos + delta
  unfolding inc_rshash_pos encode_benefit
  inc_rshash_pos_wraps full idle =
      (record u { rshash_pos = u64 (u.rshash_pos + delta) }, ground arith, ground arith)

-- All the pages scanned that the state stands for.
abbrev pub total_pages : Uksm → ℕ
total_pages u = u.pages_scanned_stored * 2 ^ u.pages_scanned_base + u.uksm_pages_scanned

-- With counters in range and the benefit as reset or with two units of scanned pages:
-- `inc_uksm_pages_scanned` ends and counts one page, also when the 64-bit counter is full, short of
-- less than three units of the scale of the stored part; and the counter itself does not wrap.
pub inc_uksm_pages_scanned-total :
    (u : Uksm)
    → IsValid u
    → IsReady u.benefit
    → u.pages_scanned_stored < 2 ^ 64
    → u.pages_scanned_base < 2 ^ 64 - 1
    → Returns (inc_uksm_pages_scanned u) λ v.
      Keeps u.pages_scanned_base (total_pages u + 1) (total_pages v) × (v.uksm_pages_scanned ≢ 0)
unfolding inc_uksm_pages_scanned encode_if store_scanned
inc_uksm_pages_scanned-total u valid ready p q =
    let s = 2 ^ u.pages_scanned_base in
    let positive : 0 < s = one-le-pow u.pages_scanned_base 2 (omega arith) in
    Returns-Ensures (inc_uksm_pages_scanned u) _ (
      ground (
        arith,
        positive,
        encode_benefit_drains u valid ready,
        plain_Keeps s u.pages_scanned_stored u.uksm_pages_scanned positive,
        halved_Keeps s u.pages_scanned_stored u.uksm_pages_scanned positive,
        div-le_self u.uksm_pages_scanned s,
        pow-suc 2 u.pages_scanned_base,
        add-one u.pages_scanned_base,
      ))
