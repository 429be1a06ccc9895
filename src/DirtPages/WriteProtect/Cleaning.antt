-- ===== src/DirtPages/WriteProtect/Cleaning.antt =====
-- dirtPages.c: what `write_protect_page` leaves on each of its ways out.
use random_c_code_snippets_b.Prelude.{
  sym, true≢false, ◌≢◌, ap, ◌∷◌, Option-cases, ◌∙◌, inr, inl, ◌⊎◌, Bool-cases, ℕ, ◌+◌, ◌≡◌, refl,
  arith, Bool, true, false, if◌then◌else◌, some, Returns, ==_refl,
}
use random_c_code_snippets_b.DirtPages.WriteProtect.{
  none, is_busy, remove, PteOps, PageFacts, Mapping, WriteProtectResult, protected, efault,
  must_protect, clean_entry, protect_pte, hand_over, protect_walked, protect_mapped,
  write_protect_page,
}

module _ {Pte : Type 0} (ops : PteOps Pte) (page : PageFacts Pte) where
  -- A write through the entry is possible.
  abbrev pub writable : Pte → Bool
  writable pte = if ops.pte_protnone pte then ops.pte_savedwrite pte else ops.pte_write pte

  abbrev pub IsClean : Pte → Type 0
  IsClean pte = (ops.pte_dirty pte ≡ false) × (writable pte ≡ false)

  clean_entry-IsClean : (entry : Pte) → IsClean (clean_entry ops page entry)
  unfolding clean_entry
  clean_entry-IsClean entry = elim (Bool-cases (ops.pte_protnone entry)) [
    | inl e ↦
        let bare = ops.pte_clear_savedwrite entry in
        let closed = ops.protnone-mkclean bare ∙ ops.protnone-clear_savedwrite entry ∙ e in
        rw (clean_entry, e)
          (
            ops.dirty-mkclean bare,
            rw closed (ops.savedwrite-mkclean bare ∙ ops.savedwrite-clear_savedwrite entry),
          )
    | inr e ↦
        let bare = ops.pte_wrprotect entry in
        let open_ = ops.protnone-mkclean bare ∙ ops.protnone-wrprotect entry ∙ e in
        rw (clean_entry, e)
          (ops.dirty-mkclean bare, rw open_ (ops.write-mkclean bare ∙ ops.write-wrprotect entry))
  ]

  pub untouched-IsClean : (pte : Pte) → must_protect ops page pte ≡ false → IsClean pte
  unfolding must_protect
  untouched-IsClean pte h = ground arith

  -- A call on its way out, from the state `m`.
  pub record Left (m : Mapping Pte) (r : Mapping Pte × WriteProtectResult) : Type 0 where
    pub ranges : r.0.ranges ≡ m.ranges
    pub walks : r.0.walks ≡ m.walks
    pub clean : r.1 ≡ protected → IsClean r.0.pte
    pub reported : r.1 ≡ protected → r.0.orig_pte ≡ some r.0.pte
    pub transferred :
        r.1 ≡ protected
        → must_protect ops page m.pte ≡ true
        → ops.pte_dirty page.entry ≡ true
        → r.0.page_dirty ≡ true
    pub kept : (r.0.page_dirty ≡ true) ⊎ (r.0.page_dirty ≡ m.page_dirty)
    pub failed :
        r.1 ≡ efault
        → (r.0.page_dirty ≡ m.page_dirty)
          × (r.0.orig_pte ≡ m.orig_pte)
          × ((r.0.pte ≡ m.pte) ⊎ (r.0.pte ≡ page.entry))

  protect_walked-Left :
      (want_old : Bool) (m : Mapping Pte) → Left m (protect_walked ops page want_old m)
  unfolding protect_walked hand_over protect_pte
  protect_walked-Left want_old m =
      ground (arith, clean_entry-IsClean page.entry, untouched-IsClean m.pte)

  -- `out_mn`
  closing :
      (address : ℕ) (m : Mapping Pte) (r : Mapping Pte × WriteProtectResult)
      → Left (record m { ranges = address ∷ m.ranges }) r
      → Left m (record r.0 { ranges = remove address r.0.ranges }, r.1)
  closing address m r left = record {
    ranges = ap (remove address) left.ranges ∙ rw (==_refl address) refl;
    walks = left.walks;
    clean = left.clean;
    reported = left.reported;
    transferred = left.transferred;
    kept = left.kept;
    failed = left.failed;
  }

  protect_none : (m : Mapping Pte) → Left m (m, efault)
  protect_none m = ground arith

  protect_mapped-Left :
      (want_old : Bool) (m : Mapping Pte) → Left m (protect_mapped ops page want_old m)
  unfolding protect_mapped
  protect_mapped-Left want_old m =
      ground (arith, protect_walked-Left want_old (record m { walks = m.walks + 1 }))

  -- For a page that is not part of a compound page, the call ends. On every way out, each notifier
  -- range and each page table lock that it opened is closed. If it returns 0, the entry is clean and
  -- lets no write through, `*orig_pte` is that entry, and if the entry was taken out of the page
  -- table with its dirty bit, the page is dirty. If it returns -EFAULT, the page's dirty flag and
  -- `*orig_pte` are as they were, and the entry is as it was, or the one taken out is back.
  pub write_protect_page-Left :
      (want_old : Bool) (m : Mapping Pte)
      → page.compound ≡ false
      → Returns (write_protect_page ops page want_old m) (Left m)
  write_protect_page-Left want_old m simple = elim (Option-cases page.address) [
    | inl e ↦ ((m, efault), unfold write_protect_page in rw e refl, protect_none m)
    | inr (a, e) ↦
        let r = protect_mapped ops page want_old (record m { ranges = a ∷ m.ranges }) in
        (
          (record r.0 { ranges = remove a r.0.ranges }, r.1),
          unfold write_protect_page in rw (e, simple) refl,
          closing a m _ (protect_mapped-Left want_old (record m { ranges = a ∷ m.ranges })),
        )
  ]

  -- The entry shows no write and no possible one, and no flush of the address space is pending.
  pub record IsQuiet (pte : Pte) : Type 0 where
    pub unwritable : ops.pte_write pte ≡ false
    pub undirtied : ops.pte_dirty pte ≡ false
    pub unsaved : (ops.pte_protnone pte ≡ false) ⊎ (ops.pte_savedwrite pte ≡ false)
    pub flushed : page.flush_pending ≡ false

  -- The references that the page has when nobody but its mappings, the caller and, if it is in it, the
  -- swap cache holds one.
  abbrev pub expected_count : ℕ
  expected_count = if page.swapped then page.mapcount + 2 else page.mapcount + 1

  IsQuiet-must_protect : (pte : Pte) → IsQuiet pte → must_protect ops page pte ≡ false
  unfolding must_protect
  IsQuiet-must_protect pte q = elim q.unsaved [
    | inl e ↦ rw (q.unwritable, q.undirtied, q.flushed, e) refl
    | inr e ↦ rw (q.unwritable, q.undirtied, q.flushed, e) (ground arith)
  ]

  must_protect-IsQuiet : (pte : Pte) → must_protect ops page pte ≡ false → IsQuiet pte
  unfolding must_protect
  must_protect-IsQuiet pte h = ground arith

  busy_lem :
      ((is_busy ops page ≡ false) × (page.count ≡ expected_count))
      ⊎ ((is_busy ops page ≡ true) × (page.count ≢ expected_count))
  busy_lem = ground arith

  -- The page has an address in the VMA, and the walk finds an entry there.
  abbrev pub IsMapped : Type 0
  IsMapped = (page.address ≢ none) × (page.found ≡ true) × (page.has_pte ≡ true)

  -- What the call decides: the entry it leaves, and whether it returns 0.
  pub data Decision (pte : Pte) (r : Mapping Pte × WriteProtectResult) : Type 0 where
    unmapped : ¬ IsMapped → r.1 ≡ efault → r.0.pte ≡ pte → Decision pte r
    left_alone : IsMapped → IsQuiet pte → r.1 ≡ protected → r.0.pte ≡ pte → Decision pte r
    referenced :
        IsMapped
        → ¬ IsQuiet pte
        → page.count ≢ expected_count
        → r.1 ≡ efault
        → r.0.pte ≡ page.entry
        → Decision pte r
    cleaned :
        IsMapped
        → ¬ IsQuiet pte
        → page.count ≡ expected_count
        → r.1 ≡ protected
        → IsClean r.0.pte
        → Decision pte r

  decided :
      (m : Mapping Pte)
      → IsMapped
      → Decision m.pte (
          hand_over ops page
            (if must_protect ops page m.pte then protect_pte ops page m else (m, true)))
  unfolding hand_over protect_pte
  decided m mapped = elim (Bool-cases (must_protect ops page m.pte)) [
    | inr quiet ↦ rw quiet (left_alone mapped (must_protect-IsQuiet m.pte quiet) refl refl)
    | inl loud ↦
        let noisy : ¬ IsQuiet m.pte = λ q. true≢false (sym loud ∙ IsQuiet-must_protect m.pte q) in
        elim busy_lem [
          | inl (idle, count) ↦
              rw (loud, idle) (cleaned mapped noisy count refl (clean_entry-IsClean page.entry))
          | inr (busy, count) ↦ rw (loud, busy) (referenced mapped noisy count refl refl)
        ]
  ]

  -- The decision does not depend on what the call holds.
  same-Decision :
      (pte : Pte) (r r' : Mapping Pte × WriteProtectResult)
      → Decision pte r
      → r'.1 ≡ r.1
      → r'.0.pte ≡ r.0.pte
      → Decision pte r'
  same-Decision pte r r' (unmapped h e p) same kept = unmapped h (same ∙ e) (kept ∙ p)
  same-Decision pte r r' (left_alone h q e p) same kept = left_alone h q (same ∙ e) (kept ∙ p)
  same-Decision pte r r' (referenced h q c e p) same kept = referenced h q c (same ∙ e) (kept ∙ p)
  same-Decision pte r r' (cleaned h q c e p) same kept = cleaned h q c (same ∙ e) (rw kept p)

  -- The test of `old_pte` changes nothing that the decision looks at.
  protect_walked-Decision :
      (want_old : Bool) (m : Mapping Pte)
      → IsMapped
      → Decision m.pte (protect_walked ops page want_old m)
  unfolding protect_walked
  protect_walked-Decision true m mapped = decided (record m { old_pte = some m.pte }) mapped
  protect_walked-Decision false m mapped = decided m mapped

  protect_mapped-Decision :
      (want_old : Bool) (m : Mapping Pte)
      → page.address ≢ none
      → Decision m.pte (protect_mapped ops page want_old m)
  unfolding protect_mapped
  protect_mapped-Decision want_old m at = elim (Bool-cases page.found) [
    | inr e ↦ simp e (unmapped (λ h. true≢false (sym h.1 ∙ e)) refl refl)
    | inl found ↦ elim (Bool-cases page.has_pte) [
      | inr e ↦ simp (found, e) (unmapped (λ h. true≢false (sym h.2 ∙ e)) refl refl)
      | inl has ↦
          let locked = record m { walks = m.walks + 1 } in
          simp (found, has)
            (same-Decision m.pte (protect_walked ops page want_old locked) _
              (protect_walked-Decision want_old locked (at, found, has)) refl refl)
    ]
  ]

  -- For a page that is not part of a compound page, the call ends in one of four ways. Without an
  -- address of the page in the VMA, or an entry that the walk finds, it returns -EFAULT and leaves the
  -- entry. With one, and an entry that shows no write (it is neither writable nor dirty, and not both
  -- protnone and savedwrite) while no flush is pending, it returns 0 and leaves the entry, whatever
  -- references the page has. Otherwise it looks at the references: if the page has just those of its
  -- mappings, of the caller and, when it is in it, of the swap cache, it returns 0 and the entry is
  -- clean and lets no write through; if not, it returns -EFAULT and puts the entry back.
  pub write_protect_page-Decision :
      (want_old : Bool) (m : Mapping Pte)
      → page.compound ≡ false
      → Returns (write_protect_page ops page want_old m) (Decision m.pte)
  write_protect_page-Decision want_old m simple = elim (Option-cases page.address) [
    | inl e ↦ ((m, efault), unfold write_protect_page in rw e refl, unmapped (λ h. h.0 e) refl refl)
    | inr (a, e) ↦
        let opened = record m { ranges = a ∷ m.ranges } in
        let r = protect_mapped ops page want_old opened in
        let at : page.address ≢ none = λ missing. cc in
        (
          (record r.0 { ranges = remove a r.0.ranges }, r.1),
          unfold write_protect_page in rw (e, simple) refl,
          same-Decision m.pte r _ (protect_mapped-Decision want_old opened at) refl refl,
        )
  ]
