-- ===== src/DirtPages/WriteProtect.antt =====
-- dirtPages.c, section 11: `write_protect_page`. The page table entries and what the kernel says of a
-- page are the kernel's own; the function decides what happens to them.
pub mod Cleaning
use random_c_code_snippets_b.Prelude.{
  ◌-◌, ℕ, ◌+◌, ◌≡◌, List, ◌∷◌, Bool, true, false, not, ◌&&◌, ◌||◌, ◌==◌, if◌then◌else◌, Option,
  none, some, Run, ok, fault, bug, remove,
}

-- The kernel's functions on a `pte_t`, with what they are documented to do. `pte_cleared` is the
-- entry that `ptep_clear_flush` leaves.
pub record PteOps (Pte : Type 0) : Type 0 where
  pub pte_cleared : Pte
  pub pte_write : Pte → Bool
  pub pte_dirty : Pte → Bool
  pub pte_protnone : Pte → Bool
  pub pte_savedwrite : Pte → Bool
  pub pte_mkclean : Pte → Pte
  pub pte_wrprotect : Pte → Pte
  pub pte_clear_savedwrite : Pte → Pte
  pub dirty-mkclean : (p : Pte) → pte_dirty (pte_mkclean p) ≡ false
  pub write-mkclean : (p : Pte) → pte_write (pte_mkclean p) ≡ pte_write p
  pub protnone-mkclean : (p : Pte) → pte_protnone (pte_mkclean p) ≡ pte_protnone p
  pub savedwrite-mkclean : (p : Pte) → pte_savedwrite (pte_mkclean p) ≡ pte_savedwrite p
  pub write-wrprotect : (p : Pte) → pte_write (pte_wrprotect p) ≡ false
  pub protnone-wrprotect : (p : Pte) → pte_protnone (pte_wrprotect p) ≡ pte_protnone p
  pub savedwrite-clear_savedwrite : (p : Pte) → pte_savedwrite (pte_clear_savedwrite p) ≡ false
  pub protnone-clear_savedwrite : (p : Pte) → pte_protnone (pte_clear_savedwrite p) ≡ pte_protnone p

-- What the kernel answers about the page and the mapping during a call. `address` is none for the
-- -EFAULT of `page_address_in_vma`; `found` is the result of `page_vma_mapped_walk`, `has_pte` says
-- that it sets `pvmw.pte`; `entry` is what `ptep_clear_flush_notify` takes out of the page table,
-- which the processor may have marked since it was read.
pub record PageFacts (Pte : Type 0) : Type 0 where
  pub address : Option ℕ
  pub compound : Bool
  pub found : Bool
  pub has_pte : Bool
  pub flush_pending : Bool
  pub swapped : Bool
  pub entry : Pte
  pub mapcount : ℕ
  pub count : ℕ

-- The entry `*pvmw.pte`, the dirty flag of the page, the two results, and what the call holds: the
-- notifier ranges that are open, by their address, and the page table locks of walks.
pub record Mapping (Pte : Type 0) : Type 0 where
  pub pte : Pte
  pub page_dirty : Bool
  pub orig_pte : Option Pte
  pub old_pte : Option Pte
  pub ranges : List ℕ
  pub walks : ℕ

-- 0 and -EFAULT.
pub data WriteProtectResult : Type 0 where
  protected efault : WriteProtectResult

module _ {Pte : Type 0} (ops : PteOps Pte) (page : PageFacts Pte) where
  -- The test of the dirty-detection point.
  unfoldable pub must_protect : Pte → Bool
  must_protect pte =
      ops.pte_write pte
      || (ops.pte_dirty pte
          || ((ops.pte_protnone pte && ops.pte_savedwrite pte) || page.flush_pending))

  -- `page_mapcount(page) + 1 + swapped != page_count(page)`
  abbrev pub is_busy : Bool
  is_busy = not (page.mapcount + 1 + (if page.swapped then 1 else 0) == page.count)

  -- The entry that is inserted again.
  unfoldable pub clean_entry : Pte → Pte
  clean_entry entry =
      if ops.pte_protnone entry
      then ops.pte_mkclean (ops.pte_clear_savedwrite entry)
      else ops.pte_mkclean (ops.pte_wrprotect entry)

  -- The body of the test; false stands for the jump to `out_unlock`.
  unfoldable pub protect_pte : Mapping Pte → Mapping Pte × Bool
  protect_pte m =
      let cleared = record m { pte = ops.pte_cleared } in
      if is_busy
      then (record cleared { pte = page.entry }, false)
      else (let noted =
            if ops.pte_dirty page.entry then record cleared { page_dirty = true } else cleared in
          (record noted { pte = clean_entry page.entry }, true))

  unfoldable pub hand_over : Mapping Pte × Bool → Mapping Pte × WriteProtectResult
  hand_over (m, true) = (record m { orig_pte = some m.pte }, protected)
  hand_over (m, false) = (m, efault)

  -- From a successful walk to `out_unlock`. `want_old` says that `old_pte` is not NULL.
  unfoldable pub protect_walked : Bool → Mapping Pte → Mapping Pte × WriteProtectResult
  protect_walked want_old m =
      let read = if want_old then record m { old_pte = some m.pte } else m in
      hand_over (if must_protect read.pte then protect_pte read else (read, true))

  -- From the walk to `out_mn`. A walk that fails has released its lock.
  unfoldable pub protect_mapped : Bool → Mapping Pte → Mapping Pte × WriteProtectResult
  protect_mapped want_old m =
      if page.found
      then (let locked = record m { walks = m.walks + 1 } in
          let (done, err) =
            if page.has_pte then protect_walked want_old locked else (locked, efault) in
          (record done { walks = done.walks - 1 }, err))
      else (m, efault)

  unfoldable pub write_protect_page : Bool → Mapping Pte → Run (Mapping Pte × WriteProtectResult)
  write_protect_page want_old m = elim page.address [
    | none ↦ ok (m, efault)
    | some address ↦
        if page.compound
        then fault bug
        else (let (done, err) =
              protect_mapped want_old (record m { ranges = address ∷ m.ranges }) in
            ok (record done { ranges = remove address done.ranges }, err))
  ]
