-- ===== src/WhichPages/Metadata.antt =====
-- whichPages.c: what `check_page_metadata` returns and leaves open.
use random_c_code_snippets_b.Prelude.{
  leb, ◌%◌, ap, Option-cases, ℕ, ◌+◌, ◌*◌, ◌/◌, ◌^◌, ◌≤◌, ◌<◌, ◌≡◌, refl, arith, List, ◌∷◌, Option,
  none, some, Bool-cases, inl, inr, ==_refl, if◌then◌else◌,
}
use native.Mathlib.Nat.{div-eq_of_lt-le}
use random_c_code_snippets_b.Word.{u64}
use random_c_code_snippets_b.WhichPages.{
  System, is_dirty, check_page_metadata, read_metadata, returned, close,
}

-- The entry of a page, when every call succeeds.
abbrev pub entry_of : System → ℕ → Option ℕ
entry_of sys page = elim sys.open_fd [
  | none ↦ none
  | some fd ↦ if sys.lseek (page * 8) then sys.read_entry (page * 8) else none
]

-- Bit 62 of an entry, whatever bit 63 is: the entry modulo 2 ^ 63 is at least 2 ^ 62.
abbrev pub dirty_bit : Option ℕ → Option ℕ
dirty_bit none = none
dirty_bit (some entry) = some (if leb (2 ^ 62) (entry % 2 ^ 63) then 1 else 0)

is_dirty_lem : (entry : ℕ) → is_dirty entry ≡ (if leb (2 ^ 62) (entry % 2 ^ 63) then 1 else 0)
is_dirty_lem entry = ground arith

-- Closing the descriptor that was opened last leaves the others.
close_last : (fd : ℕ) (files : List ℕ) → close fd (fd ∷ files) ≡ files
close_last fd files = rw (==_refl fd) refl

module _ (sys : System) (page addr : ℕ) (small : page < 2 ^ 61)
    (in_page : addr / sys.page_size ≡ page) where
  read_metadata_lem :
      (fd : ℕ) (files : List ℕ)
      → let end = read_metadata sys addr fd (fd ∷ files) in
        (end.0 ≡ files)
        × (returned end
            ≡ dirty_bit (if sys.lseek (page * 8) then sys.read_entry (page * 8) else none))
  unfolding read_metadata
  read_metadata_lem fd files =
      let wrapped : u64 (page * 8) ≡ page * 8 = omega arith in
      rw (in_page, wrapped)
        (elim (Bool-cases (sys.lseek (page * 8))) [
          | inl e ↦ rw e (elim (Option-cases (sys.read_entry (page * 8))) [
            | inl q ↦ rw q (close_last fd files, refl)
            | inr (entry, q) ↦ rw q (close_last fd files, ap some (is_dirty_lem entry))
          ])
          | inr e ↦ rw e (close_last fd files, refl)
        ])

-- For an address inside a page whose number is below 2 ^ 61, `check_page_metadata` leaves the open
-- files as they were, on every path. It returns -1 when the file does not open, does not seek or does
-- not have the whole entry of that page, which stands at eight times the page's number in the
-- pagemap. Otherwise it returns bit 62 of the entry, whatever bit 63 is, so 1 also for a page that is
-- not present, against the comment "Returns 1 if the page at 'addr' is present and dirty, 0
-- otherwise".
pub check_page_metadata_lem :
    (sys : System) (page addr : ℕ) (files : List ℕ)
    → page * sys.page_size ≤ addr
    → addr < (page + 1) * sys.page_size
    → page < 2 ^ 61
    → ((check_page_metadata sys addr files).0 ≡ files)
      × (returned (check_page_metadata sys addr files) ≡ dirty_bit (entry_of sys page))
unfolding check_page_metadata read_metadata
check_page_metadata_lem sys page addr files low high small =
    let in_page : addr / sys.page_size ≡ page = div-eq_of_lt-le sys.page_size low high in
    elim (Option-cases sys.open_fd) [
      | inl q ↦ rw q (refl, refl)
      | inr (fd, q) ↦ rw q (read_metadata_lem sys page addr small in_page fd files)
    ]
