-- ===== src/WhichPages.antt =====
-- whichPages.c: `check_page_metadata` and `trackPage`. The files of the process, the page size and
-- what /proc/[pid]/pagemap holds are the system's.
pub mod Metadata
use random_c_code_snippets_b.Prelude.{
  ℕ, ◌*◌, ◌/◌, ◌%◌, ◌^◌, List, ◌∷◌, Bool, true, false, not, ◌||◌, if◌then◌else◌, Option, none, some,
  remove,
}
use random_c_code_snippets_b.Word.{u64}

-- What the calls of the system answer: `open` with a descriptor or -1, `sysconf(_SC_PAGESIZE)`, and
-- for an offset, whether `lseek` moves there and the eight bytes that `read` then has, or none when
-- it does not read all of them.
pub record System : Type 0 where
  pub open_fd : Option ℕ
  pub page_size : ℕ
  pub lseek : ℕ → Bool
  pub read_entry : ℕ → Option ℕ

-- `close(fd)`, on the list of the open descriptors.
abbrev pub close : ℕ → List ℕ → List ℕ
close fd files = remove fd files

-- `(pagemap_entry >> 63) & 1`, which is printed.
abbrev pub is_present : ℕ → ℕ
is_present entry = entry / 2 ^ 63 % 2

-- `(pagemap_entry >> 62) & 1`
abbrev pub is_dirty : ℕ → ℕ
is_dirty entry = entry / 2 ^ 62 % 2

-- The body behind `open`.
unfoldable pub read_metadata : System → ℕ → ℕ → List ℕ → List ℕ × Option (ℕ × ℕ)
read_metadata sys addr fd files =
    let page_index = addr / sys.page_size in
    let offset = u64 (page_index * 8) in
    if not (sys.lseek offset) then (close fd files, none) else elim (sys.read_entry offset) [
      | none ↦ (close fd files, none)
      | some entry ↦ (close fd files, some (is_present entry, is_dirty entry))
    ]

-- The open descriptors behind the call, and none for -1, else the two bits that are printed, of which
-- the second is returned.
unfoldable pub check_page_metadata : System → ℕ → List ℕ → List ℕ × Option (ℕ × ℕ)
check_page_metadata sys addr files = elim sys.open_fd [
  | none ↦ (files, none)
  | some fd ↦ read_metadata sys addr fd (fd ∷ files)
]

-- The int that the caller gets, with `none` for -1.
abbrev pub returned : List ℕ × Option (ℕ × ℕ) → Option ℕ
returned (files, none) = none
returned (files, some bits) = some bits.1

-- The names of the sketch are declared nowhere in the repository.
unfoldable pub track_page : Bool → Bool → Bool → Bool → ℕ
track_page kernel_page self external_dma too_dynamic =
    if kernel_page
    then 1
    else if self
    then 1
    else if external_dma
    then 1
    else if too_dynamic
    then 1
    else 0
