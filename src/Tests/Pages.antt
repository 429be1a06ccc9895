-- ===== src/Tests/Pages.antt =====
-- An example of whichPages.c.
use random_c_code_snippets_b.Prelude.{◌^◌, ◌≡◌, arith, [], ◌∷◌, true, some}
use random_c_code_snippets_b.WhichPages.{System, returned, check_page_metadata}
use random_c_code_snippets_b.WhichPages.Metadata.{dirty_bit, entry_of, check_page_metadata_lem}

-- Every entry has bit 62 and not bit 63.
abbrev system : System
system = record {
  open_fd = some 3;
  page_size = 4096;
  lseek = λ offset. true;
  read_entry = λ offset. some (2 ^ 62);
}

check_page_metadata_lem_example :
    ((check_page_metadata system 9000 (0 ∷ 1 ∷ [])).0 ≡ 0 ∷ 1 ∷ [])
    × (returned (check_page_metadata system 9000 (0 ∷ 1 ∷ [])) ≡ dirty_bit (entry_of system 2))
check_page_metadata_lem_example =
    check_page_metadata_lem system 2 9000 (0 ∷ 1 ∷ []) (omega arith) (omega arith) (omega arith)
