-- ===== src/Tests/Protection.antt =====
-- Examples for `write_protect_page` of dirtPages.c: entries of four bits, and a page that is mapped
-- once and dirty.
use random_c_code_snippets_b.Prelude.{refl, [], Bool, true, false, some, none, Returns}
use random_c_code_snippets_b.DirtPages.WriteProtect.{PteOps, PageFacts, Mapping, write_protect_page}
use random_c_code_snippets_b.DirtPages.WriteProtect.Cleaning.{
  Left, write_protect_page-Left, Decision, write_protect_page-Decision,
}

record Bits : Type 0 where
  write : Bool
  dirty : Bool
  protnone : Bool
  savedwrite : Bool

abbrev bit_ops : PteOps Bits
bit_ops = record {
  pte_cleared = record { write = false; dirty = false; protnone = false; savedwrite = false };
  pte_write = λ p. p.write;
  pte_dirty = λ p. p.dirty;
  pte_protnone = λ p. p.protnone;
  pte_savedwrite = λ p. p.savedwrite;
  pte_mkclean = λ p. record p { dirty = false };
  pte_wrprotect = λ p. record p { write = false };
  pte_clear_savedwrite = λ p. record p { savedwrite = false };
  dirty-mkclean = λ p. refl;
  write-mkclean = λ p. refl;
  protnone-mkclean = λ p. refl;
  savedwrite-mkclean = λ p. refl;
  write-wrprotect = λ p. refl;
  protnone-wrprotect = λ p. refl;
  savedwrite-clear_savedwrite = λ p. refl;
  protnone-clear_savedwrite = λ p. refl;
}

abbrev written : Bits
written = record { write = true; dirty = true; protnone = false; savedwrite = false }

abbrev mapped_once : PageFacts Bits
mapped_once = record {
  address = some 8192;
  compound = false;
  found = true;
  has_pte = true;
  flush_pending = false;
  swapped = false;
  entry = written;
  mapcount = 1;
  count = 2;
}

abbrev mapping : Mapping Bits
mapping = record {
  pte = written;
  page_dirty = false;
  orig_pte = none;
  old_pte = none;
  ranges = [];
  walks = 0;
}

write_protect_page-Left_example :
    Returns (write_protect_page bit_ops mapped_once true mapping) (Left bit_ops mapped_once mapping)
write_protect_page-Left_example = write_protect_page-Left bit_ops mapped_once true mapping refl

write_protect_page-Decision_example :
    Returns
      (write_protect_page bit_ops mapped_once true mapping)
      (Decision bit_ops mapped_once written)
write_protect_page-Decision_example =
    write_protect_page-Decision bit_ops mapped_once true mapping refl
