-- ===== src/DirtPages/StableTree/Keyhole.antt =====
-- dirtPages.c, section 13: `get_uksm_page`, which looks at the page of a stable node through its
-- `mapping`, and removes the node when that points elsewhere.
pub mod Passes
pub mod Verdict
use random_c_code_snippets_b.Prelude.{
  ℕ, ◌+◌, List, [], ◌∷◌, Bool, true, false, ◌==◌, if◌then◌else◌, Option, none, some, Run, ok, fault,
  no_fuel, put,
}
use random_c_code_snippets_b.DirtPages.StableTree.{
  Stable, Attempt, Kernel, get_page, put_page, lock_page, unlock_page, remove_node_from_stable_tree,
}

-- `page->mapping == expected_mapping`
abbrev pub maps : Option ℕ → ℕ → Bool
maps none n = false
maps (some owner) n = owner == n

-- The loop on `get_page_unless_zero`: whether it ends with a reference.
unfoldable pub get_page_waits : List Bool → Bool
get_page_waits [] = true
get_page_waits (true ∷ rest) = get_page_waits rest
get_page_waits (false ∷ rest) = false

-- A pass up to `stale` (false), or to the return of the page (true).
unfoldable pub keyhole : Attempt → ℕ → ℕ → Stable → Stable × Bool
keyhole a n page s =
    if maps a.mapping n
    then if get_page_waits a.swap_cache
      then (let referenced = get_page page s in
          if maps a.mapping_referenced n
          then (let locked = lock_page page referenced in
              if maps a.mapping_locked n
              then (unlock_page page locked, true)
              else (put_page page (unlock_page page locked), false))
          else (put_page page referenced, false))
      else (s, false)
    else (s, false)

-- The write of `kpfn` by another CPU.
unfoldable pub migrate : Option ℕ → ℕ → Stable → Stable
migrate none n s = s
migrate (some pfn) n s = record s {
  stable_nodes = put s.stable_nodes n (record (s.stable_nodes n) { kpfn = pfn });
}

module _ (k : Kernel) where
  -- The passes from `again` on. A migration falls before the last read of `kpfn`.
  unfoldable pub get_attempts : List Attempt → ℕ → Bool → Bool → Stable → Run (Stable × Option ℕ)
  get_attempts [] n unlink_rb remove_tree_node s = fault no_fuel
  get_attempts (a ∷ rest) n unlink_rb remove_tree_node s =
      let kpfn = (s.stable_nodes n).kpfn in
      let (tried, valid) = keyhole a n kpfn s in
      let seen = migrate a.migrated n tried in
      elim valid [
        | true ↦ ok (seen, some kpfn)
        | false ↦ elim ((seen.stable_nodes n).kpfn == kpfn) [
          | true ↦ ok (remove_node_from_stable_tree k n unlink_rb remove_tree_node seen, none)
          | false ↦ get_attempts rest n unlink_rb remove_tree_node seen
        ]
      ]

  unfoldable pub get_uksm_page : ℕ → Bool → Bool → Stable → Run (Stable × Option ℕ)
  get_uksm_page n unlink_rb remove_tree_node s =
      get_attempts (k.attempts s.calls n) n unlink_rb remove_tree_node
        (record s { calls = s.calls + 1 })
