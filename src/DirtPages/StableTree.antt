-- ===== src/DirtPages/StableTree.antt =====
-- dirtPages.c, the stable tree: its structs (section 3) and state (section 4), the allocators of
-- section 5, and the removal of a stable node (section 13, `remove_node_from_stable_tree`). A pointer to a stable node, a tree node or an rmap item is its
-- address, a store maps addresses to objects; a `struct page` is its page frame number.
pub mod Keyhole
pub mod Removal
pub mod Rebuild
use random_c_code_snippets_b.Prelude.{
  ◌&&◌, ℕ, ◌+◌, ◌-◌, ◌%◌, List, [], ◌∷◌, Bool, true, false, ◌==◌, if◌then◌else◌, Option, none, some,
  Run, ok, fault, no_fuel, put, remove,
}
use random_c_code_snippets_b.Word.{u64, sub64}
use random_c_code_snippets_b.DirtPages.{Page, Uksm, page_size}
use random_c_code_snippets_b.DirtPages.Rbtree.{RbTree, empty, node, Rbtree}

-- `hlist` is the list of node_vmas, each the rmap items of its `rmap_hlist`.
pub record StableNode : Type 0 where
  pub tree_node : Option ℕ
  pub hlist : List (List ℕ)
  pub kpfn : ℕ
  pub hash_max : ℕ

pub record TreeNode : Type 0 where
  pub sub_root : RbTree
  pub hash : ℕ
  pub count : ℕ

-- The fields of a `struct rmap_item` in the stable tree.
pub record StableRmap : Type 0 where
  pub address : ℕ
  pub anon_vma : ℕ

-- The globals and the objects that they reach. The arrays of two are functions of the index; the
-- pointers `root_stable_treep` and `stable_tree_node_listp` into them are indices. The kernel's side
-- is a trace: `put_anon_vmas` lists the calls of `put_anon_vma`, `page_refs` and `page_locks` what
-- this code holds. `next_tree_node` is the address of the next tree node that is allocated, and
-- `calls` counts the calls of `get_uksm_page`.
pub record Stable : Type 0 where
  pub uksm : Uksm
  pub stable_nodes : ℕ → StableNode
  pub tree_nodes : ℕ → TreeNode
  pub rmap_items : ℕ → StableRmap
  pub stable_node_list : List ℕ
  pub stable_tree_node_list : ℕ → List ℕ
  pub stable_tree_node_listp : ℕ
  pub root_stable_tree : ℕ → RbTree
  pub root_stable_treep : ℕ
  pub stable_tree_index : ℕ
  pub uksm_pages_shared : ℕ
  pub uksm_pages_sharing : ℕ
  pub put_anon_vmas : List ℕ
  pub page_refs : List ℕ
  pub page_locks : List ℕ
  pub next_tree_node : ℕ
  pub calls : ℕ

-- What one pass of `get_uksm_page` from `again` on reads of what other CPUs write. The three reads of
-- `page->mapping` give the stable node that it points back to, if any; `swap_cache` is what
-- `PageSwapCache` answers after each failed `get_page_unless_zero`; `migrated` is the page that
-- `ksm_migrate_page` gives the stable node during the pass, if it does.
pub record Attempt : Type 0 where
  pub mapping : Option ℕ
  pub swap_cache : List Bool
  pub mapping_referenced : Option ℕ
  pub mapping_locked : Option ℕ
  pub migrated : Option ℕ

-- The code outside this file: the kernel's trees, the words of each page frame, whether the
-- allocation of a tree node succeeds, and the passes of a numbered call of `get_uksm_page` for a node.
pub record Kernel : Type 0 where
  pub rbtree : Rbtree
  pub memory : ℕ → Page
  pub zalloc : ℕ → Bool
  pub attempts : ℕ → ℕ → List Attempt

-- `address & PAGE_MASK`
abbrev pub page_mask : ℕ → ℕ
page_mask address = address - address % page_size

abbrev pub get_page : ℕ → Stable → Stable
get_page page s = record s { page_refs = page ∷ s.page_refs }

abbrev pub put_page : ℕ → Stable → Stable
put_page page s = record s { page_refs = remove page s.page_refs }

abbrev pub lock_page : ℕ → Stable → Stable
lock_page page s = record s { page_locks = page ∷ s.page_locks }

abbrev pub unlock_page : ℕ → Stable → Stable
unlock_page page s = record s { page_locks = remove page s.page_locks }

-- `allocated` is the result of `kmem_cache_alloc`, which leaves the other fields as they are.
unfoldable pub alloc_stable_node : Option ℕ → Stable → Stable × Option ℕ
alloc_stable_node none s = (s, none)
alloc_stable_node (some n) s = (
  record s {
    stable_nodes = put s.stable_nodes n (record (s.stable_nodes n) { hlist = [] });
    stable_node_list = n ∷ s.stable_node_list;
  },
  some n,
)

-- The address of the next tree node, zeroed, when `kmem_cache_zalloc` succeeds.
unfoldable pub alloc_tree_node : ℕ → Stable → Stable
alloc_tree_node list s =
    let t = s.next_tree_node in
    record s {
      tree_nodes = put s.tree_nodes t (record { sub_root = empty; hash = 0; count = 0 });
      stable_tree_node_list = put s.stable_tree_node_list list (t ∷ s.stable_tree_node_list list);
      next_tree_node = t + 1;
    }

unfoldable pub free_stable_node : ℕ → Stable → Stable
free_stable_node n s = record s { stable_node_list = remove n s.stable_node_list }

-- `list_del` takes the node off the list that it is on.
unfoldable pub free_tree_node : ℕ → Stable → Stable
free_tree_node t s = record s { stable_tree_node_list = λ i. remove t (s.stable_tree_node_list i) }

abbrev pub uksm_drop_anon_vma : ℕ → Stable → Stable
uksm_drop_anon_vma r s = record s { put_anon_vmas = (s.rmap_items r).anon_vma ∷ s.put_anon_vmas }

-- The body of the inner loop of `remove_node_from_stable_tree`.
abbrev pub drop_rmap_item : ℕ → Stable → Stable
drop_rmap_item r s =
    let t = uksm_drop_anon_vma r (record s { uksm_pages_sharing = sub64 s.uksm_pages_sharing 1 }) in
    record t {
      rmap_items =
          put t.rmap_items r
            (record (t.rmap_items r) { address = page_mask (t.rmap_items r).address });
    }

unfoldable pub drop_rmap_items : List ℕ → Stable → Stable
drop_rmap_items [] s = s
drop_rmap_items (r ∷ rest) s = drop_rmap_items rest (drop_rmap_item r s)

-- Its outer loop, over the node_vmas.
unfoldable pub drop_node_vmas : List (List ℕ) → Stable → Stable
drop_node_vmas [] s = s
drop_node_vmas (rmap_hlist ∷ rest) s = drop_node_vmas rest (drop_rmap_items rmap_hlist s)

-- The first `if` of `remove_node_from_stable_tree`.
unfoldable pub drop_hlist : List (List ℕ) → Stable → Stable
drop_hlist [] s = s
drop_hlist (node_vma ∷ rest) s =
    let t = drop_node_vmas (node_vma ∷ rest) s in
    record t {
      uksm_pages_shared = sub64 t.uksm_pages_shared 1;
      uksm_pages_sharing = u64 (t.uksm_pages_sharing + 1);
    }

-- `RB_EMPTY_ROOT`
abbrev pub rb_empty_root : RbTree → Bool
rb_empty_root empty = true
rb_empty_root (node low x high) = false

module _ (k : Kernel) where
  -- Its second `if`, for a tree node.
  unfoldable pub unlink_rb_node : ℕ → ℕ → Bool → Stable → Stable
  unlink_rb_node n t remove_tree_node s =
      let parent = s.tree_nodes t in
      let erased = record parent { sub_root = k.rbtree.rb_erase n parent.sub_root } in
      if rb_empty_root erased.sub_root && remove_tree_node
      then free_tree_node t (record s {
        tree_nodes = put s.tree_nodes t erased;
        root_stable_tree =
            put s.root_stable_tree s.root_stable_treep
              (k.rbtree.rb_erase t (s.root_stable_tree s.root_stable_treep));
      })
      else record s {
        tree_nodes = put s.tree_nodes t (record erased { count = sub64 erased.count 1 });
      }

  unfoldable pub unlink_if : ℕ → Option ℕ → Bool → Bool → Stable → Stable
  unlink_if n none unlink_rb remove_tree_node s = s
  unlink_if n (some t) unlink_rb remove_tree_node s =
      if unlink_rb then unlink_rb_node n t remove_tree_node s else s

  unfoldable pub remove_node_from_stable_tree : ℕ → Bool → Bool → Stable → Stable
  remove_node_from_stable_tree n unlink_rb remove_tree_node s =
      let dropped = drop_hlist (s.stable_nodes n).hlist s in
      free_stable_node n
        (unlink_if n (dropped.stable_nodes n).tree_node unlink_rb remove_tree_node dropped)
