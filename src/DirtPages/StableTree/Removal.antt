-- ===== src/DirtPages/StableTree/Removal.antt =====
-- dirtPages.c: what `remove_node_from_stable_tree` does to the counters of shared pages.
use random_c_code_snippets_b.DirtPages.Rbtree.{empty}
use random_c_code_snippets_b.Prelude.{
  if◌then◌else◌, ℕ, ◌+◌, ◌^◌, ◌≤◌, ◌<◌, ◌≡◌, refl, ap, ◌∙◌, arith, List, [], ◌∷◌, length, Bool,
  false, Option, none, some, inl, inr, All, All-In, All-remove, In, remove, ==_iff, put,
}
use random_c_code_snippets_b.Word.{u64}
use random_c_code_snippets_b.DirtPages.StableTree.{
  TreeNode, sub64, drop_rmap_item, Stable, Kernel, drop_rmap_items, drop_node_vmas, drop_hlist,
  unlink_rb_node, unlink_if, free_tree_node, free_stable_node, remove_node_from_stable_tree,
}

-- The number of rmap items of a node.
abbrev pub sharers : List (List ℕ) → ℕ
sharers [] = 0
sharers (rmap_hlist ∷ rest) = length rmap_hlist + sharers rest

-- 1 for a node that some page is shared by.
abbrev pub sharing_one : List (List ℕ) → ℕ
sharing_one [] = 0
sharing_one (rmap_hlist ∷ rest) = 1

abbrev pub sum_of : (ℕ → ℕ) → List ℕ → ℕ
sum_of f [] = 0
sum_of f (x ∷ xs) = f x + sum_of f xs

sum_of-remove :
    (f : ℕ → ℕ) (x : ℕ) (xs : List ℕ) → In x xs → sum_of f xs ≡ f x + sum_of f (remove x xs)
sum_of-remove f x [] m = absurd m
sum_of-remove f x (y ∷ ys) (inl e) = ground (arith, ap f e)
sum_of-remove f x (y ∷ ys) (inr m) = ground (arith, sum_of-remove f x ys m, ==_iff y x, ap f)

sum_of-le : (f g : ℕ → ℕ) (xs : List ℕ) → All (λ x. f x ≤ g x) xs → sum_of f xs ≤ sum_of g xs
sum_of-le f g [] h = omega arith
sum_of-le f g (x ∷ xs) h = omega (arith, h.0, sum_of-le f g xs h.1)

-- The state without what the removal of rmap items changes.
abbrev pub unshared : Stable → Stable
unshared s = record s {
  uksm_pages_shared = 0;
  uksm_pages_sharing = 0;
  put_anon_vmas = [];
  rmap_items = λ r. record { address = 0; anon_vma = 0 };
}

drop_rmap_items-unshared :
    (items : List ℕ) (s : Stable) → unshared (drop_rmap_items items s) ≡ unshared s
unfolding drop_rmap_items
drop_rmap_items-unshared [] s = refl
drop_rmap_items-unshared (r ∷ rest) s = drop_rmap_items-unshared rest (drop_rmap_item r s)

drop_node_vmas-unshared :
    (vmas : List (List ℕ)) (s : Stable) → unshared (drop_node_vmas vmas s) ≡ unshared s
unfolding drop_node_vmas
drop_node_vmas-unshared [] s = refl
drop_node_vmas-unshared (items ∷ rest) s =
    drop_node_vmas-unshared rest (drop_rmap_items items s) ∙ drop_rmap_items-unshared items s

drop_hlist-unshared :
    (vmas : List (List ℕ)) (s : Stable) → unshared (drop_hlist vmas s) ≡ unshared s
unfolding drop_hlist
drop_hlist-unshared [] s = refl
drop_hlist-unshared (vma ∷ rest) s = drop_node_vmas-unshared (vma ∷ rest) s

-- The two counters of shared pages after the loops.
abbrev Dropped : ℕ → Stable → Stable → Type 0
Dropped items s v =
    (u64 (v.uksm_pages_sharing + items) ≡ u64 s.uksm_pages_sharing)
    × (v.uksm_pages_shared ≡ s.uksm_pages_shared)

drop_rmap_items-Dropped :
    (items : List ℕ) (s : Stable) → Dropped (length items) s (drop_rmap_items items s)
unfolding drop_rmap_items
drop_rmap_items-Dropped [] s = (omega arith, refl)
drop_rmap_items-Dropped (r ∷ rest) s =
    let (sharing, shared) = drop_rmap_items-Dropped rest (drop_rmap_item r s) in
    (omega (arith, sharing), shared)

drop_node_vmas-Dropped :
    (vmas : List (List ℕ)) (s : Stable) → Dropped (sharers vmas) s (drop_node_vmas vmas s)
unfolding drop_node_vmas
drop_node_vmas-Dropped [] s = (omega arith, refl)
drop_node_vmas-Dropped (items ∷ rest) s =
    let (sharing, shared) = drop_node_vmas-Dropped rest (drop_rmap_items items s) in
    let (sharing', shared') = drop_rmap_items-Dropped items s in
    (omega (arith, sharing, sharing'), shared ∙ shared')

drop_hlist_lem :
    (vmas : List (List ℕ)) (s : Stable)
    → sharing_one vmas ≤ s.uksm_pages_shared
    → s.uksm_pages_shared < 2 ^ 64
    → s.uksm_pages_sharing < 2 ^ 64
    → sharing_one vmas ≤ sharers vmas
    → sharers vmas ≤ s.uksm_pages_sharing + sharing_one vmas
    → let v = drop_hlist vmas s in
      (v.uksm_pages_shared + sharing_one vmas ≡ s.uksm_pages_shared)
      × (v.uksm_pages_sharing + sharers vmas ≡ s.uksm_pages_sharing + sharing_one vmas)
unfolding drop_hlist
drop_hlist_lem [] s one shared sharing used items = (omega arith, omega arith)
drop_hlist_lem (vma ∷ rest) s one shared sharing used items =
    let (dropped, same) = drop_node_vmas-Dropped (vma ∷ rest) s in
    (omega (arith, same, one, shared), omega (arith, dropped, sharing, used, items))

-- The state without what a removal changes.
abbrev pub standing : Stable → Stable
standing s = record (unshared s) {
  tree_nodes = λ t. record { sub_root = empty; hash = 0; count = 0 };
  root_stable_tree = λ i. empty;
  stable_tree_node_list = λ i. [];
  stable_node_list = [];
}

module _ (k : Kernel) (n : ℕ) (unlink_rb remove_tree_node : Bool) where
  unlink_if-standing :
      (t : Option ℕ) (s : Stable)
      → let v = unlink_if k n t unlink_rb remove_tree_node s in
        (standing v ≡ standing s)
        × (v.stable_node_list ≡ s.stable_node_list)
        × (v.uksm_pages_shared ≡ s.uksm_pages_shared)
        × (v.uksm_pages_sharing ≡ s.uksm_pages_sharing)
  unfolding unlink_if unlink_rb_node free_tree_node
  unlink_if-standing none s = (refl, refl, refl, refl)
  unlink_if-standing (some t) s = ground arith

  -- A removal takes the node off the list, and changes neither what is held nor any other node.
  pub remove-standing :
      (s : Stable)
      → let v = remove_node_from_stable_tree k n unlink_rb remove_tree_node s in
        (standing v ≡ standing s) × (v.stable_node_list ≡ remove n s.stable_node_list)
  unfolding remove_node_from_stable_tree free_stable_node
  remove-standing s =
      let dropped = drop_hlist (s.stable_nodes n).hlist s in
      let p = drop_hlist-unshared (s.stable_nodes n).hlist s in
      let q = unlink_if-standing (dropped.stable_nodes n).tree_node dropped in
      (
        q.0 ∙ ap {A = Stable} standing p,
        ap (remove n) (q.1 ∙ ap {A = Stable} (λ x. x.stable_node_list) p),
      )

-- The state without what a removal changes outside the trees.
abbrev pub forest : Stable → Stable
forest s = record (unshared s) { stable_node_list = [] }

module _ (k : Kernel) (n : ℕ) (unlink_rb : Bool) where
  -- The tree node that a stable node has left.
  abbrev pub left_by : TreeNode → TreeNode
  left_by group = record group {
    sub_root = k.rbtree.rb_erase n group.sub_root;
    count = sub64 group.count 1;
  }

  abbrev pub unlinked : Option ℕ → (ℕ → TreeNode) → ℕ → TreeNode
  unlinked none trees = trees
  unlinked (some t) trees = if unlink_rb then put trees t (left_by (trees t)) else trees

  unlink_if-unlinked :
      (link : Option ℕ) (s : Stable)
      → unlink_if k n link unlink_rb false s ≡ record s { tree_nodes = unlinked link s.tree_nodes }
  unfolding unlink_if unlink_rb_node
  unlink_if-unlinked none s = refl
  unlink_if-unlinked (some t) s = ground arith

  -- A removal that keeps the tree node leaves the trees but for its sub-tree.
  pub remove-forest :
      (s : Stable)
      → forest (remove_node_from_stable_tree k n unlink_rb false s)
        ≡ record (forest s) { tree_nodes = unlinked (s.stable_nodes n).tree_node s.tree_nodes }
  unfolding remove_node_from_stable_tree free_stable_node
  remove-forest s =
      let dropped = drop_hlist (s.stable_nodes n).hlist s in
      ap {A = Stable} forest (unlink_if-unlinked (dropped.stable_nodes n).tree_node dropped)
      ∙ ap {A = Stable}
          (λ x. record x {
            stable_node_list = [];
            tree_nodes = unlinked (x.stable_nodes n).tree_node x.tree_nodes;
          })
          (drop_hlist-unshared (s.stable_nodes n).hlist s)

module _ (s : Stable) where
  abbrev pub hlists : ℕ → List (List ℕ)
  hlists m = (s.stable_nodes m).hlist

  -- `uksm_pages_shared` counts the nodes with rmap items, and `uksm_pages_sharing` their rmap items,
  -- less one for each such node.
  pub record IsCounted : Type 0 where
    pub shared : s.uksm_pages_shared ≡ sum_of (λ n. sharing_one (hlists n)) s.stable_node_list
    pub sharing :
        s.uksm_pages_sharing + s.uksm_pages_shared
        ≡ sum_of (λ n. sharers (hlists n)) s.stable_node_list
    pub used : All (λ n. sharing_one (hlists n) ≤ sharers (hlists n)) s.stable_node_list
    pub bound : s.uksm_pages_sharing + s.uksm_pages_shared < 2 ^ 64

-- What is left to count once a node is gone.
counted_after :
    (n : ℕ) (s v : Stable)
    → v.stable_nodes ≡ s.stable_nodes
    → v.stable_node_list ≡ remove n s.stable_node_list
    → v.uksm_pages_shared + sharing_one (hlists s n) ≡ s.uksm_pages_shared
    → v.uksm_pages_sharing + sharers (hlists s n) ≡ s.uksm_pages_sharing + sharing_one (hlists s n)
    → IsCounted s
    → In n s.stable_node_list
    → IsCounted v
counted_after n s v nodes list shared sharing c m =
    let one = sum_of-remove (λ x. sharing_one (hlists s x)) n s.stable_node_list m in
    let all = sum_of-remove (λ x. sharers (hlists s x)) n s.stable_node_list m in
    record {
      shared = rw (nodes, list) (omega (arith, one, shared, c.shared));
      sharing = rw (nodes, list) (omega (arith, all, shared, sharing, c.sharing));
      used = rw (nodes, list) (All-remove _ n s.stable_node_list c.used);
      bound = omega (arith, shared, sharing, c.bound, All-In _ n s.stable_node_list c.used m);
    }

module _ (k : Kernel) (n : ℕ) (unlink_rb remove_tree_node : Bool) (s : Stable) where
  -- When the counters are right and below 2 ^ 64, the removal of a node of the list keeps them right:
  -- `uksm_pages_shared` counts the nodes on the list with rmap items, and `uksm_pages_sharing` the
  -- rmap items of all nodes on the list, less one for each such node.
  pub remove_node-IsCounted :
      IsCounted s
      → In n s.stable_node_list
      → IsCounted (remove_node_from_stable_tree k n unlink_rb remove_tree_node s)
  unfolding remove_node_from_stable_tree free_stable_node
  remove_node-IsCounted c m =
      let vmas = (s.stable_nodes n).hlist in
      let dropped = drop_hlist vmas s in
      let (_, _, shared, sharing) =
        unlink_if-standing k n unlink_rb remove_tree_node (dropped.stable_nodes n).tree_node
          dropped in
      let (standing_same, list) = remove-standing k n unlink_rb remove_tree_node s in
      let one = sum_of-remove (λ x. sharing_one (hlists s x)) n s.stable_node_list m in
      let all = sum_of-remove (λ x. sharers (hlists s x)) n s.stable_node_list m in
      let rest =
        sum_of-le _ _ (remove n s.stable_node_list) (All-remove _ n s.stable_node_list c.used) in
      let (shared', sharing') =
        drop_hlist_lem vmas s (omega (arith, one, c.shared)) (omega (arith, c.bound))
          (omega (arith, c.bound)) (All-In _ n s.stable_node_list c.used m)
          (omega (arith, one, all, rest, c.shared, c.sharing)) in
      counted_after n s _ (ap {A = Stable} (λ x. x.stable_nodes) standing_same) list
        (omega (arith, shared, shared')) (omega (arith, sharing, sharing')) c m
