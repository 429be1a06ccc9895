-- ===== src/DirtPages/Rbtree.antt =====
-- dirtPages.c: the binary search trees of `struct rb_node`s, the walks that the functions of the
-- stable tree make over them, and what those functions rely on in the kernel's `rb_link_node`,
-- `rb_insert_color` and `rb_erase`. A node is the address of the object that embeds it.
pub mod Order
use Prim.Native.Nat.{Ordering}
use random_c_code_snippets_b.Prelude.{ℕ, ◌≡◌, List, [], ◌∷◌, ◌++◌, Option, none, some, remove}

pub data RbTree : Type 0 where
  empty : RbTree
  node : RbTree → ℕ → RbTree → RbTree

abbrev pub in_order : RbTree → List ℕ
in_order empty = []
in_order (node low x high) = in_order low ++ (x ∷ in_order high)

pub data RbSide : Type 0 where
  rb_left rb_right : RbSide

-- The loop `while (*new)` of `stable_node_reinsert`, from the root: the way to `new`, and the node
-- that `*new` is. The argument is the comparison with the entry of a node.
unfoldable pub descend : (ℕ → Ordering) → RbTree → List RbSide × Option ℕ
descend cmp empty = ([], none)
descend cmp (node low x high) = elim (cmp x) [
  | Ordering.lt ↦ (rb_left ∷ (descend cmp low).0, (descend cmp low).1)
  | Ordering.gt ↦ (rb_right ∷ (descend cmp high).0, (descend cmp high).1)
  | Ordering.eq ↦ ([], some x)
]

-- `rb_link_node(&x->node, parent, new)`: the node becomes a leaf at `new`.
unfoldable pub rb_link_node : ℕ → List RbSide → RbTree → RbTree
rb_link_node x way empty = node empty x empty
rb_link_node x [] (node low y high) = node empty x empty
rb_link_node x (rb_left ∷ way) (node low y high) = node (rb_link_node x way low) y high
rb_link_node x (rb_right ∷ way) (node low y high) = node low y (rb_link_node x way high)

-- The kernel's balanced trees: rebalancing keeps the order of the nodes, and erasing a node keeps
-- the order of the others.
pub record Rbtree : Type 0 where
  pub rb_insert_color : ℕ → RbTree → RbTree
  pub rb_erase : ℕ → RbTree → RbTree
  pub in_order-insert_color : (x : ℕ) (t : RbTree) → in_order (rb_insert_color x t) ≡ in_order t
  pub in_order-erase : (x : ℕ) (t : RbTree) → in_order (rb_erase x t) ≡ remove x (in_order t)
