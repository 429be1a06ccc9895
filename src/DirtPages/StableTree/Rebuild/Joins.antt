-- ===== src/DirtPages/StableTree/Rebuild/Joins.antt =====
-- dirtPages.c: `stable_node_reinsert` puts a stable node where it belongs, whatever other CPUs do to
-- the pages in the meantime.
use random_c_code_snippets_b.Prelude.{
  All-split, All-map, ℕ, ◌≤◌, ◌≡◌, refl, sym, subst, arith, List, [], ◌∷◌, ◌++◌, length,
  length-append, Option, none, some, ok, Ensures, All, All-In, All-intro, In, Increasing-key, inl,
  inr,
}
use random_c_code_snippets_b.DirtPages.Rbtree.{
  RbTree, empty, node, in_order, RbSide, rb_left, rb_right, rb_link_node,
}
use random_c_code_snippets_b.DirtPages.Rbtree.Order.{Meets, descend-Meets, cmp_cases}
use random_c_code_snippets_b.DirtPages.StableTree.{Stable, Kernel}
use random_c_code_snippets_b.DirtPages.StableTree.Rebuild.{
  leave_unlinked, add_node, root_entry, bug_on_empty, join_beside, join_many,
}
use random_c_code_snippets_b.DirtPages.StableTree.Rebuild.Shape.{hash_at, full_hash}
use random_c_code_snippets_b.DirtPages.StableTree.Rebuild.Building.{Setting, Building, roots}
use random_c_code_snippets_b.DirtPages.StableTree.Rebuild.Linking.{Outside}
use random_c_code_snippets_b.DirtPages.StableTree.Rebuild.Reinsert.{
  Placed, leave-Placed, add-Placed,
}

-- A tree of one node.
pub record IsSingle (entry : ℕ) (tree : RbTree) : Type 0 where
  pub root : root_entry tree ≡ ok entry
  pub nodes : in_order tree ≡ entry ∷ []
  pub left : (x : ℕ) → in_order (rb_link_node x (rb_left ∷ []) tree) ≡ x ∷ (entry ∷ [])
  pub right : (x : ℕ) → in_order (rb_link_node x (rb_right ∷ []) tree) ≡ entry ∷ (x ∷ [])

pub one_node-IsSingle :
    (tree : RbTree) → length (in_order tree) ≡ 1 → (entry : ℕ) × IsSingle entry tree
unfolding root_entry rb_link_node
one_node-IsSingle empty h = absurd (omega arith)
one_node-IsSingle (node empty m empty) h =
    (m, record { root = refl; nodes = refl; left = λ x. refl; right = λ x. refl })
one_node-IsSingle (node empty m (node low x high)) h =
    absurd (omega (arith, length-append (in_order low) (x ∷ in_order high)))
one_node-IsSingle (node (node low x high) m rest) h = absurd (
    omega (
      arith,
      length-append (in_order low ++ (x ∷ in_order high)) (m ∷ in_order rest),
      length-append (in_order low) (x ∷ in_order high),
    ))

pub filled_bug : (tree : RbTree) → 1 ≤ length (in_order tree) → bug_on_empty tree ≡ ok tt
unfolding bug_on_empty
filled_bug empty h = absurd (omega arith)
filled_bug (node low m high) h = refl

module _ (k : Kernel) (g : Setting) (n : ℕ) (s : Stable) (b : Building k g s)
    (outside : Outside k g n s) (t : ℕ) (on : In t (roots k g s))
    (hash : hash_at g.table g.content g.strength n ≡ (s.tree_nodes t).hash)
    (own : (s.stable_nodes n).hash_max ≡ full_hash g.table g.content n)
    (others : All
      (λ m. (s.stable_nodes m).hash_max ≡ full_hash g.table g.content m)
      (in_order (s.tree_nodes t).sub_root)) where
  abbrev cache : ℕ → ℕ
  cache m = (s.stable_nodes m).hash_max

  abbrev sub : RbTree
  sub = (s.tree_nodes t).sub_root

  -- The end of a walk by `hash_max`.
  finish :
      (way : List RbSide) (found : Option ℕ)
      → Meets cache (cache n) sub way found
      → Placed k g n 0 s
          (elim found [ none ↦ add_node k n t way s | some same ↦ leave_unlinked n s ])
  finish way none meets =
      let (before, after, old, new, below, above) = meets n in
      let (low, high) = All-split _ before after (subst (All _) old others) in
      add-Placed k g n s b outside t way before after on hash old new
        (All-intro _ before
          (λ y m. omega (arith, All-In _ y before below m, All-In _ y before low m, own)))
        (All-intro _ after
          (λ y m. omega (arith, All-In _ y after above m, All-In _ y after high m, own)))
        own others
  finish way (some x) meets = leave-Placed k g n s b outside

  pub join_many-Placed : Ensures (join_many k n t s) (Placed k g n 0 s)
  unfolding join_many
  join_many-Placed =
      let (group, filled) = All-In _ t (roots k g s) b.groups on in
      let sorted =
        Increasing-key (full_hash g.table g.content) cache (in_order sub)
          (All-map _ _ (in_order sub) (λ m e. sym e) others) group.ordered in
      rw (filled_bug sub (omega (arith, group.size, filled)))
        (finish _ _ (descend-Meets cache (cache n) sub sorted))

  pub join_beside-Placed : (m : ℕ) → IsSingle m sub → Placed k g n 0 s (join_beside k n t m s)
  unfolding join_beside
  join_beside-Placed m one = elim (cmp_cases cache (cache n) m) [
    | inl turn ↦
        rw (join_beside, turn.0)
          (finish (rb_left ∷ []) none (λ x. ([], m ∷ [], one.nodes, one.left x, tt, (turn.1, tt))))
    | inr (inl turn) ↦
        rw (join_beside, turn.0)
          (finish (rb_right ∷ []) none
            (λ x. (m ∷ [], [], one.nodes, one.right x, (turn.1, tt), tt)))
    | inr (inr turn) ↦ rw (join_beside, turn.0) (leave-Placed k g n s b outside)
  ]
