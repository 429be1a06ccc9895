-- ===== src/DirtPages/StableTree/Rebuild/Joining.antt =====
-- dirtPages.c: the label `add_node` of `stable_node_reinsert`, as a change of one group.
use random_c_code_snippets_b.Prelude.{
  put_field, ℕ, ◌+◌, ◌^◌, ◌≤◌, ◌<◌, ◌≡◌, ◌≢◌, refl, sym, ap, ◌∙◌, subst, arith, List, ◌∷◌, ◌++◌,
  length, length-append, some, All, All-map, All-intro, All-insert, Increasing, Increasing-insert,
  length-Increasing, put, put_self,
}
use random_c_code_snippets_b.Word.{u64}
use random_c_code_snippets_b.DirtPages.{Page, hash_strength_max}
use random_c_code_snippets_b.DirtPages.Sample.Delta.{sample-lt}
use random_c_code_snippets_b.DirtPages.Rbtree.{RbTree, in_order}
use random_c_code_snippets_b.DirtPages.StableTree.{StableNode, TreeNode}
use random_c_code_snippets_b.DirtPages.StableTree.Rebuild.Shape.{
  hash_at, full_hash, IsGroup, IsGroup-relink,
}

-- The sub-tree of a group after a node has come to its place.
module _ (table : List ℕ) (content : ℕ → Page) where
  full_hash-lt : (n : ℕ) → full_hash table content n < 2 ^ 32
  full_hash-lt n =
      let small = sample-lt table (content n) hash_strength_max in ground (arith, small)

  module _ (strength : ℕ) (nodes : ℕ → StableNode) (t : ℕ) (group : TreeNode) (n : ℕ)
      (root : RbTree) (before after : List ℕ) where
    abbrev joined_node : StableNode
    joined_node = record (nodes n) { tree_node = some t }

    abbrev joined : TreeNode
    joined = record group { sub_root = root; count = u64 (group.count + 1) }

    abbrev key : ℕ → ℕ
    key = full_hash table content

    -- A node that is not in the group comes to a place where it keeps the order.
    pub joined-IsGroup :
        IsGroup table content strength nodes t group
        → in_order group.sub_root ≡ before ++ after
        → in_order root ≡ before ++ (n ∷ after)
        → All (λ y. key y < key n) before
        → All (λ y. key n < key y) after
        → hash_at table content strength n ≡ group.hash
        → (nodes n).tree_node ≢ some t
        → (1 ≤ group.count
            → ((nodes n).hash_max ≡ key n)
              × All (λ m. (nodes m).hash_max ≡ key m) (in_order group.sub_root))
        → IsGroup table content strength (put nodes n joined_node) t joined × (1 ≤ joined.count)
    joined-IsGroup g old new below above same outside caches =
        let g' = IsGroup-relink table content strength nodes t group g n (some t) outside in
        let ordered : Increasing key (before ++ (n ∷ after)) =
          Increasing-insert key n before after (subst (Increasing key) old g.ordered) below above in
        let size = length-append before (n ∷ after) in
        let size' = length-append before after in
        let few =
          length-Increasing key (2 ^ 32) 0 (before ++ (n ∷ after)) ordered
            (All-intro _ _ (λ x m. omega arith)) (All-intro _ _ (λ x m. full_hash-lt x))
            (omega arith) in
        let count : joined.count ≡ length (before ++ (n ∷ after)) =
          omega (arith, g.size, ap length old, size, size', few) in
        (
          record {
            size = count ∙ ap length (sym new);
            ordered = rw new ordered;
            cached = λ two. rw new (
                let (own, others) =
                  caches (omega (arith, two, count, size, size', g.size, ap length old)) in
                All-map _ _ (before ++ (n ∷ after))
                  (λ m h. put_field (λ x. x.hash_max) nodes n joined_node refl m ∙ h)
                  (All-insert _ n before after own (subst (All _) old others)));
            members = rw new (
                All-insert _ n before after
                  (ap (λ x. x.tree_node) (put_self nodes n joined_node), same)
                  (subst (All _) old g'.members));
          },
          omega (arith, count, size),
        )
