-- ===== src/DirtPages/StableTree/Rebuild/Shape.antt =====
-- dirtPages.c: the two levels of the stable tree. A tree node holds the stable nodes whose pages
-- have its hash, ordered by their hashes at HASH_STRENGTH_MAX.
use random_c_code_snippets_b.Prelude.{
  put_field, ℕ, ◌≤◌, ◌≡◌, ◌≢◌, refl, ◌∙◌, subst, List, length, Option, some, All, All-map,
  Increasing, put, put_ne, ℕ_discrete,
}
use random_c_code_snippets_b.DirtPages.{Page, hash_strength_max}
use random_c_code_snippets_b.DirtPages.Hashing.{nonzero}
use random_c_code_snippets_b.DirtPages.Sample.Delta.{sample}
use random_c_code_snippets_b.DirtPages.Rbtree.{in_order}
use random_c_code_snippets_b.DirtPages.StableTree.{StableNode, TreeNode}

-- `table` is `random_nums`, and `content` gives the words of the page of each stable node.
module _ (table : List ℕ) (content : ℕ → Page) where
  -- The hash of the node's page at a strength, and what `hash_max` caches.
  abbrev pub hash_at : ℕ → ℕ → ℕ
  hash_at strength n = sample table (content n) strength

  abbrev pub full_hash : ℕ → ℕ
  full_hash n = nonzero (hash_at hash_strength_max n)

  module _ (strength : ℕ) where
    -- The tree node at the address `t` with its stable nodes.
    pub record IsGroup (nodes : ℕ → StableNode) (t : ℕ) (group : TreeNode) : Type 0 where
      pub size : group.count ≡ length (in_order group.sub_root)
      pub ordered : Increasing full_hash (in_order group.sub_root)
      pub cached :
          2 ≤ group.count → All (λ m. (nodes m).hash_max ≡ full_hash m) (in_order group.sub_root)
      pub members :
          All
            (λ m. ((nodes m).tree_node ≡ some t) × (hash_at strength m ≡ group.hash))
            (in_order group.sub_root)

    module _ (nodes : ℕ → StableNode) (t : ℕ) (group : TreeNode) (g : IsGroup nodes t group) where
      -- Changes of nodes that no group sees.
      pub IsGroup-nodes :
          (nodes' : ℕ → StableNode)
          → ((m : ℕ) → (nodes m).tree_node ≡ some t → (nodes' m).tree_node ≡ some t)
          → ((m : ℕ) → (nodes m).hash_max ≡ full_hash m → (nodes' m).hash_max ≡ full_hash m)
          → IsGroup nodes' t group
      IsGroup-nodes nodes' links caches = record {
        size = g.size;
        ordered = g.ordered;
        cached = λ two. All-map _ _ (in_order group.sub_root) caches (g.cached two);
        members = All-map _ _ (in_order group.sub_root) (λ m h. (links m h.0, h.1)) g.members;
      }

      -- A new link of a node that is in no group.
      pub IsGroup-relink :
          (n : ℕ) (link : Option ℕ)
          → (nodes n).tree_node ≢ some t
          → IsGroup (put nodes n (record (nodes n) { tree_node = link })) t group
      IsGroup-relink n link outside =
          IsGroup-nodes _
            (λ m h. elim (ℕ_discrete m n) [
              | yes e ↦ absurd (outside (subst (λ x. (nodes x).tree_node ≡ some t) e h))
              | no ne ↦ rw (put_ne nodes n (record (nodes n) { tree_node = link }) m ne) h
            ])
            (λ m h.
              put_field (λ x. x.hash_max) nodes n (record (nodes n) { tree_node = link }) refl m
              ∙ h)
