-- ===== src/DirtPages/StableTree/Rebuild/Reuse.antt =====
-- dirtPages.c: the label `tree_node_reuse` of `stable_node_reinsert`. The single node of a group was
-- stale and is gone, and the new node takes its place.
use random_c_code_snippets_b.Prelude.{
  inl, ℕ, ◌+◌, ◌≤◌, ◌<◌, ◌≡◌, refl, sym, ap, ◌∙◌, subst, arith, [], ◌∷◌, length, some, true, false,
  All, All-In, In, remove, put, put_self, put_ne, put_twice, put_field, ==_refl,
}
use random_c_code_snippets_b.Word.{u64}
use random_c_code_snippets_b.DirtPages.Rbtree.{RbTree, empty, node, in_order, rb_link_node}
use random_c_code_snippets_b.DirtPages.StableTree.{
  StableNode, TreeNode, Stable, Kernel, remove_node_from_stable_tree,
}
use random_c_code_snippets_b.DirtPages.StableTree.Removal.{left_by, unlinked, remove-forest}
use random_c_code_snippets_b.DirtPages.StableTree.Rebuild.{add_node}
use random_c_code_snippets_b.DirtPages.StableTree.Rebuild.Shape.{hash_at, IsGroup}
use random_c_code_snippets_b.DirtPages.StableTree.Rebuild.Joining.{joined-IsGroup}
use random_c_code_snippets_b.DirtPages.StableTree.Rebuild.Building.{Setting, Building, roots}
use random_c_code_snippets_b.DirtPages.StableTree.Rebuild.Linking.{Outside, linked, join-Building}
use random_c_code_snippets_b.DirtPages.StableTree.Rebuild.Frame.{
  Frame-trans, remove-Frame, relink-Frame,
}
use random_c_code_snippets_b.DirtPages.StableTree.Rebuild.Reinsert.{Placed, linked_to}

root_link : (x : ℕ) (tree : RbTree) → in_order (rb_link_node x [] tree) ≡ x ∷ []
unfolding rb_link_node
root_link x empty = refl
root_link x (node low y high) = refl

module _ (k : Kernel) (g : Setting) (n m : ℕ) (s : Stable) (b : Building k g s)
    (outside : Outside k g n s) (t : ℕ) (on : In t (roots k g s))
    (hash : hash_at g.table g.content g.strength n ≡ (s.tree_nodes t).hash)
    (one : (s.tree_nodes t).count ≡ 1) (nodes : in_order (s.tree_nodes t).sub_root ≡ m ∷ []) where
  -- The group without its node, and with the new one.
  abbrev left : TreeNode
  left = left_by k m true (s.tree_nodes t)

  abbrev root : RbTree
  root = k.rbtree.rb_insert_color n (rb_link_node n [] left.sub_root)

  abbrev tree : TreeNode
  tree = record left { sub_root = root; count = u64 (left.count + 1) }

  left_none : in_order left.sub_root ≡ []
  left_none = k.rbtree.in_order-erase m _ ∙ ap (remove m) nodes ∙ rw (==_refl m) refl

  new_nodes : in_order root ≡ n ∷ []
  new_nodes = k.rbtree.in_order-insert_color n _ ∙ root_link n left.sub_root

  left-IsGroup : IsGroup g.table g.content g.strength s.stable_nodes t left
  left-IsGroup = record {
    size = omega (arith, one, ap length left_none);
    ordered = rw left_none tt;
    cached = λ two. rw left_none tt;
    members = rw left_none tt;
  }

  abbrev gone : Stable
  gone = remove_node_from_stable_tree k m true false s

  gone_trees : gone.tree_nodes ≡ put s.tree_nodes t left
  gone_trees =
      let (group, _) = All-In _ t (roots k g s) b.groups on in
      let link : (s.stable_nodes m).tree_node ≡ some t = (subst (All _) nodes group.members).0.0 in
      ap {A = Stable} (λ x. x.tree_nodes) (remove-forest k m true s)
      ∙ ap (λ o. unlinked k m true o s.tree_nodes) link

  gone_nodes : gone.stable_nodes ≡ s.stable_nodes
  gone_nodes = ap {A = Stable} (λ x. x.stable_nodes) (remove-forest k m true s)

  pub reuse-Placed : Placed k g n 0 s (add_node k n t [] gone)
  unfolding add_node
  reuse-Placed =
      let (from, to) = All-In _ t (roots k g s) b.fresh on in
      let kept = remove-forest k m true s in
      let group =
        joined-IsGroup g.table g.content g.strength s.stable_nodes t left n root [] [] left-IsGroup
          left_none new_nodes tt tt hash (λ e. omega (arith, outside t e, from))
          (λ some_left. absurd (omega (arith, one, some_left))) in
      let trees : (add_node k n t [] gone).tree_nodes ≡ put s.tree_nodes t tree =
        ap {A = ℕ → TreeNode}
          (λ f. put f t (record (f t) {
            sub_root = k.rbtree.rb_insert_color n (rb_link_node n [] (f t).sub_root);
            count = u64 ((f t).count + 1);
          }))
          gone_trees
        ∙ ap {A = TreeNode}
            (λ x. put (put s.tree_nodes t left) t (record x {
              sub_root = k.rbtree.rb_insert_color n (rb_link_node n [] x.sub_root);
              count = u64 (x.count + 1);
            }))
            (put_self s.tree_nodes t left)
        ∙ put_twice s.tree_nodes t left tree in
      let placed : (add_node k n t [] gone).stable_nodes ≡ linked k g n (some t) s =
        ap (λ f. put f n (record (f n) { tree_node = some t })) gone_nodes in
      let next = ap {A = Stable} (λ x. x.next_tree_node) kept in
      record {
        building =
            join-Building k g s _ n t tree b on outside refl group
              (ap {A = Stable} (λ x. x.uksm) kept) placed trees
              (ap {A = Stable} (λ x. x.root_stable_tree g.index) kept) next;
        frame = Frame-trans k g 0 0 s gone _ (remove-Frame k g m true s) (
            relink-Frame k g gone _ t _ refl (λ x on'. absurd (
              subst (In x)
                (ap (λ f. in_order (f t).sub_root) gone_trees
                  ∙ ap (λ y. in_order y.sub_root) (put_self s.tree_nodes t left)
                  ∙ left_none)
                on')));
        others = λ x ne.
            ap {A = ℕ → StableNode} (λ f. (f x).tree_node) placed
            ∙ ap (λ y. y.tree_node) (put_ne s.stable_nodes n _ x ne);
        current = λ u e.
            let same =
              linked_to k g n s b outside t u
                (ap {A = ℕ → StableNode} (λ f. (f n).tree_node) (sym placed) ∙ e) in
            (
              subst (λ x. g.mark ≤ x) same from,
              subst (λ x. x < gone.next_tree_node) same (omega (arith, to, next)),
              ap {A = ℕ → TreeNode} (λ f. (f u).hash) trees
                  ∙ put_field (λ y. y.hash) s.tree_nodes t tree refl u
                  ∙ ap (λ x. (s.tree_nodes x).hash) (sym same)
                  ∙ sym hash,
              subst (λ x. In x (roots k g gone)) same
                  (subst (In t) (sym (ap {A = Stable} (roots k g) kept)) on),
              subst (λ x. In n (in_order ((add_node k n t [] gone).tree_nodes x).sub_root)) same
                  (subst (λ f. In n (in_order (f t).sub_root)) (sym trees)
                    (subst (λ y. In n (in_order y.sub_root)) (sym (put_self s.tree_nodes t tree))
                      (subst (In n) (sym new_nodes) (inl refl)))),
            );
      }
