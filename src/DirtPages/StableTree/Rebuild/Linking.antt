-- ===== src/DirtPages/StableTree/Rebuild/Linking.antt =====
-- dirtPages.c: a stable node that gets its link during a rebuild, and what that does to the groups of
-- the new tree.
use random_c_code_snippets_b.Prelude.{
  All-insert, Increasing-key, Increasing-insert, All-split, ◌∷◌, ◌++◌, fun_ext, All-map, ℕ, ◌+◌,
  ◌≤◌, ◌<◌, ◌≡◌, refl, sym, ap, ◌∙◌, subst, arith, List, Option, none, some, All, All-In, All-intro,
  In, Increasing, put, put_self, put_ne, put_field, ℕ_discrete,
}
use random_c_code_snippets_b.DirtPages.StableTree.{StableNode, TreeNode, Stable, Kernel}
use random_c_code_snippets_b.DirtPages.StableTree.Rebuild.Shape.{IsGroup-relink}
use random_c_code_snippets_b.DirtPages.StableTree.Rebuild.Building.{
  Setting, Sane, Group, roots, Building,
}

module _ (k : Kernel) (g : Setting) where
  -- A node that is in no group of the new tree.
  abbrev pub Outside : ℕ → Stable → Type 0
  Outside n s = (t : ℕ) → (s.stable_nodes n).tree_node ≡ some t → t < g.mark

  abbrev pub linked : ℕ → Option ℕ → Stable → ℕ → StableNode
  linked n link s = put s.stable_nodes n (record (s.stable_nodes n) { tree_node = link })

  module _ (s v : Stable) (n : ℕ) (link : Option ℕ) (outside : Outside n s) (uksm : v.uksm ≡ s.uksm)
      (nodes : v.stable_nodes ≡ linked n link s) where
    pub linked-Sane : Sane k g s → Sane k g v
    linked-Sane sane =
        let node = record (s.stable_nodes n) { tree_node = link } in
        record {
          random = rw uksm sane.random;
          tuned = rw uksm sane.tuned;
          kept = λ m.
              rw nodes
                (ap k.memory (put_field (λ x. x.kpfn) s.stable_nodes n node refl m) ∙ sane.kept m);
          caches = λ m.
              rw nodes
                (rw (put_field (λ x. x.hash_max) s.stable_nodes n node refl m) (sane.caches m));
        }

    -- The other groups do not see the new link.
    pub linked-Group :
        (t : ℕ) (group : TreeNode)
        → g.mark ≤ t
        → Group k g s.stable_nodes t group
        → Group k g v.stable_nodes t group
    linked-Group t group new h = rw nodes (
      IsGroup-relink g.table g.content g.strength s.stable_nodes t group h.0 n link
          (λ e. omega (arith, outside t e, new)),
      h.1,
    )

  -- A node joins the group `t`, whose tree node becomes `group`.
  pub join-Building :
      (s v : Stable) (n t : ℕ) (group : TreeNode)
      → Building k g s
      → In t (roots k g s)
      → Outside n s
      → group.hash ≡ (s.tree_nodes t).hash
      → Group k g (linked n (some t) s) t group
      → v.uksm ≡ s.uksm
      → v.stable_nodes ≡ linked n (some t) s
      → v.tree_nodes ≡ put s.tree_nodes t group
      → v.root_stable_tree g.index ≡ s.root_stable_tree g.index
      → v.next_tree_node ≡ s.next_tree_node
      → Building k g v
  join-Building s v n t group b m outside hash joined uksm nodes trees root next = record {
    sane = linked-Sane s v n (some t) outside uksm nodes b.sane;
    ordered =
        rw (trees, root)
          (subst (λ key. Increasing key (roots k g s))
            (fun_ext (λ x. sym (put_field (λ y. y.hash) s.tree_nodes t group hash x))) b.ordered);
    groups =
        rw (trees, root)
          (All-intro _ (roots k g s) (λ x on. elim (ℕ_discrete x t) [
            | yes e ↦ rw (e, put_self s.tree_nodes t group) (rw nodes joined)
            | no ne ↦ rw (put_ne s.tree_nodes t group x ne) (
                linked-Group s v n (some t) outside uksm nodes x (s.tree_nodes x)
                  (All-In _ x (roots k g s) b.fresh on).0 (All-In _ x (roots k g s) b.groups on))
          ]));
    fresh = rw (root, next) b.fresh;
  }

  -- A new tree node, with `n` alone, comes to a place where it keeps the order.
  pub new-Building :
      (s v : Stable) (n : ℕ) (group : TreeNode) (before after : List ℕ)
      → Building k g s
      → Outside n s
      → g.mark ≤ s.next_tree_node
      → Group k g (linked n (some s.next_tree_node) s) s.next_tree_node group
      → roots k g s ≡ before ++ after
      → roots k g v ≡ before ++ (s.next_tree_node ∷ after)
      → All (λ t. (s.tree_nodes t).hash < group.hash) before
      → All (λ t. group.hash < (s.tree_nodes t).hash) after
      → v.uksm ≡ s.uksm
      → v.stable_nodes ≡ linked n (some s.next_tree_node) s
      → v.tree_nodes ≡ put s.tree_nodes s.next_tree_node group
      → v.next_tree_node ≡ s.next_tree_node + 1
      → Building k g v
  new-Building s v n group before after b outside mark joined old new below above uksm nodes trees
        next =
      let t = s.next_tree_node in
      let key : ℕ → ℕ = λ x. (put s.tree_nodes t group x).hash in
      let fresh : All (λ x. (g.mark ≤ x) × (x < t)) (before ++ after) = subst (All _) old b.fresh in
      let groups = subst (All (λ x. Group k g s.stable_nodes x (s.tree_nodes x))) old b.groups in
      let (low, high) = All-split _ before after fresh in
      let same : (x : ℕ) → x < t → put s.tree_nodes t group x ≡ s.tree_nodes x =
        λ x h. put_ne s.tree_nodes t group x (λ e. omega (arith, h, e)) in
      let self : put s.tree_nodes t group t ≡ group = put_self s.tree_nodes t group in
      record {
        sane = linked-Sane s v n (some t) outside uksm nodes b.sane;
        ordered =
            rw (trees, new)
              (Increasing-insert key t before after
                (Increasing-key (λ x. (s.tree_nodes x).hash) key (before ++ after)
                  (All-map _ _ _ (λ x h. ap (λ y. y.hash) (sym (same x h.1))) fresh)
                  (subst (Increasing _) old b.ordered))
                (All-intro _ before (λ x on.
                  rw (same x (All-In _ x before low on).1, self) (All-In _ x before below on)))
                (All-intro _ after (λ x on.
                  rw (same x (All-In _ x after high on).1, self) (All-In _ x after above on))));
        groups =
            rw (trees, new)
              (All-insert _ t before after (rw self (rw nodes joined)) (
                All-intro _ (before ++ after) (λ x on.
                  let (from, to) = All-In _ x (before ++ after) fresh on in
                  rw (same x to) (
                    linked-Group s v n (some t) outside uksm nodes x (s.tree_nodes x) from
                      (All-In _ x (before ++ after) groups on)))));
        fresh =
            rw (new, next)
              (All-insert _ t before after (mark, omega arith)
                (All-map _ _ (before ++ after) (λ x h. (h.0, omega (arith, h.1))) fresh));
      }

  pub leave-Building :
      (s v : Stable) (n : ℕ)
      → Building k g s
      → Outside n s
      → v.uksm ≡ s.uksm
      → v.stable_nodes ≡ linked n none s
      → v.tree_nodes ≡ s.tree_nodes
      → v.root_stable_tree g.index ≡ s.root_stable_tree g.index
      → v.next_tree_node ≡ s.next_tree_node
      → Building k g v
  leave-Building s v n b outside uksm nodes trees root next = record {
    sane = linked-Sane s v n none outside uksm nodes b.sane;
    ordered = rw (trees, root) b.ordered;
    groups =
        rw (trees, root)
          (All-intro _ (roots k g s) (λ x on.
            linked-Group s v n none outside uksm nodes x (s.tree_nodes x)
              (All-In _ x (roots k g s) b.fresh on).0 (All-In _ x (roots k g s) b.groups on)));
    fresh = rw (root, next) b.fresh;
  }
