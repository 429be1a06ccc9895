-- ===== src/DirtPages/StableTree/Rebuild/Reinsert.antt =====
-- dirtPages.c: the three ways in which `stable_node_reinsert` ends, each a step of a rebuild.
use random_c_code_snippets_b.Prelude.{
  In-append_right, In-insert, inr, inl, Bool-cases, ℕ, ◌+◌, ◌≤◌, ◌<◌, ◌≡◌, ◌≢◌, refl, sym, ap, ◌∙◌,
  subst, arith, List, [], ◌∷◌, ◌++◌, Option, none, some, All, All-In, In, put, put_self, put_ne,
  put_twice, Bool-cases, inl, inr,
}
use random_c_code_snippets_b.Word.{u64}
use random_c_code_snippets_b.DirtPages.Rbtree.{empty, in_order, RbSide, rb_link_node}
use random_c_code_snippets_b.DirtPages.StableTree.{alloc_tree_node, TreeNode, Stable, Kernel}
use random_c_code_snippets_b.DirtPages.StableTree.Rebuild.{leave_unlinked, add_node, new_group}
use random_c_code_snippets_b.DirtPages.StableTree.Rebuild.Shape.{hash_at, full_hash}
use random_c_code_snippets_b.DirtPages.StableTree.Rebuild.Joining.{joined-IsGroup}
use random_c_code_snippets_b.DirtPages.StableTree.Rebuild.Building.{Setting, Building, Quiet, roots}
use random_c_code_snippets_b.DirtPages.StableTree.Rebuild.Linking.{
  Outside, linked, join-Building, new-Building, leave-Building,
}
use random_c_code_snippets_b.DirtPages.StableTree.Rebuild.Frame.{
  Frame, Frame-trans, Frame-mono, Quiet-Frame, relink-Frame,
}

module _ (k : Kernel) (g : Setting) where
  -- The link of a node to a tree node of the new tree, with its hash.
  abbrev pub Current : ℕ → Stable → Type 0
  Current n s =
      (t : ℕ)
      → (s.stable_nodes n).tree_node ≡ some t
      → (g.mark ≤ t)
        × (t < s.next_tree_node)
        × ((s.tree_nodes t).hash ≡ hash_at g.table g.content g.strength n)
        × In t (roots k g s)
        × In n (in_order (s.tree_nodes t).sub_root)

  -- A step in which `n` gets its link.
  pub record Placed (n cost : ℕ) (s v : Stable) : Type 0 where
    pub building : Building k g v
    pub frame : Frame k g cost s v
    pub others : (m : ℕ) → m ≢ n → (v.stable_nodes m).tree_node ≡ (s.stable_nodes m).tree_node
    pub current : Current n v

  pub Quiet-Placed :
      (n i j : ℕ) (s t v : Stable) → Quiet k g i s t → Placed n j t v → Placed n (i + j) s v
  Quiet-Placed n i j s t v q p = record {
    building = p.building;
    frame = Frame-trans k g i j s t v (Quiet-Frame k g i s t q) p.frame;
    others = λ m ne. p.others m ne ∙ q.links m;
    current = p.current;
  }

  pub Placed-mono : (n i j : ℕ) (s v : Stable) → i ≤ j → Placed n i s v → Placed n j s v
  Placed-mono n i j s v h p = record {
    building = p.building;
    frame = Frame-mono k g i j s v h p.frame;
    others = p.others;
    current = p.current;
  }

  module _ (n : ℕ) (s : Stable) (b : Building k g s) (outside : Outside k g n s) where
    relinked :
        (link : Option ℕ) (m : ℕ)
        → m ≢ n
        → (linked k g n link s m).tree_node ≡ (s.stable_nodes m).tree_node
    relinked link m ne = ap (λ x. x.tree_node) (put_ne s.stable_nodes n _ m ne)

    single : (x : ℕ) → in_order (rb_link_node x [] empty) ≡ x ∷ []
    unfolding rb_link_node
    single x = refl

    pub linked_to : (t u : ℕ) → (linked k g n (some t) s n).tree_node ≡ some u → t ≡ u
    linked_to t u e =
        let same : some t ≡ some u =
          sym (ap (λ x. x.tree_node) (put_self s.stable_nodes n _)) ∙ e in
        cc

    pub leave-Placed : Placed n 0 s (leave_unlinked n s)
    unfolding leave_unlinked
    leave-Placed = record {
      building = leave-Building k g s _ n b outside refl refl refl refl refl;
      frame = record {
        hashes = λ t lt. refl;
        next = omega arith;
        list = λ m on. on;
        distinct = λ d. d;
        members = λ d t x on up down. (up, down);
        uksm = refl;
        spent = omega arith;
        refs = refl;
        locks = refl;
        listp = refl;
        treep = refl;
        index = refl;
        idle = λ j ne. refl;
      };
      others = relinked none;
      current = λ t e.
          let bad : none ≡ some t = sym (ap (λ x. x.tree_node) (put_self s.stable_nodes n _)) ∙ e in
          absurd (cc);
    }

    -- The node comes to a place in the sub-tree of `t` where it keeps the order.
    pub add-Placed :
        (t : ℕ) (way : List RbSide) (before after : List ℕ)
        → In t (roots k g s)
        → hash_at g.table g.content g.strength n ≡ (s.tree_nodes t).hash
        → in_order (s.tree_nodes t).sub_root ≡ before ++ after
        → in_order (rb_link_node n way (s.tree_nodes t).sub_root) ≡ before ++ (n ∷ after)
        → All (λ y. full_hash g.table g.content y < full_hash g.table g.content n) before
        → All (λ y. full_hash g.table g.content n < full_hash g.table g.content y) after
        → ((s.stable_nodes n).hash_max ≡ full_hash g.table g.content n)
        → All
            (λ m. (s.stable_nodes m).hash_max ≡ full_hash g.table g.content m)
            (in_order (s.tree_nodes t).sub_root)
        → Placed n 0 s (add_node k n t way s)
    unfolding add_node
    add-Placed t way before after on hash old new below above own others =
        let (from, to) = All-In _ t (roots k g s) b.fresh on in
        let (group, filled) = All-In _ t (roots k g s) b.groups on in
        let root = k.rbtree.rb_insert_color n (rb_link_node n way (s.tree_nodes t).sub_root) in
        let nodes : in_order root ≡ before ++ (n ∷ after) =
          k.rbtree.in_order-insert_color n _ ∙ new in
        let group' =
          joined-IsGroup g.table g.content g.strength s.stable_nodes t (s.tree_nodes t) n root
            before after group old nodes below above hash (λ e. omega (arith, outside t e, from))
            (λ _. (own, others)) in
        let tree : TreeNode = record (s.tree_nodes t) {
          sub_root = root;
          count = u64 ((s.tree_nodes t).count + 1);
        } in
        record {
          building = join-Building k g s _ n t _ b on outside refl group' refl refl refl refl refl;
          frame =
              relink-Frame k g s _ t tree refl
                (λ x m. subst (In x) (sym nodes) (In-insert x n before after (subst (In x) old m)));
          others = relinked (some t);
          current = λ u e.
              subst
                (λ x.
                  (g.mark ≤ x)
                  × (x < s.next_tree_node)
                  × ((put s.tree_nodes t tree x).hash ≡ hash_at g.table g.content g.strength n)
                  × In x (roots k g s)
                  × In n (in_order (put s.tree_nodes t tree x).sub_root))
                (linked_to t u e)
                (rw (put_self s.tree_nodes t tree) (
                  from,
                  to,
                  sym hash,
                  on,
                  subst (In n) (sym nodes) (In-append_right n before (n ∷ after) (inl refl)),
                ));
        }

    -- No tree node has the hash: a new one comes to the end of the walk.
    pub new-Placed :
        (hash : ℕ) (way : List RbSide) (before after : List ℕ)
        → g.mark ≤ s.next_tree_node
        → hash_at g.table g.content g.strength n ≡ hash
        → roots k g s ≡ before ++ after
        → in_order (rb_link_node s.next_tree_node way (s.root_stable_tree g.index))
          ≡ before ++ (s.next_tree_node ∷ after)
        → All (λ t. (s.tree_nodes t).hash < hash) before
        → All (λ t. hash < (s.tree_nodes t).hash) after
        → Placed n 0 s (new_group k n way g.index g.index hash s)
    unfolding new_group add_node alloc_tree_node
    new-Placed hash way before after mark same old new below above =
        elim (Bool-cases (k.zalloc s.next_tree_node)) [
          | inl e ↦ rw e (
              let t = s.next_tree_node in
              let bare : TreeNode = record { sub_root = empty; hash = hash; count = 0 } in
              let root = k.rbtree.rb_insert_color n (rb_link_node n [] empty) in
              let tree : TreeNode = record bare { sub_root = root; count = u64 (0 + 1) } in
              let group =
                joined-IsGroup g.table g.content g.strength s.stable_nodes t bare n root [] []
                  (record { size = refl; ordered = tt; cached = λ two. tt; members = tt }) refl
                  (k.rbtree.in_order-insert_color n _ ∙ single n) tt tt same
                  (λ e'. omega (arith, outside t e', mark)) (λ one. absurd (omega (arith, one))) in
              let zero : TreeNode = record { sub_root = empty; hash = 0; count = 0 } in
              let hashed =
                ap {A = TreeNode} (λ x. put (put s.tree_nodes t zero) t (record x { hash = hash }))
                  (put_self s.tree_nodes t zero)
                ∙ put_twice s.tree_nodes t zero bare in
              let trees =
                ap {A = ℕ → TreeNode}
                  (λ f. put f t (record (f t) {
                    sub_root = k.rbtree.rb_insert_color n (rb_link_node n [] (f t).sub_root);
                    count = u64 ((f t).count + 1);
                  }))
                  hashed
                ∙ ap {A = TreeNode}
                    (λ x. put (put s.tree_nodes t bare) t (record x {
                      sub_root = k.rbtree.rb_insert_color n (rb_link_node n [] x.sub_root);
                      count = u64 (x.count + 1);
                    }))
                    (put_self s.tree_nodes t bare)
                ∙ put_twice s.tree_nodes t bare tree in
              let new_root =
                k.rbtree.rb_insert_color t (rb_link_node t way (s.root_stable_tree g.index)) in
              let root_nodes : in_order (put s.root_stable_tree g.index new_root g.index)
                  ≡ before ++ (t ∷ after) =
                ap in_order (put_self s.root_stable_tree g.index new_root)
                ∙ k.rbtree.in_order-insert_color t _
                ∙ new in
              record {
                building =
                    new-Building k g s _ n tree before after b outside mark group old root_nodes
                      below above refl refl trees refl;
                frame = record {
                  hashes = λ x lt.
                      ap {A = ℕ → TreeNode} (λ f. (f x).hash) trees
                      ∙ ap (λ y. y.hash)
                          (put_ne s.tree_nodes t tree x (λ e'. omega (arith, lt, e')));
                  next = omega arith;
                  list = λ m on. on;
                  distinct = λ d. d;
                  members = λ d u x on up down. (
                    subst (In u) (sym root_nodes)
                        (In-insert u t before after (subst (In u) old up)),
                    subst (λ f. In x (in_order (f u).sub_root)) (sym trees)
                        (let (_, lt) = All-In _ u (roots k g s) b.fresh up in
                          rw (put_ne s.tree_nodes t tree u (λ e'. omega (arith, lt, e'))) down),
                  );
                  uksm = refl;
                  spent = omega arith;
                  refs = refl;
                  locks = refl;
                  listp = refl;
                  treep = refl;
                  index = refl;
                  idle = λ j ne. put_ne s.stable_tree_node_list g.index _ j ne;
                };
                others = relinked (some t);
                current = λ u e'.
                    rw (trees, ← linked_to t u e', put_self s.tree_nodes t tree)
                      (
                        mark,
                        omega arith,
                        sym same,
                        subst (In t) (sym root_nodes)
                            (In-append_right t before (t ∷ after) (inl refl)),
                        subst (In n) (sym (k.rbtree.in_order-insert_color n _ ∙ single n))
                            (inl refl),
                      );
              })
          | inr e ↦ rw e leave-Placed
        ]
