-- ===== src/DirtPages/StableTree/Rebuild/Frame.antt =====
-- dirtPages.c: what the steps of a rebuild leave alone, composed along the code.
use random_c_code_snippets_b.Prelude.{
  remove-In, put_ne, put_self, ℕ_discrete, remove-Distinct, ℕ, ◌+◌, ◌≤◌, ◌<◌, ◌≡◌, ◌≢◌, refl, sym,
  ap, ◌∙◌, subst, arith, Option, none, some, Bool, true, false, In, In-remove, Distinct,
  Distinct-remove, put, put_field, remove, ==_refl,
}
use random_c_code_snippets_b.DirtPages.Rbtree.{in_order}
use random_c_code_snippets_b.DirtPages.StableTree.{
  Uksm, StableNode, TreeNode, Stable, Kernel, get_page, put_page, remove_node_from_stable_tree,
}
use random_c_code_snippets_b.DirtPages.StableTree.Removal.{
  left_by, unlinked, remove-forest, remove-standing,
}
use random_c_code_snippets_b.DirtPages.StableTree.Rebuild.Building.{Setting, Quiet, roots}

module _ (k : Kernel) (g : Setting) where
  pub record Frame (cost : ℕ) (s v : Stable) : Type 0 where
    pub hashes : (t : ℕ) → t < s.next_tree_node → (v.tree_nodes t).hash ≡ (s.tree_nodes t).hash
    pub next : s.next_tree_node ≤ v.next_tree_node
    pub list : (m : ℕ) → In m v.stable_node_list → In m s.stable_node_list
    pub distinct : Distinct s.stable_node_list → Distinct v.stable_node_list
    pub members :
        Distinct s.stable_node_list
        → (t x : ℕ) → In x v.stable_node_list
        → In t (roots k g s)
        → In x (in_order (s.tree_nodes t).sub_root)
        → In t (roots k g v) × In x (in_order (v.tree_nodes t).sub_root)
    pub uksm : v.uksm ≡ record s.uksm { rshash_neg = v.uksm.rshash_neg }
    pub spent : v.uksm.rshash_neg ≤ s.uksm.rshash_neg + cost
    pub refs : v.page_refs ≡ s.page_refs
    pub locks : v.page_locks ≡ s.page_locks
    pub listp : v.stable_tree_node_listp ≡ s.stable_tree_node_listp
    pub treep : v.root_stable_treep ≡ s.root_stable_treep
    pub index : v.stable_tree_index ≡ s.stable_tree_index
    pub idle : (j : ℕ) → j ≢ g.index → v.stable_tree_node_list j ≡ s.stable_tree_node_list j

  pub Frame-trans : (i j : ℕ) (s t v : Stable) → Frame i s t → Frame j t v → Frame (i + j) s v
  Frame-trans i j s t v p q = record {
    hashes = λ x h. q.hashes x (omega (arith, h, p.next)) ∙ p.hashes x h;
    next = omega (arith, p.next, q.next);
    list = λ m h. p.list m (q.list m h);
    distinct = λ h. q.distinct (p.distinct h);
    members = λ d t' x on up down.
        let (up', down') = p.members d t' x (q.list x on) up down in
        q.members (p.distinct d) t' x on up' down';
    uksm = q.uksm ∙ ap {A = Uksm} (λ x. record x { rshash_neg = v.uksm.rshash_neg }) p.uksm;
    spent = omega (arith, p.spent, q.spent);
    refs = q.refs ∙ p.refs;
    locks = q.locks ∙ p.locks;
    listp = q.listp ∙ p.listp;
    treep = q.treep ∙ p.treep;
    index = q.index ∙ p.index;
    idle = λ x h. q.idle x h ∙ p.idle x h;
  }

  pub Frame-refl : (s : Stable) → Frame 0 s s
  Frame-refl s = record {
    hashes = λ t lt. refl;
    next = omega arith;
    list = λ m on. on;
    distinct = λ d. d;
    members = λ d t x on up down. (up, down);
    uksm = refl;
    spent = omega arith;
    refs = refl;
    locks = refl;
    listp = refl;
    treep = refl;
    index = refl;
    idle = λ j ne. refl;
  }

  pub Frame-mono : (i j : ℕ) (s v : Stable) → i ≤ j → Frame i s v → Frame j s v
  Frame-mono i j s v h p = record {
    hashes = p.hashes;
    next = p.next;
    list = p.list;
    distinct = p.distinct;
    members = p.members;
    uksm = p.uksm;
    spent = omega (arith, p.spent, h);
    refs = p.refs;
    locks = p.locks;
    listp = p.listp;
    treep = p.treep;
    index = p.index;
    idle = p.idle;
  }

  pub Quiet-Frame : (cost : ℕ) (s v : Stable) → Quiet k g cost s v → Frame cost s v
  Quiet-Frame cost s v q = rw q.same (record {
    hashes = λ t h. refl;
    next = omega arith;
    list = λ m h. h;
    distinct = λ h. h;
    members = λ d t x on up down. (up, down);
    uksm = q.uksm;
    spent = q.spent;
    refs = refl;
    locks = refl;
    listp = refl;
    treep = refl;
    index = refl;
    idle = λ j h. refl;
  })

  -- A reference that is held in between.
  pub Frame-put_page :
      (cost page : ℕ) (s v : Stable)
      → Frame cost (get_page page s) v
      → Frame cost s (put_page page v)
  Frame-put_page cost page s v q = record {
    hashes = q.hashes;
    next = q.next;
    list = q.list;
    distinct = q.distinct;
    members = q.members;
    uksm = q.uksm;
    spent = q.spent;
    refs = rw q.refs (rw (==_refl page) refl);
    locks = q.locks;
    listp = q.listp;
    treep = q.treep;
    index = q.index;
    idle = q.idle;
  }

  -- A change of nodes and of one tree node that keeps its hash.
  pub relink-Frame :
      (s : Stable) (nodes : ℕ → StableNode) (t : ℕ) (group : TreeNode)
      → group.hash ≡ (s.tree_nodes t).hash
      → ((x : ℕ) → In x (in_order (s.tree_nodes t).sub_root) → In x (in_order group.sub_root))
      → Frame 0 s (record s { stable_nodes = nodes; tree_nodes = put s.tree_nodes t group })
  relink-Frame s nodes t group h keeps = record {
    hashes = λ x lt. put_field (λ y. y.hash) s.tree_nodes t group h x;
    next = omega arith;
    list = λ m on. on;
    distinct = λ d. d;
    members = λ d u x on up down. (
      up,
      elim (ℕ_discrete u t) [
        | yes e ↦
            rw (e, put_self s.tree_nodes t group)
              (keeps x (subst (λ y. In x (in_order (s.tree_nodes y).sub_root)) e down))
        | no ne ↦ rw (put_ne s.tree_nodes t group u ne) down
      ],
    );
    uksm = refl;
    spent = omega arith;
    refs = refl;
    locks = refl;
    listp = refl;
    treep = refl;
    index = refl;
    idle = λ j ne. refl;
  }

  -- The hashes of the tree nodes.
  unlinked-hash :
      (n : ℕ) (unlink_rb : Bool) (link : Option ℕ) (trees : ℕ → TreeNode) (t : ℕ)
      → (unlinked k n unlink_rb link trees t).hash ≡ (trees t).hash
  unlinked-hash n unlink_rb none trees t = refl
  unlinked-hash n false (some u) trees t = refl
  unlinked-hash n true (some u) trees t =
      put_field (λ y. y.hash) trees u (left_by k n true (trees u)) refl t

  -- The other stable nodes stay in their sub-trees.
  unlinked-In :
      (n : ℕ) (unlink_rb : Bool) (link : Option ℕ) (trees : ℕ → TreeNode) (t x : ℕ)
      → x ≢ n
      → In x (in_order (trees t).sub_root)
      → In x (in_order (unlinked k n unlink_rb link trees t).sub_root)
  unlinked-In n unlink_rb none trees t x ne m = m
  unlinked-In n false (some u) trees t x ne m = m
  unlinked-In n true (some u) trees t x ne m = elim (ℕ_discrete t u) [
    | yes e ↦
        rw (e, put_self trees u (left_by k n true (trees u)))
          (subst (In x) (sym (k.rbtree.in_order-erase n (trees u).sub_root))
            (remove-In x n _ ne (subst (λ y. In x (in_order (trees y).sub_root)) e m)))
    | no ne' ↦ rw (put_ne trees u (left_by k n true (trees u)) t ne') m
  ]

  pub remove-Frame :
      (n : ℕ) (unlink_rb : Bool) (s : Stable)
      → Frame 0 s (remove_node_from_stable_tree k n unlink_rb false s)
  remove-Frame n unlink_rb s =
      let (same, list) = remove-standing k n unlink_rb false s in
      let kept = remove-forest k n unlink_rb s in
      record {
        hashes = λ t lt.
            ap {A = Stable} (λ x. (x.tree_nodes t).hash) kept
            ∙ unlinked-hash n unlink_rb (s.stable_nodes n).tree_node s.tree_nodes t;
        next = omega (arith, ap {A = Stable} (λ x. x.next_tree_node) same);
        list = λ m on. In-remove m n s.stable_node_list (subst (In m) list on);
        distinct = λ d. subst Distinct (sym list) (Distinct-remove n s.stable_node_list d);
        members = λ d t x on up down. (
          subst (In t) (sym (ap {A = Stable} (roots k g) kept)) up,
          subst (λ f. In x (in_order (f t).sub_root))
              (sym (ap {A = Stable} (λ y. y.tree_nodes) kept))
              (unlinked-In n unlink_rb (s.stable_nodes n).tree_node s.tree_nodes t x
                (λ e.
                  remove-Distinct n s.stable_node_list d
                    (subst (λ y. In y (remove n s.stable_node_list)) e (subst (In x) list on)))
                down),
        );
        uksm =
            ap {A = Stable} (λ x. x.uksm) same
            ∙ ap {A = ℕ} (λ c. record s.uksm { rshash_neg = c })
                (sym (ap {A = Stable} (λ x. x.uksm.rshash_neg) same));
        spent = omega (arith, ap {A = Stable} (λ x. x.uksm.rshash_neg) same);
        refs = ap {A = Stable} (λ x. x.page_refs) same;
        locks = ap {A = Stable} (λ x. x.page_locks) same;
        listp = ap {A = Stable} (λ x. x.stable_tree_node_listp) same;
        treep = ap {A = Stable} (λ x. x.root_stable_treep) same;
        index = ap {A = Stable} (λ x. x.stable_tree_index) same;
        idle = λ j ne. ap {A = Stable} (λ x. x.stable_tree_node_list j) kept;
      }
