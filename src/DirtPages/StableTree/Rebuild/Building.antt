-- ===== src/DirtPages/StableTree/Rebuild/Building.antt =====
-- dirtPages.c: the state during a rebuild of the stable tree. The groups of the new tree are right,
-- and the steps that only look at nodes keep them so.
use random_c_code_snippets_b.Prelude.{
  inr, inl, All-map, ℕ, ◌+◌, ◌≤◌, ◌<◌, ◌≡◌, ◌⊎◌, refl, sym, ap, ◌∙◌, arith, List, All, Increasing,
  remove, ==_refl,
}
use random_c_code_snippets_b.DirtPages.{Page, Uksm}
use random_c_code_snippets_b.DirtPages.Rbtree.{in_order}
use random_c_code_snippets_b.DirtPages.StableTree.{
  StableNode, TreeNode, Stable, Kernel, get_page, put_page,
}
use random_c_code_snippets_b.DirtPages.StableTree.Keyhole.Passes.{Kept, Moved}
use random_c_code_snippets_b.DirtPages.StableTree.Rebuild.Shape.{full_hash, IsGroup, IsGroup-nodes}

-- The words of each node's page, the table of positions, the strength of the new tree, its index in
-- `root_stable_tree`, and the first address that its tree nodes can have.
pub record Setting : Type 0 where
  pub content : ℕ → Page
  pub table : List ℕ
  pub strength : ℕ
  pub index : ℕ
  pub mark : ℕ

module _ (k : Kernel) (g : Setting) where
  pub record Sane (s : Stable) : Type 0 where
    pub random : s.uksm.random_nums ≡ g.table
    pub tuned : s.uksm.hash_strength ≡ g.strength
    pub kept : Kept k g.content s
    pub caches :
        (n : ℕ)
        → ((s.stable_nodes n).hash_max ≡ 0)
          ⊎ ((s.stable_nodes n).hash_max ≡ full_hash g.table g.content n)

  pub refs-Sane : (refs : List ℕ) (s : Stable) → Sane s → Sane (record s { page_refs = refs })
  refs-Sane refs s sane = record {
    random = sane.random;
    tuned = sane.tuned;
    kept = sane.kept;
    caches = sane.caches;
  }

  abbrev pub Group : (ℕ → StableNode) → ℕ → TreeNode → Type 0
  Group nodes t group = IsGroup g.table g.content g.strength nodes t group × (1 ≤ group.count)

  abbrev pub roots : Stable → List ℕ
  roots s = in_order (s.root_stable_tree g.index)

  pub record Building (s : Stable) : Type 0 where
    pub sane : Sane s
    pub ordered : Increasing (λ t. (s.tree_nodes t).hash) (roots s)
    pub groups : All (λ t. Group s.stable_nodes t (s.tree_nodes t)) (roots s)
    pub fresh : All (λ t. (g.mark ≤ t) × (t < s.next_tree_node)) (roots s)

  -- The state `v` is `s` but for what looking at nodes changes, at a cost of at most `cost`.
  pub record Quiet (cost : ℕ) (s v : Stable) : Type 0 where
    pub same : v ≡ record s { uksm = v.uksm; stable_nodes = v.stable_nodes; calls = v.calls }
    pub links : (m : ℕ) → (v.stable_nodes m).tree_node ≡ (s.stable_nodes m).tree_node
    pub caching :
        (m : ℕ)
        → (s.stable_nodes m).hash_max ≡ full_hash g.table g.content m
        → (v.stable_nodes m).hash_max ≡ full_hash g.table g.content m
    pub uksm : v.uksm ≡ record s.uksm { rshash_neg = v.uksm.rshash_neg }
    pub spent : v.uksm.rshash_neg ≤ s.uksm.rshash_neg + cost
    pub sane : Sane v

  pub Quiet-trans : (i j : ℕ) (s t v : Stable) → Quiet i s t → Quiet j t v → Quiet (i + j) s v
  Quiet-trans i j s t v p q = record {
    same =
        q.same
        ∙ ap {A = Stable}
            (λ x. record x { uksm = v.uksm; stable_nodes = v.stable_nodes; calls = v.calls })
            p.same;
    links = λ m. q.links m ∙ p.links m;
    caching = λ m h. q.caching m (p.caching m h);
    uksm = q.uksm ∙ ap {A = Uksm} (λ x. record x { rshash_neg = v.uksm.rshash_neg }) p.uksm;
    spent = omega (arith, p.spent, q.spent);
    sane = q.sane;
  }

  -- A page reference that is given back.
  pub Quiet-put_page :
      (i j page : ℕ) (s t v : Stable)
      → Quiet i s t
      → Quiet j (get_page page t) v
      → Quiet (i + j) s (put_page page v)
  Quiet-put_page i j page s t v p q =
      let back : put_page page (get_page page t) ≡ t = rw (==_refl page) refl in
      Quiet-trans i j s t _ p (record {
        same =
            ap {A = Stable} (put_page page) q.same
            ∙ ap {A = Stable}
                (λ x. record x { uksm = v.uksm; stable_nodes = v.stable_nodes; calls = v.calls })
                back;
        links = q.links;
        caching = q.caching;
        uksm = q.uksm;
        spent = q.spent;
        sane = refs-Sane (remove page v.page_refs) v q.sane;
      })

  pub Moved-Quiet : (s v : Stable) → Sane s → Moved k g.content s v → Quiet 0 s v
  Moved-Quiet s v sane moved =
      let uksm : v.uksm ≡ s.uksm = ap {A = Stable} (λ x. x.uksm) moved.same in
      record {
        same =
            moved.same
            ∙ ap {A = Uksm}
                (λ u. record s { uksm = u; stable_nodes = v.stable_nodes; calls = v.calls })
                (sym uksm);
        links = λ m. ap {A = StableNode} (λ x. x.tree_node) (moved.nodes m);
        caching = λ m h. ap {A = StableNode} (λ x. x.hash_max) (moved.nodes m) ∙ h;
        uksm =
            uksm
            ∙ ap {A = ℕ} (λ n. record s.uksm { rshash_neg = n })
                (ap (λ x. x.rshash_neg) (sym uksm));
        spent = omega (arith, ap (λ x. x.rshash_neg) uksm);
        sane = record {
          random = ap (λ x. x.random_nums) uksm ∙ sane.random;
          tuned = ap (λ x. x.hash_strength) uksm ∙ sane.tuned;
          kept = moved.kept;
          caches = λ m.
              let e = ap {A = StableNode} (λ x. x.hash_max) (moved.nodes m) in
              elim (sane.caches m) [ inl h ↦ inl (e ∙ h) | inr h ↦ inr (e ∙ h) ];
        };
      }

  pub Quiet-Building : (cost : ℕ) (s v : Stable) → Quiet cost s v → Building s → Building v
  Quiet-Building cost s v q b = record {
    sane = q.sane;
    ordered = rw q.same b.ordered;
    groups = rw q.same (
        All-map _ _ (roots s)
          (λ t h. (
            IsGroup-nodes g.table g.content g.strength s.stable_nodes t (s.tree_nodes t) h.0
                v.stable_nodes (λ m link. q.links m ∙ link) q.caching,
            h.1,
          ))
          b.groups);
    fresh = rw q.same b.fresh;
  }
