-- ===== src/DirtPages/StableTree/Rebuild/Loop.antt =====
-- dirtPages.c: the loop of `stable_tree_delta_hash` over the stable nodes.
use random_c_code_snippets_b.Prelude.{
  Option-cases, ℕ, ◌+◌, ◌*◌, ◌^◌, ◌≤◌, ◌<◌, ◌≡◌, ◌≢◌, refl, sym, ap, ◌∙◌, subst, arith, List, [],
  ◌∷◌, length, Option, none, some, ok, Ensures, Ensures-mono, Ensures-bind, ◌>>=◌, false, All,
  All-In, All-intro, In, Distinct, remove-Distinct, inl, inr,
}
use random_c_code_snippets_b.DirtPages.{hash_strength_max}
use random_c_code_snippets_b.DirtPages.Hashing.Accounts.{page_hash_free}
use random_c_code_snippets_b.DirtPages.Sample.Positions.{IsTable}
use random_c_code_snippets_b.DirtPages.Sample.Delta.{delta_hash-sample}
use random_c_code_snippets_b.DirtPages.StableTree.{
  TreeNode, Stable, Kernel, get_page, put_page, remove_node_from_stable_tree,
}
use random_c_code_snippets_b.DirtPages.StableTree.Keyhole.Passes.{
  IsOutside, Checked, Moved, get_uksm_page_lem,
}
use random_c_code_snippets_b.DirtPages.StableTree.Removal.{unlinked, remove-forest, remove-standing}
use random_c_code_snippets_b.DirtPages.StableTree.Rebuild.{
  rehash, stable_node_reinsert, reinsert_one, reinsert_all,
}
use random_c_code_snippets_b.DirtPages.StableTree.Rebuild.Shape.{hash_at}
use random_c_code_snippets_b.DirtPages.StableTree.Rebuild.Building.{
  Setting, Sane, refs-Sane, Building, Moved-Quiet, Quiet-Building,
}
use random_c_code_snippets_b.DirtPages.StableTree.Rebuild.Frame.{
  Frame, Frame-refl, Frame-trans, Frame-mono, Frame-put_page, Quiet-Frame, remove-Frame,
}
use random_c_code_snippets_b.DirtPages.StableTree.Rebuild.Caching.{IsSetting}
use random_c_code_snippets_b.DirtPages.StableTree.Rebuild.Reinsert.{Placed, Current}
use random_c_code_snippets_b.DirtPages.StableTree.Rebuild.Step.{reinsert-Placed}

unlinked_kept :
    (k : Kernel) (n : ℕ) (link : Option ℕ) (trees : ℕ → TreeNode)
    → unlinked k n false link trees ≡ trees
unlinked_kept k n none trees = refl
unlinked_kept k n (some t) trees = refl

module _ (k : Kernel) (g : Setting) where
  pub refs-Building :
      (refs : List ℕ) (s : Stable) → Building k g s → Building k g (record s { page_refs = refs })
  refs-Building refs s b = record {
    sane = refs-Sane k g refs s b.sane;
    ordered = b.ordered;
    groups = b.groups;
    fresh = b.fresh;
  }

  same-Building :
      (s v : Stable)
      → Building k g s
      → v.uksm ≡ s.uksm
      → v.stable_nodes ≡ s.stable_nodes
      → v.tree_nodes ≡ s.tree_nodes
      → v.root_stable_tree g.index ≡ s.root_stable_tree g.index
      → v.next_tree_node ≡ s.next_tree_node
      → Building k g v
  same-Building s v b uksm nodes trees root next = record {
    sane = record {
      random = rw uksm b.sane.random;
      tuned = rw uksm b.sane.tuned;
      kept = λ n. rw nodes (b.sane.kept n);
      caches = λ n. rw nodes (b.sane.caches n);
    };
    ordered = rw (trees, root) b.ordered;
    groups = rw (nodes, trees, root) b.groups;
    fresh = rw (root, next) b.fresh;
  }

  -- A node that the old tree, at the strength `prev`, has linked.
  abbrev pub Old : ℕ → Stable → ℕ → Type 0
  Old prev s n =
      (t : ℕ)
      → (s.stable_nodes n).tree_node ≡ some t
      → (t < g.mark) × ((s.tree_nodes t).hash ≡ hash_at g.table g.content prev n)

  -- After the round for `n`.
  pub record Stepped (n cost : ℕ) (s v : Stable) : Type 0 where
    pub building : Building k g v
    pub frame : Frame k g cost s v
    pub others : (m : ℕ) → m ≢ n → (v.stable_nodes m).tree_node ≡ (s.stable_nodes m).tree_node
    pub current : Distinct s.stable_node_list → In n v.stable_node_list → Current k g n v

  -- After the rounds for `list`.
  pub record Rebuilt (list : List ℕ) (s v : Stable) : Type 0 where
    pub building : Building k g v
    pub frame : Frame k g (2 * hash_strength_max * length list) s v
    pub others : (m : ℕ) → ¬ In m list → (v.stable_nodes m).tree_node ≡ (s.stable_nodes m).tree_node
    pub current :
        Distinct s.stable_node_list
        → (m : ℕ) → In m list
        → In m v.stable_node_list
        → Current k g m v

  join_rounds :
      (n : ℕ) (rest : List ℕ) (s t v : Stable)
      → ¬ In n rest
      → Stepped n (2 * hash_strength_max) s t
      → Rebuilt rest t v
      → Rebuilt (n ∷ rest) s v
  join_rounds n rest s t v single p q = record {
    building = q.building;
    frame =
        subst (λ cost. Frame k g cost s v) (omega arith)
          (Frame-trans k g (2 * hash_strength_max) (2 * hash_strength_max * length rest) s t v
            p.frame q.frame);
    others = λ m out. q.others m (λ on. out (inr on)) ∙ p.others m (λ e. out (inl (sym e)));
    current = λ d m on kept. elim on [
      | inl e ↦
          subst (λ x. Current k g x v) e
            (λ u link.
              let kept' = q.frame.list n (subst (λ x. In x v.stable_node_list) (sym e) kept) in
              let (from, to, hash, up, down) =
                p.current d kept' u (sym (q.others n single) ∙ link) in
              let (up', down') =
                q.frame.members (p.frame.distinct d) u n
                  (subst (λ x. In x v.stable_node_list) (sym e) kept) up down in
              (from, omega (arith, to, q.frame.next), q.frame.hashes u to ∙ hash, up', down'))
      | inr later ↦ q.current (p.frame.distinct d) m later kept
    ];
  }

module _ (k : Kernel) (g : Setting) (set : IsSetting g) (outside : IsOutside k g.content) (prev : ℕ)
    (bounded : prev ≤ hash_strength_max) where
  rehash_lem :
      (n page : ℕ) (s : Stable)
      → Sane k g s
      → Old k g prev s n
      → k.memory page ≡ g.content n
      → rehash k prev n page s ≡ ok (s, hash_at g.table g.content g.strength n)
  unfolding rehash
  rehash_lem n page s sane old words =
      let positions = subst IsTable (sym sane.random) set.positions in
      elim (Option-cases (s.stable_nodes n).tree_node) [
        | inl e ↦
            rw (rehash, e, words)
              (rw
                (page_hash_free s.uksm (g.content n) positions (set.words n) s.uksm.hash_strength
                  (rw sane.tuned set.strength))
                (rw (sane.random, sane.tuned) refl))
        | inr (t, e) ↦
            rw (rehash, e, words, (old t e).1, sane.random, sane.tuned)
              (rw
                (delta_hash-sample set.positions (set.words n) prev g.strength bounded set.strength)
                refl)
      ]

  -- A stale node is off the list, and the tree is as it was.
  gone-Stepped :
      (n : ℕ) (s seen : Stable)
      → Building k g s
      → Moved k g.content s seen
      → Stepped k g n (2 * hash_strength_max) s (remove_node_from_stable_tree k n false false seen)
  gone-Stepped n s seen b moved =
      let q = Moved-Quiet k g s seen b.sane moved in
      let b' = Quiet-Building k g 0 s seen q b in
      let kept = remove-forest k n false seen in
      let trees =
        ap {A = Stable} (λ x. x.tree_nodes) kept
        ∙ unlinked_kept k n (seen.stable_nodes n).tree_node seen.tree_nodes in
      record {
        building =
            same-Building k g seen _ b' (ap {A = Stable} (λ x. x.uksm) kept)
              (ap {A = Stable} (λ x. x.stable_nodes) kept) trees
              (ap {A = Stable} (λ x. x.root_stable_tree g.index) kept)
              (ap {A = Stable} (λ x. x.next_tree_node) kept);
        frame = Frame-mono k g 0 (2 * hash_strength_max) s _ (omega arith) (
            Frame-trans k g 0 0 s seen _ (Quiet-Frame k g 0 s seen q)
              (remove-Frame k g n false seen));
        others = λ m ne. ap {A = Stable} (λ x. (x.stable_nodes m).tree_node) kept ∙ q.links m;
        current = λ d on. absurd (
            remove-Distinct n seen.stable_node_list
              (subst Distinct (sym (ap {A = Stable} (λ x. x.stable_node_list) q.same)) d)
              (subst (In n) (remove-standing k n false false seen).1 on));
      }

  -- A valid node comes into the new tree.
  valid-Stepped :
      (n page : ℕ) (s seen : Stable)
      → Building k g s
      → Old k g prev s n
      → g.mark ≤ s.next_tree_node
      → s.uksm.rshash_neg + 2 * hash_strength_max < 2 ^ 64
      → Moved k g.content s seen
      → k.memory page ≡ g.content n
      → Ensures
          (rehash k prev n page (get_page page seen) >>= λ r.
            stable_node_reinsert k n page g.index g.index r.1 r.0 >>= λ done.
            ok (put_page page done))
          (Stepped k g n (2 * hash_strength_max) s)
  valid-Stepped n page s seen b old mark room moved words =
      let q = Moved-Quiet k g s seen b.sane moved in
      let held = refs-Building k g (page ∷ seen.page_refs) seen (Quiet-Building k g 0 s seen q b) in
      let hash_same = (λ (t : ℕ). ap {A = Stable} (λ x. (x.tree_nodes t).hash) q.same) in
      let next = ap {A = Stable} (λ x. x.next_tree_node) q.same in
      rw
        (rehash_lem n page (get_page page seen) held.sane
          (λ t e. let (before, hash) = old t (sym (q.links n) ∙ e) in (before, hash_same t ∙ hash))
          words)
        (Ensures-bind _ _ (Placed k g n (2 * hash_strength_max) (get_page page seen)) _
          (reinsert-Placed k g set outside n page _ (get_page page seen) held
            (λ t e. (old t (sym (q.links n) ∙ e)).0) words refl (omega (arith, mark, next))
            (omega (arith, room, q.spent)))
          (λ v p. record {
            building = refs-Building k g _ v p.building;
            frame =
                Frame-trans k g 0 (2 * hash_strength_max) s seen _ (Quiet-Frame k g 0 s seen q)
                  (Frame-put_page k g (2 * hash_strength_max) page seen v p.frame);
            others = λ m ne. p.others m ne ∙ q.links m;
            current = λ d on. p.current;
          }))

  module _ (n : ℕ) (s : Stable) (b : Building k g s) (old : Old k g prev s n)
      (mark : g.mark ≤ s.next_tree_node)
      (room : s.uksm.rshash_neg + 2 * hash_strength_max < 2 ^ 64) where
    looked-Stepped :
        (r : Stable × Option ℕ)
        → Checked k g.content n false false s r
        → Ensures
            (elim r.1 [
              | none ↦ ok r.0
              | some page ↦ rehash k prev n page r.0 >>= λ x.
                  stable_node_reinsert k n page g.index g.index x.1 x.0 >>= λ done.
                  ok (put_page page done)
            ])
            (Stepped k g n (2 * hash_strength_max) s)
    looked-Stepped (checked, none) (seen, moved, outcome) =
        rw outcome (gone-Stepped n s seen b moved)
    looked-Stepped (checked, some page) (seen, moved, outcome) =
        rw outcome.1 (valid-Stepped n page s seen b old mark room moved outcome.0)

    pub reinsert_one-Stepped :
        Ensures (reinsert_one k prev g.index n s) (Stepped k g n (2 * hash_strength_max) s)
    unfolding reinsert_one
    reinsert_one-Stepped =
        let (r, run, checked) = get_uksm_page_lem k g.content outside n false false s b.sane.kept in
        rw run (looked-Stepped r checked)

  pub reinsert_all-Rebuilt :
      (list : List ℕ) (s : Stable)
      → Building k g s
      → All (Old k g prev s) list
      → Distinct list
      → g.mark ≤ s.next_tree_node
      → s.uksm.rshash_neg + 2 * hash_strength_max * length list < 2 ^ 64
      → Ensures (reinsert_all k prev g.index list s) (Rebuilt k g list s)
  unfolding reinsert_all
  reinsert_all-Rebuilt [] s b old distinct mark room = record {
    building = b;
    frame = Frame-refl k g s;
    others = λ m out. refl;
    current = λ d m on. absurd on;
  }
  reinsert_all-Rebuilt (n ∷ rest) s b old distinct mark room =
      Ensures-bind _ _ (Stepped k g n (2 * hash_strength_max) s) _
        (reinsert_one-Stepped n s b old.0 mark (omega (arith, room)))
        (λ t p.
          Ensures-mono _ (Rebuilt k g rest t) _
            (reinsert_all-Rebuilt rest t p.building
              (All-intro _ rest (λ m on u link.
                let apart = (λ (e : m ≡ n). distinct.0 (subst (λ x. In x rest) e on)) in
                let (before, hash) = All-In _ m rest old.1 on u (sym (p.others m apart) ∙ link) in
                (before, p.frame.hashes u (omega (arith, before, mark)) ∙ hash)))
              distinct.1 (omega (arith, mark, p.frame.next)) (omega (arith, room, p.frame.spent)))
            (λ v q. join_rounds k g n rest s t v distinct.0 p q))
