-- ===== src/DirtPages/StableTree/Rebuild/Step.antt =====
-- dirtPages.c: `stable_node_reinsert` as a whole. With tables, words and strengths in range it ends,
-- meets no BUG, and puts the node into a right tree.
use random_c_code_snippets_b.Prelude.{
  true≢false, if◌then◌else◌, ◌==◌, ℕ, ◌+◌, ◌*◌, ◌^◌, ◌≤◌, ◌<◌, ◌≡◌, ◌≢◌, sym, ap, ◌∙◌, subst, arith,
  List, [], ◌∷◌, Option, none, some, ok, Ensures, Ensures-mono, Ensures-bind, ◌>>=◌, true, false,
  All, All-In, In, ==_iff, Bool-cases, inl, inr,
}
use random_c_code_snippets_b.DirtPages.{hash_strength_max}
use random_c_code_snippets_b.DirtPages.Rbtree.{in_order, RbSide}
use random_c_code_snippets_b.DirtPages.Rbtree.Order.{Meets, descend-Meets}
use random_c_code_snippets_b.DirtPages.StableTree.{
  remove_node_from_stable_tree, Stable, Kernel, get_page, put_page,
}
use random_c_code_snippets_b.DirtPages.StableTree.Keyhole.Passes.{
  IsOutside, Checked, Moved, get_uksm_page_lem,
}
use random_c_code_snippets_b.DirtPages.StableTree.Rebuild.{
  stable_node_hash_max, add_node, join_single, join_many, join_beside, new_group,
  stable_node_reinsert,
}
use random_c_code_snippets_b.DirtPages.StableTree.Rebuild.Shape.{hash_at, full_hash}
use random_c_code_snippets_b.DirtPages.StableTree.Rebuild.Building.{
  refs-Sane, Setting, Building, Quiet, Quiet-put_page, Moved-Quiet, Quiet-Building, roots,
}
use random_c_code_snippets_b.DirtPages.StableTree.Rebuild.Linking.{Outside}
use random_c_code_snippets_b.DirtPages.StableTree.Rebuild.Caching.{
  IsSetting, Cached, hash_max-Cached,
}
use random_c_code_snippets_b.DirtPages.StableTree.Rebuild.Reinsert.{
  Placed-mono, Placed, Quiet-Placed, new-Placed,
}
use random_c_code_snippets_b.DirtPages.StableTree.Rebuild.Joins.{
  IsSingle, one_node-IsSingle, join_many-Placed, join_beside-Placed,
}
use random_c_code_snippets_b.DirtPages.StableTree.Rebuild.Reuse.{reuse-Placed}

module _ (k : Kernel) (g : Setting) (set : IsSetting g) (others : IsOutside k g.content) where
  Quiet-Outside :
      (cost n : ℕ) (s v : Stable) → Quiet k g cost s v → Outside k g n s → Outside k g n v
  Quiet-Outside cost n s v q outside t e = outside t (sym (q.links n) ∙ e)

  module _ (n : ℕ) (s : Stable) (b : Building k g s) (outside : Outside k g n s) (t hash : ℕ)
      (on : In t (roots k g s)) (same : hash ≡ hash_at g.table g.content g.strength n)
      (met : (s.tree_nodes t).hash ≡ hash)
      (own : (s.stable_nodes n).hash_max ≡ full_hash g.table g.content n) where
    -- What a look at nodes leaves of these facts.
    module _ (cost : ℕ) (v : Stable) (q : Quiet k g cost s v) where
      later_trees : v.tree_nodes ≡ s.tree_nodes
      later_trees = ap {A = Stable} (λ x. x.tree_nodes) q.same

      later_group : v.tree_nodes t ≡ s.tree_nodes t
      later_group = ap (λ f. f t) later_trees

      later_on : In t (roots k g v)
      later_on = subst (In t) (sym (ap {A = Stable} (roots k g) q.same)) on

      later_hash : hash_at g.table g.content g.strength n ≡ (v.tree_nodes t).hash
      later_hash = sym same ∙ sym met ∙ ap (λ x. x.hash) (sym later_group)

    module _ (m : ℕ) (single : IsSingle m (s.tree_nodes t).sub_root)
        (one : (s.tree_nodes t).count ≡ 1)
        (room : s.uksm.rshash_neg + hash_strength_max < 2 ^ 64) where
      stale-Placed :
          (seen : Stable)
          → Moved k g.content s seen
          → Placed k g n hash_strength_max s
              (add_node k n t [] (remove_node_from_stable_tree k m true false seen))
      stale-Placed seen moved =
          let q = Moved-Quiet k g s seen b.sane moved in
          let group = later_group 0 seen q in
          Placed-mono k g n 0 hash_strength_max s _ (omega arith) (
            Quiet-Placed k g n 0 0 s seen _ q (
              reuse-Placed k g n m seen (Quiet-Building k g 0 s seen q b)
                (Quiet-Outside 0 n s seen q outside) t (later_on 0 seen q) (later_hash 0 seen q)
                (ap (λ x. x.count) group ∙ one)
                (ap (λ x. in_order x.sub_root) group ∙ single.nodes)))

      valid-Placed :
          (seen : Stable) (page : ℕ)
          → Moved k g.content s seen
          → k.memory page ≡ g.content m
          → Ensures
              (stable_node_hash_max k m page hash (get_page page seen) >>= λ hashed.
                ok (join_beside k n t m (put_page page hashed)))
              (Placed k g n hash_strength_max s)
      valid-Placed seen page moved words =
          let (group, _) = All-In _ t (roots k g s) b.groups on in
          let q = Moved-Quiet k g s seen b.sane moved in
          let theirs = (subst (All _) single.nodes group.members).0.1 in
          Ensures-bind _ _ (Cached k g set m (get_page page seen)) _
            (hash_max-Cached k g set m page hash (get_page page seen)
              (refs-Sane k g (page ∷ seen.page_refs) seen q.sane) words (sym met ∙ sym theirs)
              (omega (arith, room, q.spent)))
            (λ hashed cached.
              let v = put_page page hashed in
              let q' = Quiet-put_page k g 0 hash_strength_max page s seen hashed q cached.0 in
              let group' = later_group hash_strength_max v q' in
              Quiet-Placed k g n hash_strength_max 0 s v _ q' (
                join_beside-Placed k g n v (Quiet-Building k g hash_strength_max s v q' b)
                  (Quiet-Outside hash_strength_max n s v q' outside) t
                  (later_on hash_strength_max v q') (later_hash hash_strength_max v q')
                  (q'.caching n own)
                  (subst
                    (λ x.
                      All (λ y. (v.stable_nodes y).hash_max ≡ full_hash g.table g.content y)
                        (in_order x.sub_root))
                    (sym group') (subst (All _) (sym single.nodes) (cached.1, tt)))
                  m (subst (λ x. IsSingle m x.sub_root) (sym group') single)))

      after_check :
          (r : Stable × Option ℕ)
          → Checked k g.content m true false s r
          → Ensures
              (elim r.1 [
                | none ↦ ok (add_node k n t [] r.0)
                | some page ↦ stable_node_hash_max k m page hash r.0 >>= λ hashed.
                    ok (join_beside k n t m (put_page page hashed))
              ])
              (Placed k g n hash_strength_max s)
      after_check (checked, none) (seen, moved, outcome) = rw outcome (stale-Placed seen moved)
      after_check (checked, some page) (seen, moved, outcome) =
          rw outcome.1 (valid-Placed seen page moved outcome.0)

    single-Placed :
        (s.tree_nodes t).count ≡ 1
        → s.uksm.rshash_neg + hash_strength_max < 2 ^ 64
        → Ensures (join_single k n t hash s) (Placed k g n hash_strength_max s)
    unfolding join_single
    single-Placed one room =
        let (group, _) = All-In _ t (roots k g s) b.groups on in
        let (m, single) =
          one_node-IsSingle (s.tree_nodes t).sub_root (omega (arith, group.size, one)) in
        let (r, run, checked) = get_uksm_page_lem k g.content others m true false s b.sane.kept in
        rw (single.root, run) (after_check m single one room r checked)

    many-Placed :
        (s.tree_nodes t).count ≢ 1 → Ensures (join_many k n t s) (Placed k g n hash_strength_max s)
    many-Placed several =
        let (group, filled) = All-In _ t (roots k g s) b.groups on in
        Ensures-mono (join_many k n t s) (Placed k g n 0 s) _
          (join_many-Placed k g n s b outside t on (sym same ∙ sym met) own
            (group.cached (omega (arith, several, filled))))
          (λ v. Placed-mono k g n 0 hash_strength_max s v (omega arith))

    met-Placed :
        s.uksm.rshash_neg + hash_strength_max < 2 ^ 64
        → Ensures
            (if (s.tree_nodes t).count == 1 then join_single k n t hash s else join_many k n t s)
            (Placed k g n hash_strength_max s)
    met-Placed room = elim (Bool-cases ((s.tree_nodes t).count == 1)) [
      | inl e ↦ rw e (single-Placed ((==_iff _ 1).0 e) room)
      | inr e ↦ rw e (many-Placed (λ h. true≢false (sym ((==_iff _ 1).1 h) ∙ e)))
    ]

  module _ (n page hash : ℕ) (s : Stable) (b : Building k g s) (outside : Outside k g n s)
      (words : k.memory page ≡ g.content n) (same : hash ≡ hash_at g.table g.content g.strength n)
      (mark : g.mark ≤ s.next_tree_node)
      (room : s.uksm.rshash_neg + 2 * hash_strength_max < 2 ^ 64) where
    abbrev key : ℕ → ℕ
    key t = (s.tree_nodes t).hash

    -- The end of the walk by `hash`.
    walked :
        (way : List RbSide) (found : Option ℕ)
        → Meets key hash (s.root_stable_tree g.index) way found
        → Ensures
            (elim found [
              | none ↦ ok (new_group k n way g.index g.index hash s)
              | some t ↦ stable_node_hash_max k n page hash s >>= λ hashed.
                  if (hashed.tree_nodes t).count == 1
                  then join_single k n t hash hashed
                  else join_many k n t hashed
            ])
            (Placed k g n (2 * hash_strength_max) s)
    walked way none meets =
        let (before, after, old, new, below, above) = meets s.next_tree_node in
        Placed-mono k g n 0 (2 * hash_strength_max) s _ (omega arith)
          (new-Placed k g n s b outside hash way before after mark (sym same) old new below above)
    walked way (some t) (met, on) =
        Ensures-bind _ _ (Cached k g set n s) _
          (hash_max-Cached k g set n page hash s b.sane words same (omega (arith, room)))
          (λ v cached.
            let q = cached.0 in
            Ensures-mono _ (Placed k g n hash_strength_max v) _
              (met-Placed n v (Quiet-Building k g hash_strength_max s v q b)
                (Quiet-Outside hash_strength_max n s v q outside) t hash
                (subst (In t) (sym (ap {A = Stable} (roots k g) q.same)) on) same
                (ap {A = Stable} (λ x. (x.tree_nodes t).hash) q.same ∙ met) cached.1
                (omega (arith, room, q.spent)))
              (λ w. Quiet-Placed k g n hash_strength_max hash_strength_max s v w q))

    -- The node joins the group with its hash, or a new one, or is left unlinked.
    pub reinsert-Placed :
        Ensures
          (stable_node_reinsert k n page g.index g.index hash s)
          (Placed k g n (2 * hash_strength_max) s)
    unfolding stable_node_reinsert
    reinsert-Placed = walked _ _ (descend-Meets key hash (s.root_stable_tree g.index) b.ordered)
