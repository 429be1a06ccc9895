-- ===== src/DirtPages/StableTree/Rebuild/Valid.antt =====
-- dirtPages.c: what the stable tree is between two rebuilds, and that `stable_tree_delta_hash`
-- takes it from one hash strength to another.
use random_c_code_snippets_b.Prelude.{
  ℕ, ◌+◌, ◌*◌, ◌%◌, ◌^◌, ◌≤◌, ◌<◌, ◌≡◌, ◌⊎◌, refl, sym, ap, ◌∙◌, arith, List, [], ◌∷◌, length, some,
  Returns, Returns-Ensures, Ensures, Ensures-bind, All, All-In, All-intro, All-map, In, Distinct,
  Increasing, remove, put, put_self, ==_refl,
}
use random_c_code_snippets_b.DirtPages.{Page, hash_strength_max}
use random_c_code_snippets_b.DirtPages.Sample.Positions.{IsTable, IsPage}
use random_c_code_snippets_b.DirtPages.Rbtree.{empty, in_order}
use random_c_code_snippets_b.DirtPages.StableTree.{Stable, Kernel, free_tree_node}
use random_c_code_snippets_b.DirtPages.StableTree.Keyhole.Passes.{IsOutside, Kept}
use random_c_code_snippets_b.DirtPages.StableTree.Rebuild.{
  free_tree_nodes, free_all_tree_nodes, stable_tree_delta_hash,
}
use random_c_code_snippets_b.DirtPages.StableTree.Rebuild.Shape.{hash_at, full_hash, IsGroup}
use random_c_code_snippets_b.DirtPages.StableTree.Rebuild.Building.{Setting, Building}
use random_c_code_snippets_b.DirtPages.StableTree.Rebuild.Loop.{Rebuilt, reinsert_all-Rebuilt}

-- The loop of `free_all_tree_nodes` changes the lists alone, and empties the one that it runs over.
free_tree_nodes_same :
    (list : List ℕ) (s : Stable)
    → free_tree_nodes list s
      ≡ record s { stable_tree_node_list = (free_tree_nodes list s).stable_tree_node_list }
unfolding free_tree_nodes free_tree_node
free_tree_nodes_same [] s = refl
free_tree_nodes_same (t ∷ rest) s = free_tree_nodes_same rest (free_tree_node t s)

free_tree_nodes_all :
    (list : List ℕ) (i : ℕ) (s : Stable)
    → s.stable_tree_node_list i ≡ list
    → (free_tree_nodes list s).stable_tree_node_list i ≡ []
unfolding free_tree_nodes free_tree_node
free_tree_nodes_all [] i s e = e
free_tree_nodes_all (t ∷ rest) i s e =
    free_tree_nodes_all rest i (free_tree_node t s) (ap (remove t) e ∙ rw (==_refl t) refl)

module _ (k : Kernel) (content : ℕ → Page) (table : List ℕ) where
  -- The stable tree and its nodes, hashed at a strength.
  pub record IsValid (strength : ℕ) (s : Stable) : Type 0 where
    pub pair : s.stable_tree_index < 2
    pub listp : s.stable_tree_node_listp ≡ s.stable_tree_index
    pub treep : s.root_stable_treep ≡ s.stable_tree_index
    pub idle : s.stable_tree_node_list ((s.stable_tree_index + 1) % 2) ≡ []
    pub distinct : Distinct s.stable_node_list
    pub random : s.uksm.random_nums ≡ table
    pub kept : Kept k content s
    pub caches :
        (n : ℕ)
        → ((s.stable_nodes n).hash_max ≡ 0)
          ⊎ ((s.stable_nodes n).hash_max ≡ full_hash table content n)
    pub linked :
        All
          (λ n.
            (t : ℕ)
            → (s.stable_nodes n).tree_node ≡ some t
            → (t < s.next_tree_node)
              × ((s.tree_nodes t).hash ≡ hash_at table content strength n)
              × In t (in_order (s.root_stable_tree s.root_stable_treep))
              × In n (in_order (s.tree_nodes t).sub_root))
          s.stable_node_list
    pub ordered :
        Increasing (λ t. (s.tree_nodes t).hash) (in_order (s.root_stable_tree s.root_stable_treep))
    pub groups :
        All
          (λ t.
            IsGroup table content strength s.stable_nodes t (s.tree_nodes t)
            × (1 ≤ (s.tree_nodes t).count)
            × (t < s.next_tree_node))
          (in_order (s.root_stable_tree s.root_stable_treep))

  module _ (outside : IsOutside k content) (positions : IsTable table)
      (words : (n : ℕ) → IsPage (content n)) where
    module _ (prev : ℕ) (s : Stable) (valid : IsValid prev s) (bounded : prev ≤ hash_strength_max)
        (tuned : s.uksm.hash_strength ≤ hash_strength_max)
        (room : s.uksm.rshash_neg + 2 * hash_strength_max * length s.stable_node_list
          < 2 ^ 64) where
      abbrev other : ℕ
      other = (s.stable_tree_index + 1) % 2

      abbrev setting : Setting
      setting = record {
        content = content;
        table = table;
        strength = s.uksm.hash_strength;
        index = other;
        mark = s.next_tree_node;
      }

      -- The state at the start of the loop.
      abbrev started : Stable
      started = record s {
        stable_tree_index = other;
        root_stable_tree = put s.root_stable_tree other empty;
      }

      started-Building : Building k setting started
      started-Building =
          let root = put_self s.root_stable_tree other empty in
          record {
            sane = record {
              random = valid.random;
              tuned = refl;
              kept = valid.kept;
              caches = valid.caches;
            };
            ordered = rw root tt;
            groups = rw root tt;
            fresh = rw root tt;
          }

      -- The states after the loop.
      abbrev freed : Stable → Stable
      freed built =
          free_all_tree_nodes built.stable_tree_node_listp
            (record built { root_stable_treep = other })

      abbrev pub IsDone : Stable → Type 0
      IsDone v =
          IsValid s.uksm.hash_strength v
          × (v.page_refs ≡ s.page_refs)
          × (v.page_locks ≡ s.page_locks)
          × (v.uksm ≡ record s.uksm { rshash_neg = v.uksm.rshash_neg })

      switched-IsDone :
          (built : Stable) (lists : ℕ → List ℕ)
          → Rebuilt k setting s.stable_node_list started built
          → lists s.stable_tree_index ≡ []
          → IsDone (record built {
            root_stable_treep = other;
            stable_tree_node_list = lists;
            stable_tree_node_listp = other;
          })
      switched-IsDone built lists r emptied =
          let b = r.building in
          let index : built.stable_tree_index ≡ other = r.frame.index in
          let back : (other + 1) % 2 ≡ s.stable_tree_index = omega (arith, valid.pair) in
          (
            record {
              pair = omega (arith, index);
              listp = sym index;
              treep = sym index;
              idle = ap (λ i. lists ((i + 1) % 2)) index ∙ ap lists back ∙ emptied;
              distinct = r.frame.distinct valid.distinct;
              random = b.sane.random;
              kept = b.sane.kept;
              caches = b.sane.caches;
              linked = All-intro _ built.stable_node_list (λ n on t link.
                  let (_, to, hash, up, down) =
                    r.current valid.distinct n (r.frame.list n on) on t link in
                  (to, hash, up, down));
              ordered = b.ordered;
              groups = All-intro _ _ (λ t on. (
                (All-In _ t _ b.groups on).0,
                (All-In _ t _ b.groups on).1,
                (All-In _ t _ b.fresh on).1,
              ));
            },
            r.frame.refs,
            r.frame.locks,
            r.frame.uksm,
          )

      pub delta_hash-Ensures : Ensures (stable_tree_delta_hash k prev s) IsDone
      unfolding stable_tree_delta_hash free_all_tree_nodes
      delta_hash-Ensures = rw valid.idle (
          Ensures-bind _ _ (Rebuilt k setting s.stable_node_list started) _
            (reinsert_all-Rebuilt k setting
              (record { positions = positions; words = words; strength = tuned }) outside prev
              bounded s.stable_node_list started started-Building
              (All-map _ _ _ (λ n h t link. ((h t link).0, (h t link).1)) valid.linked)
              valid.distinct (omega arith) room)
            (λ built r.
              let last = record built { root_stable_treep = other } in
              let list = built.stable_tree_node_list built.stable_tree_node_listp in
              let emptied = free_tree_nodes_all list built.stable_tree_node_listp last refl in
              let listp = r.frame.listp ∙ valid.listp in
              rw (free_tree_nodes_same list last, emptied)
                (switched-IsDone built (free_tree_nodes list last).stable_tree_node_list r
                  (ap (free_tree_nodes list last).stable_tree_node_list (sym listp) ∙ emptied))))

      -- Take a stable tree that is right for the hash strength `prev`, a table of positions in the
      -- page, pages of u32 words, strengths up to HASH_STRENGTH_MAX, and other CPUs that migrate a
      -- page only finitely often and with its words. If the counter of wasted work has room for two
      -- full hashes for each node, then the rebuild ends, meets no BUG, and leaves a tree that is
      -- right for the new strength: `root_stable_treep` is ordered by `hash`; each sub-tree is ordered
      -- by the full-strength hash, has as many nodes as `count` says, at least one, and the pages of
      -- its nodes have the tree node's hash; and each node left on the list that has a tree node is
      -- in the sub-tree of that tree node, which is in the tree. The rebuild holds the page
      -- references and locks that it held before, and changes no global of the hashing but that
      -- counter.
      pub stable_tree_delta_hash-IsValid : Returns (stable_tree_delta_hash k prev s) IsDone
      stable_tree_delta_hash-IsValid = Returns-Ensures _ IsDone delta_hash-Ensures
