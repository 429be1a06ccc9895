-- ===== src/DirtPages/StableTree/Rebuild.antt =====
-- dirtPages.c, section 13: the rebuild of the stable tree at a new hash strength,
-- `stable_node_reinsert` and `stable_tree_delta_hash`, and `rshash_adjust` as a whole.
pub mod Shape
pub mod Joining
pub mod Building
pub mod Linking
pub mod Frame
pub mod Caching
pub mod Reinsert
pub mod Joins
pub mod Reuse
pub mod Step
pub mod Loop
pub mod Valid
pub mod Rounds
use Prim.Native.Nat.{Ordering}
use random_c_code_snippets_b.Prelude.{
  ℕ, ◌+◌, ◌%◌, List, [], ◌∷◌, Bool, true, false, ◌==◌, if◌then◌else◌, Option, none, some, Run, ok,
  fault, out_of_bounds, bug, ◌>>=◌, put,
}
use random_c_code_snippets_b.Word.{u64}
use random_c_code_snippets_b.DirtPages.Hashing.{page_hash, page_hash_max, hash_cmp}
use random_c_code_snippets_b.DirtPages.Sample.{delta_hash}
use random_c_code_snippets_b.DirtPages.Adjust.{adjust_strength}
use random_c_code_snippets_b.DirtPages.Rbtree.{
  RbTree, empty, node, RbSide, rb_left, rb_right, descend, rb_link_node,
}
use random_c_code_snippets_b.DirtPages.StableTree.{
  StableNode, TreeNode, Stable, Kernel, put_page, free_tree_node, alloc_tree_node,
}
use random_c_code_snippets_b.DirtPages.StableTree.Keyhole.{get_uksm_page}

-- The label `failed` of `stable_node_reinsert`.
unfoldable pub leave_unlinked : ℕ → Stable → Stable
leave_unlinked n s = record s {
  stable_nodes = put s.stable_nodes n (record (s.stable_nodes n) { tree_node = none });
}

-- `rb_entry(root->rb_node, ...)`, read through a null pointer when the tree is empty.
unfoldable pub root_entry : RbTree → Run ℕ
root_entry empty = fault out_of_bounds
root_entry (node low m high) = ok m

-- `BUG_ON(!*new)`
unfoldable pub bug_on_empty : RbTree → Run (Unit {0})
bug_on_empty empty = fault bug
bug_on_empty (node low m high) = ok tt

module _ (k : Kernel) where
  -- `page` is the page frame whose words are hashed, `hash` the hash at the current strength.
  unfoldable pub stable_node_hash_max : ℕ → ℕ → ℕ → Stable → Run Stable
  stable_node_hash_max n page hash s =
      if (s.stable_nodes n).hash_max == 0
      then (do
        (v, hash_max) ← page_hash_max (k.memory page) hash s.uksm
        ok (record s {
          uksm = v;
          stable_nodes = put s.stable_nodes n (record (s.stable_nodes n) { hash_max = hash_max });
        }))
      else ok s

  -- The label `add_node`: `n` is linked into the sub-tree of `t`, at the place that `way` leads to.
  unfoldable pub add_node : ℕ → ℕ → List RbSide → Stable → Stable
  add_node n t way s =
      let parent = s.tree_nodes t in
      record s {
        tree_nodes = put s.tree_nodes t (record parent {
          sub_root = k.rbtree.rb_insert_color n (rb_link_node n way parent.sub_root);
          count = u64 (parent.count + 1);
        });
        stable_nodes = put s.stable_nodes n (record (s.stable_nodes n) { tree_node = some t });
      }

  -- The comparison of `hash_max` with that of the single node `m`.
  unfoldable pub join_beside : ℕ → ℕ → ℕ → Stable → Stable
  join_beside n t m s = elim (hash_cmp (s.stable_nodes n).hash_max (s.stable_nodes m).hash_max) [
    | Ordering.lt ↦ add_node n t (rb_left ∷ []) s
    | Ordering.gt ↦ add_node n t (rb_right ∷ []) s
    | Ordering.eq ↦ leave_unlinked n s
  ]

  -- The case `tree_node->count == 1`. A stale node makes room at the root of the sub-tree.
  unfoldable pub join_single : ℕ → ℕ → ℕ → Stable → Run Stable
  join_single n t hash s = do
    m ← root_entry (s.tree_nodes t).sub_root
    (checked, found) ← get_uksm_page k m true false s
    elim found [
      | none ↦ ok (add_node n t [] checked)
      | some page ↦ (do
        hashed ← stable_node_hash_max m page hash checked
        ok (join_beside n t m (put_page page hashed)))
    ]

  -- The search of the sub-tree by `hash_max`.
  unfoldable pub join_many : ℕ → ℕ → Stable → Run Stable
  join_many n t s = do
    let place =
        descend (λ m. hash_cmp (s.stable_nodes n).hash_max (s.stable_nodes m).hash_max)
          (s.tree_nodes t).sub_root
    _ ← bug_on_empty (s.tree_nodes t).sub_root
    ok (elim place.1 [ none ↦ add_node n t place.0 s | some same ↦ leave_unlinked n s ])

  -- No tree node has the hash: one is allocated for `n`.
  unfoldable pub new_group : ℕ → List RbSide → ℕ → ℕ → ℕ → Stable → Stable
  new_group n way root_treep tree_node_listp hash s =
      let t = s.next_tree_node in
      if k.zalloc t
      then (let fresh = alloc_tree_node tree_node_listp s in
          add_node n t [] (record fresh {
            tree_nodes = put fresh.tree_nodes t (record (fresh.tree_nodes t) { hash = hash });
            root_stable_tree = put fresh.root_stable_tree root_treep (
                k.rbtree.rb_insert_color t
                  (rb_link_node t way (fresh.root_stable_tree root_treep)));
          }))
      else leave_unlinked n s

  unfoldable pub stable_node_reinsert : ℕ → ℕ → ℕ → ℕ → ℕ → Stable → Run Stable
  stable_node_reinsert n page root_treep tree_node_listp hash s =
      let place =
        descend (λ t. hash_cmp hash (s.tree_nodes t).hash) (s.root_stable_tree root_treep) in
      elim place.1 [
        | none ↦ ok (new_group n place.0 root_treep tree_node_listp hash s)
        | some t ↦ (do
          hashed ← stable_node_hash_max n page hash s
          if (hashed.tree_nodes t).count == 1
              then join_single n t hash hashed
              else join_many n t hashed)
      ]

  -- The hash of the node's page at the new strength.
  unfoldable pub rehash : ℕ → ℕ → ℕ → Stable → Run (Stable × ℕ)
  rehash prev_hash_strength n page s = elim (s.stable_nodes n).tree_node [
    | some t ↦ (do
      hash ←
          delta_hash s.uksm.random_nums (k.memory page) prev_hash_strength s.uksm.hash_strength
            (s.tree_nodes t).hash
      ok (s, hash))
    | none ↦ (do
      (v, hash) ← page_hash (k.memory page) s.uksm.hash_strength false s.uksm
      ok (record s { uksm = v }, hash))
  ]

  -- The body of the loop of `stable_tree_delta_hash`.
  unfoldable pub reinsert_one : ℕ → ℕ → ℕ → Stable → Run Stable
  reinsert_one prev_hash_strength index n s = do
    (checked, found) ← get_uksm_page k n false false s
    elim found [
      | none ↦ ok checked
      | some page ↦ (do
        (hashed, hash) ← rehash prev_hash_strength n page checked
        done ← stable_node_reinsert n page index index hash hashed
        ok (put_page page done))
    ]

  unfoldable pub reinsert_all : ℕ → ℕ → List ℕ → Stable → Run Stable
  reinsert_all prev_hash_strength index [] s = ok s
  reinsert_all prev_hash_strength index (n ∷ rest) s = do
    done ← reinsert_one prev_hash_strength index n s
    reinsert_all prev_hash_strength index rest done

-- The loop of `free_all_tree_nodes`.
unfoldable pub free_tree_nodes : List ℕ → Stable → Stable
free_tree_nodes [] s = s
free_tree_nodes (t ∷ rest) s = free_tree_nodes rest (free_tree_node t s)

unfoldable pub free_all_tree_nodes : ℕ → Stable → Stable
free_all_tree_nodes list s = free_tree_nodes (s.stable_tree_node_list list) s

-- `BUG_ON(!list_empty(list))`
abbrev pub bug_on_nodes : List ℕ → Run (Unit {0})
bug_on_nodes [] = ok tt
bug_on_nodes (t ∷ rest) = fault bug

module _ (k : Kernel) where
  unfoldable pub stable_tree_delta_hash : ℕ → Stable → Run Stable
  stable_tree_delta_hash prev_hash_strength s = do
    let index = (s.stable_tree_index + 1) % 2
    _ ← bug_on_nodes (s.stable_tree_node_list index)
    built ← reinsert_all k prev_hash_strength index s.stable_node_list (record s {
      stable_tree_index = index;
      root_stable_tree = put s.root_stable_tree index empty;
    })
    let freed =
        free_all_tree_nodes built.stable_tree_node_listp
          (record built { root_stable_treep = index })
    _ ← bug_on_nodes (freed.stable_tree_node_list freed.stable_tree_node_listp)
    ok (record freed { stable_tree_node_listp = index })

  unfoldable pub rshash_adjust : Stable → Run (Stable × Bool)
  rshash_adjust s = do
    (v, changed) ← adjust_strength s.uksm
    if changed
        then (do
          rebuilt ← stable_tree_delta_hash s.uksm.hash_strength (record s { uksm = v })
          ok (rebuilt, true))
        else ok (record s { uksm = v }, false)
