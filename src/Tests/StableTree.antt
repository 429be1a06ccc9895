-- ===== src/Tests/StableTree.antt =====
-- Examples for the modules on the stable tree: a kernel whose trees are rebuilt from their order, and
-- three stable nodes, the page of the last of which is gone.
use random_c_code_snippets_b.Prelude.{
  ℕ, ◌≡◌, refl, ap, arith, List, [], ◌∷◌, Option, none, some, true, false, ◌==◌, if◌then◌else◌, ok,
  Returns, inl, inr, remove, Bool-cases,
}
use random_c_code_snippets_b.DirtPages.{Page, Uksm}
use random_c_code_snippets_b.DirtPages.Sample.Positions.{IsPage}
use random_c_code_snippets_b.DirtPages.Hashing.ZeroPage.{zero_page, zero_page-IsPage}
use random_c_code_snippets_b.DirtPages.Rbtree.{RbTree, empty, node, in_order, Rbtree}
use random_c_code_snippets_b.DirtPages.StableTree.{
  StableNode, Stable, Attempt, Kernel, remove_node_from_stable_tree,
}
use random_c_code_snippets_b.DirtPages.StableTree.Keyhole.{get_uksm_page}
use random_c_code_snippets_b.DirtPages.StableTree.Keyhole.Passes.{IsOutside}
use random_c_code_snippets_b.DirtPages.StableTree.Keyhole.Verdict.{
  Verdict, leaving, naming, get_uksm_page-Verdict,
}
use random_c_code_snippets_b.DirtPages.StableTree.Removal.{IsCounted, remove_node-IsCounted}
use random_c_code_snippets_b.DirtPages.StableTree.Rebuild.{stable_tree_delta_hash, rshash_adjust}
use random_c_code_snippets_b.DirtPages.StableTree.Rebuild.Valid.{
  IsValid, IsDone, stable_tree_delta_hash-IsValid,
}
use random_c_code_snippets_b.DirtPages.StableTree.Rebuild.Rounds.{
  IsSettled, Round, rshash_adjust-IsSettled,
}
use random_c_code_snippets_b.DirtPages.{rshash_trydown}
use random_c_code_snippets_b.DirtPages.Benefit.{encode_benefit, encoded, accumulate}
use random_c_code_snippets_b.DirtPages.Adjust.Invariant.{IsTuned}
use random_c_code_snippets_b.Tests.{
  busy, drained_fresh, table, table-IsTable, page, page-IsPage, sampling,
}

abbrev from_list : List ℕ → RbTree
from_list [] = empty
from_list (x ∷ xs) = node empty x (from_list xs)

in_order-from_list : (xs : List ℕ) → in_order (from_list xs) ≡ xs
in_order-from_list [] = refl
in_order-from_list (x ∷ xs) = ap (λ ys. x ∷ ys) (in_order-from_list xs)

abbrev rbtree : Rbtree
rbtree = record {
  rb_insert_color = λ x t. from_list (in_order t);
  rb_erase = λ x t. from_list (remove x (in_order t));
  in_order-insert_color = λ x t. in_order-from_list (in_order t);
  in_order-erase = λ x t. in_order-from_list (remove x (in_order t));
}

-- A pass without a migration.
abbrev pass : Option ℕ → Attempt
pass owner = record {
  mapping = owner;
  swap_cache = true ∷ [];
  mapping_referenced = owner;
  mapping_locked = owner;
  migrated = none;
}

abbrev memory : ℕ → Page
memory pfn = if pfn == 1 then page else zero_page

abbrev kernel : Kernel
kernel = record {
  rbtree = rbtree;
  memory = memory;
  zalloc = λ t. true;
  attempts = λ call n. pass (if n == 3 then none else some n) ∷ [];
}

outside : IsOutside kernel memory
outside = record { settles = λ call n. inl refl; copies = λ call n. ((λ pfn e. absurd (cc)), tt) }

words : (n : ℕ) → IsPage (memory n)
words n = elim (Bool-cases (n == 1)) [ inl e ↦ rw e page-IsPage | inr e ↦ rw e zero_page-IsPage ]

abbrev stable_node : ℕ → StableNode
stable_node n = record { tree_node = none; hlist = (n ∷ n ∷ []) ∷ []; kpfn = n; hash_max = 0 }

-- No node is in the tree yet.
abbrev three_nodes : Stable
three_nodes = record {
  uksm = sampling;
  stable_nodes = stable_node;
  tree_nodes = λ t. record { sub_root = empty; hash = 0; count = 0 };
  rmap_items = λ r. record { address = r; anon_vma = r };
  stable_node_list = 1 ∷ 2 ∷ 3 ∷ [];
  stable_tree_node_list = λ i. [];
  stable_tree_node_listp = 0;
  root_stable_tree = λ i. empty;
  root_stable_treep = 0;
  stable_tree_index = 0;
  uksm_pages_shared = 3;
  uksm_pages_sharing = 3;
  put_anon_vmas = [];
  page_refs = [];
  page_locks = [];
  next_tree_node = 100;
  calls = 0;
}

three_nodes-IsValid : (strength : ℕ) → IsValid kernel memory table strength three_nodes
three_nodes-IsValid strength = record {
  pair = omega arith;
  listp = refl;
  treep = refl;
  idle = refl;
  distinct = (
    (λ m. elim m [
      | inl e ↦ omega (arith, e)
      | inr h ↦ elim h [ inl e ↦ omega (arith, e) | inr n ↦ n ]
    ]),
    ((λ m. elim m [ inl e ↦ omega (arith, e) | inr n ↦ n ]), ((λ m. m), tt)),
  );
  random = refl;
  kept = λ n. refl;
  caches = λ n. inl refl;
  linked = ((λ t e. absurd (cc)), ((λ t e. absurd (cc)), ((λ t e. absurd (cc)), tt)));
  ordered = tt;
  groups = tt;
}

stable_tree_delta_hash-IsValid_example : Returns (stable_tree_delta_hash kernel 100 three_nodes) (
    IsDone kernel memory table outside table-IsTable words 100 three_nodes
      (three_nodes-IsValid 100)
      (omega arith)
      (omega arith)
      (omega arith))
stable_tree_delta_hash-IsValid_example =
    stable_tree_delta_hash-IsValid kernel memory table outside table-IsTable words 100 three_nodes
      (three_nodes-IsValid 100) (omega arith) (omega arith) (omega arith)

-- The page of the node 3 does not point back.
get_uksm_page-Verdict_example : Returns (get_uksm_page kernel 3 true false three_nodes) λ r.
    (last : ℕ) × Verdict 3 (kernel.attempts 0 3) 3 r.1 last
    × (r.0 ≡ leaving kernel 3 true false r.1 (naming 3 last (record three_nodes { calls = 1 })))
get_uksm_page-Verdict_example = get_uksm_page-Verdict kernel 3 true false three_nodes (inl refl)

three_nodes-IsCounted : IsCounted three_nodes
three_nodes-IsCounted = record {
  shared = refl;
  sharing = refl;
  used = (omega arith, (omega arith, (omega arith, tt)));
  bound = omega arith;
}

remove_node-IsCounted_example :
    IsCounted (remove_node_from_stable_tree kernel 2 true true three_nodes)
remove_node-IsCounted_example =
    remove_node-IsCounted kernel 2 true true three_nodes three_nodes-IsCounted (inr (inl refl))

-- A probe downwards, which lowers the strength.
abbrev probing : Uksm
probing = record (busy rshash_trydown) { random_nums = table }

abbrev drained_probing : Uksm
drained_probing = record drained_fresh { rshash_state = probing.rshash_state; random_nums = table }

probing_encoded : encode_benefit probing ≡ ok (drained_probing, true)
unfolding encode_benefit encoded accumulate
probing_encoded = refl

probing-IsTuned : IsTuned probing
probing-IsTuned = ground arith

abbrev probing_nodes : Stable
probing_nodes = record three_nodes { uksm = probing }

probing-IsSettled : IsSettled kernel memory table probing_nodes
probing-IsSettled =
    let v = three_nodes-IsValid 256 in
    (
      probing-IsTuned,
      record {
        pair = v.pair;
        listp = v.listp;
        treep = v.treep;
        idle = v.idle;
        distinct = v.distinct;
        random = refl;
        kept = v.kept;
        caches = v.caches;
        linked = v.linked;
        ordered = v.ordered;
        groups = v.groups;
      },
    )

rshash_adjust-IsSettled_example :
    Returns (rshash_adjust kernel probing_nodes) (Round kernel memory table probing_nodes)
rshash_adjust-IsSettled_example =
    rshash_adjust-IsSettled kernel memory table outside table-IsTable words probing_nodes
      drained_probing true probing-IsSettled probing_encoded (omega arith)
