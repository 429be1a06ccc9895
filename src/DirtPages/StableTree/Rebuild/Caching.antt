-- ===== src/DirtPages/StableTree/Rebuild/Caching.antt =====
-- dirtPages.c: `stable_node_hash_max` during a rebuild.
use random_c_code_snippets_b.Prelude.{
  ℕ, true≢false, ◌+◌, ◌-◌, ◌⊎◌, ◌^◌, ◌≤◌, ◌<◌, ◌≡◌, refl, sym, ap, ◌∙◌, subst, arith, ◌==◌, ==_iff,
  Bool-cases, inl, inr, ok, Ensures, put, put_self, put_ne, put_field, ℕ_discrete,
}
use random_c_code_snippets_b.DirtPages.{Uksm, hash_strength_max}
use random_c_code_snippets_b.DirtPages.Sample.Positions.{IsTable, IsPage}
use random_c_code_snippets_b.DirtPages.Hashing.{page_hash_max}
use random_c_code_snippets_b.DirtPages.Hashing.Accounts.{page_hash_max_lem}
use random_c_code_snippets_b.DirtPages.StableTree.{StableNode, Stable, Kernel}
use random_c_code_snippets_b.DirtPages.StableTree.Rebuild.{stable_node_hash_max}
use random_c_code_snippets_b.DirtPages.StableTree.Rebuild.Shape.{full_hash, hash_at}
use random_c_code_snippets_b.DirtPages.StableTree.Rebuild.Building.{Setting, Sane, Quiet}

-- What a rebuild needs of its setting: positions and words in range, and the strength too.
pub record IsSetting (g : Setting) : Type 0 where
  pub positions : IsTable g.table
  pub words : (n : ℕ) → IsPage (g.content n)
  pub strength : g.strength ≤ hash_strength_max

module _ (k : Kernel) (g : Setting) (set : IsSetting g) where
  -- The state with the cache of `n` filled.
  abbrev pub Cached : ℕ → Stable → Stable → Type 0
  Cached n s v =
      Quiet k g hash_strength_max s v
      × ((v.stable_nodes n).hash_max ≡ full_hash g.table g.content n)

  module _ (n page hash : ℕ) (s : Stable) (sane : Sane k g s) (words : k.memory page ≡ g.content n)
      (same : hash ≡ hash_at g.table g.content g.strength n)
      (room : s.uksm.rshash_neg + hash_strength_max < 2 ^ 64) where
    abbrev paid : Uksm
    paid = record s.uksm {
      rshash_neg = s.uksm.rshash_neg + (hash_strength_max - s.uksm.hash_strength);
    }

    hash_max_run :
        page_hash_max (k.memory page) hash s.uksm ≡ ok (paid, full_hash g.table g.content n)
    hash_max_run =
        rw (words, same)
          (rw (← sane.random, ← sane.tuned)
            (page_hash_max_lem s.uksm (g.content n) (subst IsTable (sym sane.random) set.positions)
              (set.words n) (rw sane.tuned set.strength) room))

    abbrev filled : StableNode
    filled = record (s.stable_nodes n) { hash_max = full_hash g.table g.content n }

    filling :
        (P : ℕ → ℕ → Type 0) (m : ℕ)
        → P n (full_hash g.table g.content n)
        → P m (s.stable_nodes m).hash_max
        → P m (put s.stable_nodes n filled m).hash_max
    filling P m p h = elim (ℕ_discrete m n) [
      | yes e ↦ rw (e, put_self s.stable_nodes n filled) p
      | no ne ↦ rw (put_ne s.stable_nodes n filled m ne) h
    ]

  pub hash_max-Cached :
      (n page hash : ℕ) (s : Stable)
      → Sane k g s
      → k.memory page ≡ g.content n
      → hash ≡ hash_at g.table g.content g.strength n
      → s.uksm.rshash_neg + hash_strength_max < 2 ^ 64
      → Ensures (stable_node_hash_max k n page hash s) (Cached n s)
  unfolding stable_node_hash_max
  hash_max-Cached n page hash s sane words same room =
      elim (Bool-cases ((s.stable_nodes n).hash_max == 0)) [
        | inl e ↦
            rw (e, hash_max_run n page hash s sane words same room)
              (
                record {
                  same = refl;
                  links = put_field (λ x. x.tree_node) s.stable_nodes n _ refl;
                  caching = λ m h.
                      filling n page hash s sane words same room
                        (λ x c. c ≡ full_hash g.table g.content x) m refl h;
                  uksm = refl;
                  spent = omega arith;
                  sane = record {
                    random = sane.random;
                    tuned = sane.tuned;
                    kept = λ m.
                        ap k.memory (put_field (λ x. x.kpfn) s.stable_nodes n _ refl m)
                        ∙ sane.kept m;
                    caches = λ m.
                        filling n page hash s sane words same room
                          (λ x c. (c ≡ 0) ⊎ (c ≡ full_hash g.table g.content x)) m (inr refl)
                          (sane.caches m);
                  };
                },
                ap (λ x. x.hash_max) (put_self s.stable_nodes n _),
              )
        | inr e ↦ rw e (
          record {
            same = refl;
            links = λ m. refl;
            caching = λ m h. h;
            uksm = refl;
            spent = omega arith;
            sane = sane;
          },
          elim (sane.caches n) [
            | inl h ↦ absurd (true≢false (sym ((==_iff _ 0).1 h) ∙ e))
            | inr h ↦ h
          ],
        )
      ]
