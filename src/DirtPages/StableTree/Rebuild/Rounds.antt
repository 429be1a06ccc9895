-- ===== src/DirtPages/StableTree/Rebuild/Rounds.antt =====
-- dirtPages.c: `rshash_adjust` with the rebuild of the stable tree that ends it.
use random_c_code_snippets_b.Prelude.{
  if◌then◌else◌, ◌>>=◌, ℕ, ◌*◌, ◌^◌, ◌<◌, ◌≡◌, refl, sym, ap, ◌∙◌, subst, arith, List, length, ok,
  Bool, true, false, Ensures-both, Returns, Returns-Ensures, Ensures, Ensures-bind,
}
use random_c_code_snippets_b.DirtPages.{Page, Uksm, hash_strength_max}
use random_c_code_snippets_b.DirtPages.Benefit.{encode_benefit}
use random_c_code_snippets_b.DirtPages.Sample.Positions.{IsTable, IsPage}
use random_c_code_snippets_b.DirtPages.Adjust.{adjust_strength}
use random_c_code_snippets_b.DirtPages.Adjust.Invariant.{IsTuned, adjusted-IsTuned}
use random_c_code_snippets_b.DirtPages.Adjust.Untouched.{Adjusted, adjust_strength-Adjusted}
use random_c_code_snippets_b.DirtPages.StableTree.{Stable, Kernel}
use random_c_code_snippets_b.DirtPages.StableTree.Keyhole.Passes.{IsOutside}
use random_c_code_snippets_b.DirtPages.StableTree.Rebuild.{rshash_adjust, stable_tree_delta_hash}
use random_c_code_snippets_b.DirtPages.StableTree.Rebuild.Valid.{IsValid, delta_hash-Ensures}

IsTuned-neg : (u v : Uksm) → v ≡ record u { rshash_neg = v.rshash_neg } → IsTuned u → IsTuned v
IsTuned-neg u v e t =
    subst IsTuned (sym e) (record { strength = t.strength; delta = t.delta; points = t.points })

module _ (k : Kernel) (content : ℕ → Page) (table : List ℕ) where
  with_uksm :
      (strength : ℕ) (s : Stable) (v : Uksm)
      → v.random_nums ≡ table
      → IsValid k content table strength s
      → IsValid k content table strength (record s { uksm = v })
  with_uksm strength s v random valid = record {
    pair = valid.pair;
    listp = valid.listp;
    treep = valid.treep;
    idle = valid.idle;
    distinct = valid.distinct;
    random = random;
    kept = valid.kept;
    caches = valid.caches;
    linked = valid.linked;
    ordered = valid.ordered;
    groups = valid.groups;
  }

  -- Between two rounds: a strength in range, and a stable tree that is right for it.
  abbrev pub IsSettled : Stable → Type 0
  IsSettled s = IsTuned s.uksm × IsValid k content table s.uksm.hash_strength s

  -- What a round leaves, and holds as before.
  abbrev pub Round : Stable → Stable × Bool → Type 0
  Round s r = IsSettled r.0 × (r.0.page_refs ≡ s.page_refs) × (r.0.page_locks ≡ s.page_locks)

  module _ (outside : IsOutside k content) (positions : IsTable table)
      (words : (n : ℕ) → IsPage (content n)) where
    after_adjustment :
        (s : Stable) (r : Uksm × Bool)
        → IsSettled s
        → 2 * hash_strength_max * length s.stable_node_list < 2 ^ 64
        → IsTuned r.0
        → Adjusted s.uksm r
        → Ensures {A = Stable × Bool}
            (if r.1
              then (stable_tree_delta_hash k s.uksm.hash_strength (record s { uksm = r.0 })
                  >>= λ rebuilt. ok (rebuilt, true))
              else ok (record s { uksm = r.0 }, false))
            (Round s)
    after_adjustment s (v, true) (tuned, valid) room adjusted a =
        let quiet = a.quiet refl in
        Ensures-bind _ (λ rebuilt. ok (rebuilt, true)) _ (Round s)
          (delta_hash-Ensures k content table outside positions words s.uksm.hash_strength
            (record s { uksm = v }) (with_uksm _ s v (a.table ∙ valid.random) valid)
            tuned.strength.1 adjusted.strength.1 (omega (arith, quiet, room)))
          (λ w done. (
            (
              IsTuned-neg v w.uksm done.3 adjusted,
              subst (λ n. IsValid k content table n w)
                  (ap {A = Uksm} (λ x. x.hash_strength) (sym done.3)) done.0,
            ),
            done.1,
            done.2,
          ))
    after_adjustment s (v, false) (tuned, valid) room adjusted a = (
      (
        adjusted,
        subst (λ n. IsValid k content table n (record s { uksm = v })) (sym (a.same refl))
            (with_uksm _ s v (a.table ∙ valid.random) valid),
      ),
      refl,
      refl,
    )

    -- After every round of `rshash_adjust` whose `encode_benefit` ends, for other CPUs that migrate a
    -- page only finitely often and with its words, and for fewer stable nodes than
    -- 2 ^ 64 / (2 * HASH_STRENGTH_MAX): the round ends and meets no BUG, the state of the adjustment
    -- is again in range, the stable tree is right for the strength that the round has chosen,
    -- whichever that is, and the page references and locks held are those held before.
    pub rshash_adjust-IsSettled :
        (s : Stable) (v : Uksm) (encoded : Bool)
        → IsSettled s
        → encode_benefit s.uksm ≡ ok (v, encoded)
        → 2 * hash_strength_max * length s.stable_node_list < 2 ^ 64
        → Returns (rshash_adjust k s) (Round s)
    unfolding rshash_adjust
    rshash_adjust-IsSettled s v encoded (tuned, valid) run room =
        Returns-Ensures (rshash_adjust k s) _ (
          Ensures-bind (adjust_strength s.uksm) _ (λ r. IsTuned r.0 × Adjusted s.uksm r) _
            (Ensures-both (adjust_strength s.uksm) _ _ (adjusted-IsTuned s.uksm v encoded tuned run)
              (adjust_strength-Adjusted s.uksm v encoded run))
            (λ r h. after_adjustment s r (tuned, valid) room h.0 h.1))
