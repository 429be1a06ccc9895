-- ===== src/DirtPages/StableTree/Keyhole/Verdict.antt =====
-- dirtPages.c: when `get_uksm_page` returns a page and when it removes the node, from what its passes
-- read of what other CPUs write.
use random_c_code_snippets_b.Prelude.{
  ==_ne, subst, true≢false, ◌==◌, Bool-cases, Ensures-mono, ap, sym, ◌∙◌, ℕ_discrete, ℕ, ◌+◌, ◌≡◌,
  ◌≢◌, refl, ◌⊎◌, inl, inr, arith, List, [], ◌∷◌, Bool, true, false, Option, none, some, Returns,
  Ensures, Returns-Ensures, ==_refl, put, put_self, put_ne, put_twice, fun_ext,
}
use random_c_code_snippets_b.DirtPages.StableTree.{
  StableNode, Stable, Attempt, Kernel, get_page, remove_node_from_stable_tree,
}
use random_c_code_snippets_b.DirtPages.StableTree.Keyhole.{
  keyhole, migrate, get_attempts, get_uksm_page, get_page_waits, maps,
}
use random_c_code_snippets_b.DirtPages.StableTree.Keyhole.Passes.{Settles}

-- The page is in the swap cache as often as its reference count is found to be 0.
pub data AllTrue : List Bool → Type 0 where
  end : AllTrue []
  again : {rest : List Bool} → AllTrue rest → AllTrue (true ∷ rest)

-- A pass in which the page is the one of the node `n`: its `mapping` points back to `n` before the
-- reference is taken, with the reference held and with the lock held, and the reference is given.
pub record PointsBack (n : ℕ) (a : Attempt) : Type 0 where
  pub before : a.mapping ≡ some n
  pub swap_cached : AllTrue a.swap_cache
  pub referenced : a.mapping_referenced ≡ some n
  pub locked : a.mapping_locked ≡ some n

-- The page that the node names behind a pass that began at the page `pfn`.
abbrev pub page_after : Option ℕ → ℕ → ℕ
page_after none pfn = pfn
page_after (some moved) pfn = moved

-- The verdict of the passes on the node `n`, which names the page `pfn` at first and `last` in the
-- end: the first pass that points back gives its page; a pass that does not and meets no change of the
-- page gives NULL; one that does not and meets a change leaves it to the passes behind it.
pub data Verdict (n : ℕ) : List Attempt → ℕ → Option ℕ → ℕ → Type 0 where
  valid :
      {a : Attempt} {rest : List Attempt} {pfn : ℕ}
      → PointsBack n a
      → Verdict n (a ∷ rest) pfn (some pfn) (page_after a.migrated pfn)
  stale :
      {a : Attempt} {rest : List Attempt} {pfn : ℕ}
      → ¬ PointsBack n a
      → page_after a.migrated pfn ≡ pfn
      → Verdict n (a ∷ rest) pfn none pfn
  retried :
      {a : Attempt} {rest : List Attempt} {pfn last : ℕ} {v : Option ℕ}
      → ¬ PointsBack n a
      → page_after a.migrated pfn ≢ pfn
      → Verdict n rest (page_after a.migrated pfn) v last
      → Verdict n (a ∷ rest) pfn v last

waits-AllTrue : (answers : List Bool) → get_page_waits answers ≡ true → AllTrue answers
unfolding get_page_waits
waits-AllTrue [] e = end
waits-AllTrue (true ∷ rest) e = again (waits-AllTrue rest e)
waits-AllTrue (false ∷ rest) e = absurd (cc)

AllTrue-waits : {answers : List Bool} → AllTrue answers → get_page_waits answers ≡ true
unfolding get_page_waits
AllTrue-waits end = refl
AllTrue-waits (again h) = AllTrue-waits h

maps-some : (owner : Option ℕ) (n : ℕ) → maps owner n ≡ true → owner ≡ some n
maps-some none n e = absurd (cc)
maps-some (some m) n e = ground arith

some-maps : (owner : Option ℕ) (n : ℕ) → owner ≡ some n → maps owner n ≡ true
some-maps owner n e = rw e (==_refl n)

false-true : {b : Bool} → b ≡ true → b ≡ false → ⊥
false-true e e' = true≢false (sym e ∙ e')

-- A pass ends with a reference exactly when it points back.
keyhole_decides :
    (a : Attempt) (n page : ℕ) (s : Stable)
    → (PointsBack n a × (keyhole a n page s ≡ (get_page page s, true)))
      ⊎ ((¬ PointsBack n a) × (keyhole a n page s ≡ (s, false)))
unfolding keyhole
keyhole_decides a n page s = elim (Bool-cases (maps a.mapping n)) [
  | inr e ↦ inr ((λ p. false-true (some-maps _ n p.before) e), rw e refl)
  | inl e ↦ elim (Bool-cases (get_page_waits a.swap_cache)) [
    | inr w ↦ inr ((λ p. false-true (AllTrue-waits p.swap_cached) w), rw (e, w) refl)
    | inl w ↦ elim (Bool-cases (maps a.mapping_referenced n)) [
      | inr f ↦
          inr ((λ p. false-true (some-maps _ n p.referenced) f), rw (e, w, f, ==_refl page) refl)
      | inl f ↦ elim (Bool-cases (maps a.mapping_locked n)) [
        | inr g ↦
            inr ((λ p. false-true (some-maps _ n p.locked) g), rw (e, w, f, g, ==_refl page) refl)
        | inl g ↦ inl (
          record {
            before = maps-some _ n e;
            swap_cached = waits-AllTrue _ w;
            referenced = maps-some _ n f;
            locked = maps-some _ n g;
          },
          rw (e, w, f, g, ==_refl page) refl,
        )
      ]
    ]
  ]
]

-- The state in which the node `n` names the page `pfn`.
abbrev pub naming : ℕ → ℕ → Stable → Stable
naming n pfn s = record s {
  stable_nodes = put s.stable_nodes n (record (s.stable_nodes n) { kpfn = pfn });
}

naming_same : (n : ℕ) (s : Stable) → naming n (s.stable_nodes n).kpfn s ≡ s
naming_same n s =
    let same : put s.stable_nodes n (s.stable_nodes n) ≡ s.stable_nodes = fun_ext (λ m.
      elim (ℕ_discrete m n) [
        | yes e ↦ rw (e, put_self) refl
        | no h ↦ put_ne s.stable_nodes n (s.stable_nodes n) m h
      ]) in
    ap {A = ℕ → StableNode} (λ nodes. record s { stable_nodes = nodes }) same

naming_twice : (n p q : ℕ) (s : Stable) → naming n q (naming n p s) ≡ naming n q s
naming_twice n p q s =
    let node = s.stable_nodes n in
    let moved = put s.stable_nodes n (record node { kpfn = p }) in
    let here : moved n ≡ record node { kpfn = p } = put_self s.stable_nodes n _ in
    let over : put moved n (record (moved n) { kpfn = q })
        ≡ put s.stable_nodes n (record node { kpfn = q }) =
      ap {A = StableNode} (λ x. put moved n (record x { kpfn = q })) here
      ∙ put_twice s.stable_nodes n (record node { kpfn = p }) (record node { kpfn = q }) in
    ap {A = ℕ → StableNode} (λ nodes. record s { stable_nodes = nodes }) over

-- What a pass leaves of the page that the node names.
migrate-naming :
    (migrated : Option ℕ) (n : ℕ) (s : Stable)
    → migrate migrated n s ≡ naming n (page_after migrated (s.stable_nodes n).kpfn) s
unfolding migrate
migrate-naming none n s = sym (naming_same n s)
migrate-naming (some pfn) n s = refl

naming-kpfn : (n pfn : ℕ) (s : Stable) → ((naming n pfn s).stable_nodes n).kpfn ≡ pfn
naming-kpfn n pfn s =
    ap {A = StableNode} (λ x. x.kpfn)
      (put_self s.stable_nodes n (record (s.stable_nodes n) { kpfn = pfn }))

-- A pass that meets a change of the page is not the last.
changed-Settles :
    (a : Attempt) (rest : List Attempt) (pfn : ℕ)
    → Settles (a ∷ rest)
    → page_after a.migrated pfn ≢ pfn
    → Settles rest
changed-Settles a rest pfn (inl quiet) changed = absurd (changed (ap (λ m. page_after m pfn) quiet))
changed-Settles a rest pfn (inr later) changed = later

module _ (k : Kernel) where
  -- The state behind the verdict: one reference to the page that is returned, or the node removed.
  abbrev pub leaving : ℕ → Bool → Bool → Option ℕ → Stable → Stable
  leaving n unlink_rb remove_tree_node none s =
      remove_node_from_stable_tree k n unlink_rb remove_tree_node s
  leaving n unlink_rb remove_tree_node (some page) s = get_page page s

  abbrev pub Decided : List Attempt → ℕ → Bool → Bool → Stable → Stable × Option ℕ → Type 0
  Decided passes n unlink_rb remove_tree_node s r =
      (last : ℕ) × Verdict n passes (s.stable_nodes n).kpfn r.1 last
      × (r.0 ≡ leaving n unlink_rb remove_tree_node r.1 (naming n last s))

  module _ (n : ℕ) (unlink_rb remove_tree_node : Bool) where
    naming-get_page :
        (page pfn : ℕ) (s : Stable)
        → naming n pfn (get_page page s) ≡ get_page page (naming n pfn s)
    naming-get_page page pfn s = refl

    -- The verdict of the passes behind one that meets a change.
    retried-Decided :
        (a : Attempt) (rest : List Attempt) (s : Stable) (r : Stable × Option ℕ)
        → ¬ PointsBack n a
        → page_after a.migrated (s.stable_nodes n).kpfn ≢ (s.stable_nodes n).kpfn
        → Decided rest n unlink_rb remove_tree_node
            (naming n (page_after a.migrated (s.stable_nodes n).kpfn) s)
            r
        → Decided (a ∷ rest) n unlink_rb remove_tree_node s r
    retried-Decided a rest s r away changed (last, verdict, ends) =
        let pfn = (s.stable_nodes n).kpfn in
        let next = page_after a.migrated pfn in
        (
          last,
          retried away changed
              (subst (λ q. Verdict n rest q r.1 last) (naming-kpfn n next s) verdict),
          ends ∙ ap (leaving n unlink_rb remove_tree_node r.1) (naming_twice n next last s),
        )

    get_attempts-Decided :
        (passes : List Attempt) (s : Stable)
        → Settles passes
        → Ensures
            (get_attempts k passes n unlink_rb remove_tree_node s)
            (Decided passes n unlink_rb remove_tree_node s)
    unfolding get_attempts
    get_attempts-Decided [] s settles = absurd settles
    get_attempts-Decided (a ∷ rest) s settles =
        let pfn = (s.stable_nodes n).kpfn in
        let next = page_after a.migrated pfn in
        elim (keyhole_decides a n pfn s) [
          | inl (points, run) ↦
              rw (get_attempts, run, run)
                (next, valid points, migrate-naming a.migrated n (get_page pfn s))
          | inr (away, run) ↦
              let after = migrate a.migrated n s in
              let named = migrate-naming a.migrated n s in
              let moved : (after.stable_nodes n).kpfn ≡ next =
                ap {A = Stable} (λ v. (v.stable_nodes n).kpfn) named ∙ naming-kpfn n next s in
              elim (ℕ_discrete next pfn) [
                | yes same ↦
                    let test : ((after.stable_nodes n).kpfn == pfn) ≡ true =
                      ap (λ q. q == pfn) (moved ∙ same) ∙ ==_refl pfn in
                    rw (get_attempts, run, run, test, run)
                      (
                        pfn,
                        stale away same,
                        ap (remove_node_from_stable_tree k n unlink_rb remove_tree_node)
                            (named ∙ ap (λ q. naming n q s) same),
                      )
                | no changed ↦
                    let test : ((after.stable_nodes n).kpfn == pfn) ≡ false =
                      ap (λ q. q == pfn) moved ∙ ==_ne next pfn changed in
                    rw (get_attempts, run, run, test, run)
                      (Ensures-mono _ (Decided rest n unlink_rb remove_tree_node after) _
                        (get_attempts-Decided rest after
                          (changed-Settles a rest pfn settles changed))
                        (λ r behind. retried-Decided a rest s r away changed (
                          subst (λ v. Decided rest n unlink_rb remove_tree_node v r) named behind)))
              ]
        ]

    -- When some pass of the call meets no migration, the call ends, by the first pass that is not tried
    -- again. A pass is tried again when it does not point back and meets a change of the node's page; it
    -- points back when the reference is given and `page->mapping` is that of the node before, with the
    -- reference held, and under the page lock. If the last pass points back, the call returns the page
    -- that the node named when that pass began, and holds one reference more, on that page; if not, it
    -- returns NULL after the removal of the node, and holds no reference more. In each case it holds no
    -- lock more, and but for the removal, the page that the node names and the count of the calls,
    -- nothing else changes.
    pub get_uksm_page-Verdict :
        (s : Stable)
        → Settles (k.attempts s.calls n)
        → Returns (get_uksm_page k n unlink_rb remove_tree_node s) λ r.
          (last : ℕ) × Verdict n (k.attempts s.calls n) (s.stable_nodes n).kpfn r.1 last
          × (r.0
              ≡ leaving n unlink_rb remove_tree_node r.1
                  (naming n last (record s { calls = s.calls + 1 })))
    unfolding get_uksm_page
    get_uksm_page-Verdict s settles =
        Returns-Ensures _ _
          (get_attempts-Decided (k.attempts s.calls n) (record s { calls = s.calls + 1 }) settles)
