-- ===== src/DirtPages/StableTree/Keyhole/Passes.antt =====
-- dirtPages.c: the keyhole reference of `get_uksm_page`, whatever other CPUs write in the meantime.
use random_c_code_snippets_b.Prelude.{
  ◌==◌, Bool-cases, Ensures-mono, ap, ◌∙◌, ℕ_discrete, Ensures-mono, Bool-cases, ℕ, ◌+◌, ◌≡◌, refl,
  ◌⊎◌, inl, inr, arith, List, [], ◌∷◌, Bool, true, false, Option, none, some, Returns, Ensures,
  Returns-Ensures, ==_refl, put_self, put_ne,
}
use random_c_code_snippets_b.DirtPages.{Page}
use random_c_code_snippets_b.DirtPages.StableTree.{
  StableNode, Stable, Attempt, Kernel, get_page, remove_node_from_stable_tree,
}
use random_c_code_snippets_b.DirtPages.StableTree.Keyhole.{
  keyhole, migrate, get_attempts, get_uksm_page,
}

-- A pass leaves no lock, and a reference exactly when it finds the page valid.
keyhole_lem :
    (a : Attempt) (n page : ℕ) (s : Stable)
    → (keyhole a n page s ≡ (s, false)) ⊎ (keyhole a n page s ≡ (get_page page s, true))
unfolding keyhole
keyhole_lem a n page s = ground (arith, ==_refl page)

-- Some pass meets no migration.
abbrev pub Settles : List Attempt → Type 0
Settles [] = ⊥
Settles (a ∷ rest) = (a.migrated ≡ none) ⊎ Settles rest

module _ (k : Kernel) (content : ℕ → Page) where
  -- A migration copies the words of the node's page.
  abbrev pub Copies : ℕ → List Attempt → Type 0
  Copies n [] = Unit
  Copies n (a ∷ rest) =
      ((pfn : ℕ) → a.migrated ≡ some pfn → k.memory pfn ≡ content n) × Copies n rest

  pub record IsOutside : Type 0 where
    pub settles : (call n : ℕ) → Settles (k.attempts call n)
    pub copies : (call n : ℕ) → Copies n (k.attempts call n)

  -- The page of each node has the node's words.
  abbrev pub Kept : Stable → Type 0
  Kept s = (n : ℕ) → k.memory (s.stable_nodes n).kpfn ≡ content n

  -- The state `v` is `s` but for migrations and calls.
  pub record Moved (s v : Stable) : Type 0 where
    pub same : v ≡ record s { stable_nodes = v.stable_nodes; calls = v.calls }
    pub nodes :
        (m : ℕ) → v.stable_nodes m ≡ record (s.stable_nodes m) { kpfn = (v.stable_nodes m).kpfn }
    pub kept : Kept v

  abbrev pub Outcome : ℕ → Bool → Bool → Stable → Stable → Option ℕ → Type 0
  Outcome n unlink_rb remove_tree_node seen v none =
      v ≡ remove_node_from_stable_tree k n unlink_rb remove_tree_node seen
  Outcome n unlink_rb remove_tree_node seen v (some page) =
      (k.memory page ≡ content n) × (v ≡ get_page page seen)

  abbrev pub Checked : ℕ → Bool → Bool → Stable → Stable × Option ℕ → Type 0
  Checked n unlink_rb remove_tree_node s r =
      (seen : Stable) × Moved s seen × Outcome n unlink_rb remove_tree_node seen r.0 r.1

  Moved-refl : (s : Stable) → Kept s → Moved s s
  Moved-refl s kept = record { same = refl; nodes = λ m. refl; kept = kept }

  Moved-trans : (s t v : Stable) → Moved s t → Moved t v → Moved s v
  Moved-trans s t v p q = record {
    same =
        q.same
        ∙ ap {A = Stable} (λ x. record x { stable_nodes = v.stable_nodes; calls = v.calls }) p.same;
    nodes = λ m.
        q.nodes m
        ∙ ap {A = StableNode} (λ x. record x { kpfn = (v.stable_nodes m).kpfn }) (p.nodes m);
    kept = q.kept;
  }

  migrate-Moved :
      (migrated : Option ℕ) (n : ℕ) (s : Stable)
      → Kept s
      → ((pfn : ℕ) → migrated ≡ some pfn → k.memory pfn ≡ content n)
      → Moved s (migrate migrated n s)
  unfolding migrate
  migrate-Moved none n s kept copies = Moved-refl s kept
  migrate-Moved (some pfn) n s kept copies = record {
    same = refl;
    nodes = λ m. elim (ℕ_discrete m n) [
      | yes e ↦ rw (e, put_self) refl
      | no h ↦ rw (put_ne s.stable_nodes n (record (s.stable_nodes n) { kpfn = pfn }) m h) refl
    ];
    kept = λ m. elim (ℕ_discrete m n) [
      | yes e ↦ rw (e, put_self) (copies pfn refl)
      | no h ↦ rw (put_ne s.stable_nodes n (record (s.stable_nodes n) { kpfn = pfn }) m h) (kept m)
    ];
  }

  migrate-get_page :
      (migrated : Option ℕ) (n page : ℕ) (s : Stable)
      → migrate migrated n (get_page page s) ≡ get_page page (migrate migrated n s)
  unfolding migrate
  migrate-get_page none n page s = refl
  migrate-get_page (some pfn) n page s = refl

  -- A pass that ends in a retry has met a migration.
  retry-Settles :
      (a : Attempt) (rest : List Attempt) (n : ℕ) (s : Stable)
      → Settles (a ∷ rest)
      → (((migrate a.migrated n s).stable_nodes n).kpfn == (s.stable_nodes n).kpfn) ≡ false
      → Settles rest
  unfolding migrate
  retry-Settles a rest n s (inl quiet) changed =
      absurd (ground (arith, ==_refl (s.stable_nodes n).kpfn))
  retry-Settles a rest n s (inr later) changed = later

  get_attempts_lem :
      (passes : List Attempt) (n : ℕ) (unlink_rb remove_tree_node : Bool) (s : Stable)
      → Settles passes
      → Copies n passes
      → Kept s
      → Ensures
          (get_attempts k passes n unlink_rb remove_tree_node s)
          (Checked n unlink_rb remove_tree_node s)
  unfolding get_attempts
  get_attempts_lem [] n unlink_rb remove_tree_node s settles copies kept = absurd settles
  get_attempts_lem (a ∷ rest) n unlink_rb remove_tree_node s settles copies kept =
      let moved = migrate-Moved a.migrated n s kept copies.0 in
      elim (keyhole_lem a n (s.stable_nodes n).kpfn s) [
        | inl e ↦
            elim (Bool-cases
              (((migrate a.migrated n s).stable_nodes n).kpfn == (s.stable_nodes n).kpfn)) [
                | inl same ↦ rw (get_attempts, e, e, same, e) (migrate a.migrated n s, moved, refl)
                | inr changed ↦
                    rw (get_attempts, e, e, changed, e)
                      (Ensures-mono _
                        (Checked n unlink_rb remove_tree_node (migrate a.migrated n s)) _
                        (get_attempts_lem rest n unlink_rb remove_tree_node (migrate a.migrated n s)
                          (retry-Settles a rest n s settles changed) copies.1 moved.kept)
                        (λ r checked.
                          (checked.0, Moved-trans s _ checked.0 moved checked.1, checked.2)))
              ]
        | inr e ↦
            rw (get_attempts, e, e)
              (
                migrate a.migrated n s,
                moved,
                (kept n, migrate-get_page a.migrated n (s.stable_nodes n).kpfn s),
              )
      ]

  -- For other CPUs that migrate the page only finitely often and with its words, when the page that
  -- each node names has the node's words: the call ends, and changes nothing but as follows. Either it
  -- returns the page that the node named at some time, and holds one reference more, on that page, and
  -- no lock more; or it returns NULL after the removal of the node, and holds no reference or lock
  -- more.
  pub get_uksm_page_lem :
      IsOutside
      → (n : ℕ) (unlink_rb remove_tree_node : Bool) (s : Stable) → Kept s
      → Returns
          (get_uksm_page k n unlink_rb remove_tree_node s)
          (Checked n unlink_rb remove_tree_node s)
  unfolding get_uksm_page
  get_uksm_page_lem outside n unlink_rb remove_tree_node s kept =
      let called : Moved s (record s { calls = s.calls + 1 }) = record {
        same = refl;
        nodes = λ m. refl;
        kept = kept;
      } in
      Returns-Ensures _ _ (
        Ensures-mono _ (Checked n unlink_rb remove_tree_node (record s { calls = s.calls + 1 })) _
          (get_attempts_lem (k.attempts s.calls n) n unlink_rb remove_tree_node _
            (outside.settles s.calls n) (outside.copies s.calls n) kept)
          (λ r checked. (checked.0, Moved-trans s _ checked.0 called checked.1, checked.2)))
