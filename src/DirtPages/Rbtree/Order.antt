-- ===== src/DirtPages/Rbtree/Order.antt =====
-- dirtPages.c: the walk of `stable_node_reinsert` over a tree that is ordered by a key finds the
-- node with that key, or else the place where a new node keeps the order.
use Prim.Native.Nat.{Ordering}
use mathlib.Core.List.{append_assoc}
use random_c_code_snippets_b.Prelude.{
  ◌⊎◌, inl, Increasing-head, inr, Increasing-tail, Increasing-front, In-append_right,
  In-append_left, In, ℕ, ◌<◌, ◌≡◌, refl, sym, ap, ◌∙◌, arith, List, [], ◌∷◌, ◌++◌, Option, none,
  some, All, All-map, All-append, Increasing,
}
use random_c_code_snippets_b.DirtPages.Hashing.{hash_cmp}
use random_c_code_snippets_b.DirtPages.Rbtree.{
  RbTree, empty, node, in_order, RbSide, rb_left, rb_right, descend, rb_link_node,
}

-- Where the walk to `k` ends.
abbrev pub Meets : (ℕ → ℕ) → ℕ → RbTree → List RbSide → Option ℕ → Type 0
Meets key k t way (some x) = (key x ≡ k) × In x (in_order t)
Meets key k t way none =
    (x : ℕ)
    → (before : List ℕ) × (after : List ℕ) × (in_order t ≡ before ++ after)
      × (in_order (rb_link_node x way t) ≡ before ++ (x ∷ after))
      × All (λ y. key y < k) before
      × All (λ y. k < key y) after

module _ (key : ℕ → ℕ) (k : ℕ) where
  abbrev pub towards : ℕ → Ordering
  towards x = hash_cmp k (key x)

  abbrev EndsAt : RbTree → Type 0
  EndsAt t = Meets key k t (descend towards t).0 (descend towards t).1

  in_left :
      (low : RbTree) (y : ℕ) (high : RbTree) (way : List RbSide) (found : Option ℕ)
      → k < key y
      → Increasing key (in_order (node low y high))
      → Meets key k low way found
      → Meets key k (node low y high) (rb_left ∷ way) found
  unfolding rb_link_node
  in_left low y high way (some x) h sorted m =
      (m.0, In-append_left x (in_order low) (y ∷ in_order high) m.1)
  in_left low y high way none h sorted m = λ x.
      let (before, after, old, new, below, above) = m x in
      let later = Increasing-tail key (in_order low) (y ∷ in_order high) sorted in
      let far = All-map _ (λ z. k < key z) (in_order high) (λ z p. omega (arith, p, h)) later.0 in
      (
        before,
        after ++ (y ∷ in_order high),
        ap (λ xs. xs ++ (y ∷ in_order high)) old ∙ append_assoc before after (y ∷ in_order high),
        ap (λ xs. xs ++ (y ∷ in_order high)) new
            ∙ append_assoc before (x ∷ after) (y ∷ in_order high),
        below,
        All-append _ after (y ∷ in_order high) above (h, far),
      )

  in_right :
      (low : RbTree) (y : ℕ) (high : RbTree) (way : List RbSide) (found : Option ℕ)
      → key y < k
      → Increasing key (in_order (node low y high))
      → Meets key k high way found
      → Meets key k (node low y high) (rb_right ∷ way) found
  unfolding rb_link_node
  in_right low y high way (some x) h sorted m =
      (m.0, In-append_right x (in_order low) (y ∷ in_order high) (inr m.1))
  in_right low y high way none h sorted m = λ x.
      let (before, after, old, new, below, above) = m x in
      let earlier = Increasing-head key (in_order low) y (in_order high) sorted in
      let far = All-map _ (λ z. key z < k) (in_order low) (λ z p. omega (arith, p, h)) earlier in
      (
        in_order low ++ (y ∷ before),
        after,
        ap (λ xs. in_order low ++ (y ∷ xs)) old
            ∙ sym (append_assoc (in_order low) (y ∷ before) after),
        ap (λ xs. in_order low ++ (y ∷ xs)) new
            ∙ sym (append_assoc (in_order low) (y ∷ before) (x ∷ after)),
        All-append _ (in_order low) (y ∷ before) far (h, below),
        above,
      )

  pub cmp_cases :
      (x : ℕ)
      → ((towards x ≡ Ordering.lt) × (k < key x))
        ⊎ (((towards x ≡ Ordering.gt) × (key x < k)) ⊎ ((towards x ≡ Ordering.eq) × (key x ≡ k)))
  unfolding hash_cmp
  cmp_cases x = ground arith

  -- The walk over a tree ordered by the key ends at the node with the key looked for, or else at a
  -- place where a new node stands between the smaller and the larger keys.
  pub descend-Meets : (t : RbTree) → Increasing key (in_order t) → EndsAt t
  unfolding descend rb_link_node
  descend-Meets empty h = λ x. ([], [], refl, refl, tt, tt)
  descend-Meets (node low y high) h = elim (cmp_cases y) [
    | inl turn ↦
        rw (descend, turn.0)
          (in_left low y high _ _ turn.1 h
            (descend-Meets low (Increasing-front key (in_order low) (y ∷ in_order high) h)))
    | inr (inl turn) ↦
        rw (descend, turn.0)
          (in_right low y high _ _ turn.1 h
            (descend-Meets high (Increasing-tail key (in_order low) (y ∷ in_order high) h).1))
    | inr (inr turn) ↦
        rw (descend, turn.0)
          (turn.1, In-append_right y (in_order low) (y ∷ in_order high) (inl refl))
  ]
