-- ===== src/Prelude/Stores.antt =====
-- Stores as functions of an address, doubly linked lists of addresses, and what holds of all the
-- addresses on a list. No source code is modelled here.
use mathlib.Core.Path.{◌≡◌, refl, sym, ◌∙◌, subst, fun_ext}
use mathlib.Core.Logic.{◌≢◌, ◌⊎◌, inl, inr}
use mathlib.Core.List.{List, [], ◌∷◌, ◌++◌}
use mathlib.Core.Bool.{true≢false}
use native.Mathlib.Omega.{arith}
use Prim.Native.Nat.{ℕ, suc, ◌≤◌, ◌<◌, ◌+◌}
use random_c_code_snippets_b.Prelude.Tests.{Bool-cases, ◌==◌, ==_iff, ==_refl, ==_ne, if◌then◌else◌}
use random_c_code_snippets_b.Prelude.Lists.{length}

-- The store with the object at one address replaced.
unfoldable pub put {ℓ} : {A : Type ℓ} → (ℕ → A) → ℕ → A → ℕ → A
put store i a j = if j == i then a else store j

module _ {ℓ} {A : Type ℓ} (store : ℕ → A) (i : ℕ) (a : A) where
  pub put_self : put store i a i ≡ a
  unfolding put
  put_self = rw (==_refl i) refl

  pub put_ne : (j : ℕ) → j ≢ i → put store i a j ≡ store j
  unfolding put
  put_ne j h = rw (==_ne j i h) refl

-- A field that the replaced object shares with the new one is that of the store everywhere.
pub put_field {ℓ κ} :
    {A : Type ℓ} {B : Type κ} (f : A → B) (store : ℕ → A) (i : ℕ) (a : A)
    → f a ≡ f (store i)
    → (j : ℕ) → f (put store i a j) ≡ f (store j)
unfolding put
put_field f store i a h j = ground arith

pub put_twice {ℓ} :
    {A : Type ℓ} (store : ℕ → A) (i : ℕ) (a b : A) → put (put store i a) i b ≡ put store i b
unfolding put
put_twice store i a b =
    fun_ext (λ j. elim (Bool-cases (j == i)) [ inl e ↦ rw e refl | inr e ↦ rw e refl ])

-- `list_del`: the list without the first entry for `x`.
abbrev pub remove : ℕ → List ℕ → List ℕ
remove x [] = []
remove x (y ∷ ys) = if y == x then ys else y ∷ remove x ys

abbrev pub All : (ℕ → Type 0) → List ℕ → Type 0
All P [] = Unit
All P (x ∷ xs) = P x × All P xs

-- The address is on the list.
abbrev pub In : ℕ → List ℕ → Type 0
In x [] = ⊥
In x (y ∷ ys) = (y ≡ x) ⊎ In x ys

pub In-append_left : (x : ℕ) (xs ys : List ℕ) → In x xs → In x (xs ++ ys)
In-append_left x [] ys h = absurd h
In-append_left x (y ∷ xs) ys (inl e) = inl e
In-append_left x (y ∷ xs) ys (inr h) = inr (In-append_left x xs ys h)

pub In-append_right : (x : ℕ) (xs ys : List ℕ) → In x ys → In x (xs ++ ys)
In-append_right x [] ys h = h
In-append_right x (y ∷ xs) ys h = inr (In-append_right x xs ys h)

module _ (P : ℕ → Type 0) where
  pub All-In : (x : ℕ) (xs : List ℕ) → All P xs → In x xs → P x
  All-In x [] h m = absurd m
  All-In x (y ∷ ys) h (inl e) = subst P e h.0
  All-In x (y ∷ ys) h (inr m) = All-In x ys h.1 m

  pub All-remove : (x : ℕ) (xs : List ℕ) → All P xs → All P (remove x xs)
  All-remove x [] h = tt
  All-remove x (y ∷ ys) h = elim (Bool-cases (y == x)) [
    | inl e ↦ rw e h.1
    | inr e ↦ rw e (h.0, All-remove x ys h.1)
  ]

  pub All-append : (xs ys : List ℕ) → All P xs → All P ys → All P (xs ++ ys)
  All-append [] ys h k = k
  All-append (x ∷ xs) ys h k = (h.0, All-append xs ys h.1 k)

  pub All-split : (xs ys : List ℕ) → All P (xs ++ ys) → All P xs × All P ys
  All-split [] ys h = (tt, h)
  All-split (x ∷ xs) ys h = let (front, back) = All-split xs ys h.1 in ((h.0, front), back)

  pub All-insert : (x : ℕ) (xs ys : List ℕ) → P x → All P (xs ++ ys) → All P (xs ++ (x ∷ ys))
  All-insert x [] ys p h = (p, h)
  All-insert x (y ∷ xs) ys p h = (h.0, All-insert x xs ys p h.1)

  pub All-map : (Q : ℕ → Type 0) (xs : List ℕ) → ((x : ℕ) → P x → Q x) → All P xs → All Q xs
  All-map Q [] f h = tt
  All-map Q (x ∷ xs) f h = (f x h.0, All-map Q xs f h.1)

  -- With the fact that the entry is on the list.
  pub All-intro : (xs : List ℕ) → ((x : ℕ) → In x xs → P x) → All P xs
  All-intro [] f = tt
  All-intro (x ∷ xs) f = (f x (inl refl), All-intro xs (λ y m. f y (inr m)))

pub In-remove : (x y : ℕ) (ys : List ℕ) → In x (remove y ys) → In x ys
In-remove x y [] m = m
In-remove x y (z ∷ zs) m = elim (Bool-cases (z == y)) [
  | inl e ↦ inr (rw e at m)
  | inr e ↦ elim (rw e at m) [ inl same ↦ inl same | inr later ↦ inr (In-remove x y zs later) ]
]

pub remove-In : (x y : ℕ) (ys : List ℕ) → x ≢ y → In x ys → In x (remove y ys)
remove-In x y [] ne m = m
remove-In x y (z ∷ zs) ne m = elim (Bool-cases (z == y)) [
  | inl e ↦
      rw e (elim m [ inl same ↦ absurd (ne (sym same ∙ (==_iff z y).0 e)) | inr later ↦ later ])
  | inr e ↦ rw e (elim m [ inl same ↦ inl same | inr later ↦ inr (remove-In x y zs ne later) ])
]

pub In-insert : (x y : ℕ) (xs ys : List ℕ) → In x (xs ++ ys) → In x (xs ++ (y ∷ ys))
In-insert x y [] ys m = inr m
In-insert x y (z ∷ xs) ys (inl e) = inl e
In-insert x y (z ∷ xs) ys (inr m) = inr (In-insert x y xs ys m)

-- No address is on the list twice.
abbrev pub Distinct : List ℕ → Type 0
Distinct [] = Unit
Distinct (x ∷ xs) = ¬ In x xs × Distinct xs

pub Distinct-remove : (x : ℕ) (xs : List ℕ) → Distinct xs → Distinct (remove x xs)
Distinct-remove x [] h = tt
Distinct-remove x (y ∷ ys) h = elim (Bool-cases (y == x)) [
  | inl e ↦ rw e h.1
  | inr e ↦ rw e ((λ m. h.0 (In-remove y x ys m)), Distinct-remove x ys h.1)
]

pub remove-Distinct : (x : ℕ) (xs : List ℕ) → Distinct xs → ¬ In x (remove x xs)
remove-Distinct x [] h m = m
remove-Distinct x (y ∷ ys) h m = elim (Bool-cases (y == x)) [
  | inl e ↦ h.0 (subst (λ z. In z ys) (sym ((==_iff y x).0 e)) (rw e at m))
  | inr e ↦ elim (rw e at m) [
    | inl same ↦ true≢false (sym ((==_iff y x).1 same) ∙ e)
    | inr later ↦ remove-Distinct x ys h.1 later
  ]
]

-- The values of the key grow along the list.
abbrev pub Increasing : (ℕ → ℕ) → List ℕ → Type 0
Increasing key [] = Unit
Increasing key (x ∷ xs) = All (λ y. key x < key y) xs × Increasing key xs

pub Increasing-remove :
    (key : ℕ → ℕ) (x : ℕ) (xs : List ℕ) → Increasing key xs → Increasing key (remove x xs)
Increasing-remove key x [] h = tt
Increasing-remove key x (y ∷ ys) h = elim (Bool-cases (y == x)) [
  | inl e ↦ rw e h.1
  | inr e ↦ rw e (All-remove _ x ys h.0, Increasing-remove key x ys h.1)
]

-- An address between the smaller and the larger ones.
pub Increasing-insert :
    (key : ℕ → ℕ) (x : ℕ) (xs ys : List ℕ)
    → Increasing key (xs ++ ys)
    → All (λ y. key y < key x) xs
    → All (λ y. key x < key y) ys
    → Increasing key (xs ++ (x ∷ ys))
Increasing-insert key x [] ys h below above = (above, h)
Increasing-insert key x (y ∷ xs) ys h below above =
    let (front, back) = All-split _ xs ys h.0 in
    (
      All-append _ xs (x ∷ ys) front (below.0, back),
      Increasing-insert key x xs ys h.1 below.1 above,
    )

pub Increasing-key :
    (key key' : ℕ → ℕ) (xs : List ℕ)
    → All (λ x. key x ≡ key' x) xs
    → Increasing key xs
    → Increasing key' xs
Increasing-key key key' [] same h = tt
Increasing-key key key' (x ∷ xs) same h =
    (All-both same.0 xs same.1 h.0, Increasing-key key key' xs same.1 h.1)
  where
    All-both :
        {x : ℕ}
        → key x ≡ key' x
        → (ys : List ℕ) → All (λ y. key y ≡ key' y) ys
        → All (λ y. key x < key y) ys
        → All (λ y. key' x < key' y) ys
    All-both e [] p q = tt
    All-both e (y ∷ ys) p q = (omega (arith, e, p.0, q.0), All-both e ys p.1 q.1)

-- Keys below a bound are no more than the bound.
pub length-Increasing :
    (key : ℕ → ℕ) (bound low : ℕ) (xs : List ℕ)
    → Increasing key xs
    → All (λ x. low ≤ key x) xs
    → All (λ x. key x < bound) xs
    → low ≤ bound
    → length xs + low ≤ bound
length-Increasing key bound low [] h from to room = omega (arith, room)
length-Increasing key bound low (x ∷ xs) h from to room =
    let above : All (λ y. suc low ≤ key y) xs =
      All-map _ _ xs (λ y k. omega (arith, k, from.0)) h.0 in
    let rest =
      length-Increasing key bound (suc low) xs h.1 above to.1 (omega (arith, from.0, to.0)) in
    omega (arith, rest)

module _ (key : ℕ → ℕ) where
  pub Increasing-front : (xs ys : List ℕ) → Increasing key (xs ++ ys) → Increasing key xs
  Increasing-front [] ys h = tt
  Increasing-front (x ∷ xs) ys h = ((All-split _ xs ys h.0).0, Increasing-front xs ys h.1)

  pub Increasing-tail : (xs ys : List ℕ) → Increasing key (xs ++ ys) → Increasing key ys
  Increasing-tail [] ys h = h
  Increasing-tail (x ∷ xs) ys h = Increasing-tail xs ys h.1

  -- What stands before an entry has a smaller key.
  pub Increasing-head :
      (xs : List ℕ) (x : ℕ) (ys : List ℕ)
      → Increasing key (xs ++ (x ∷ ys))
      → All (λ y. key y < key x) xs
  Increasing-head [] x ys h = tt
  Increasing-head (y ∷ xs) x ys h = ((All-split _ xs (x ∷ ys) h.0).1.0, Increasing-head xs x ys h.1)
