-- ===== src/Prelude/Runs.antt =====
-- The outcome of C code: a value, or a step whose behaviour C leaves undefined or the kernel stops.
use mathlib.Core.Path.{◌≡◌, refl, subst, ap₂, fun_ext}
use mathlib.Core.List.{List}
use mathlib.Core.Option.{none, some}
use native.Mathlib.Omega.{arith}
use Prim.Native.Nat.{ℕ, ◌<◌}
use random_c_code_snippets_b.Prelude.Tests.{ltb, if◌then◌else◌}
use random_c_code_snippets_b.Prelude.Lists.{length, set, get_elem?, get_or, get_elem?-eq-get_or}

-- `out_of_bounds`: an array read or write outside its object. `division_by_zero`: `div64_u64` or `/`
-- by zero. `bug`: the kernel's `BUG()` or `BUG_ON`. `no_fuel`: a loop that has not ended in the
-- rounds that the model gives it.
pub data Fault : Type 0 where
  out_of_bounds division_by_zero bug no_fuel : Fault

pub data Run {ℓ} (A : Type ℓ) : Type ℓ where
  ok : A → Run A
  fault : Fault → Run A

infixl 5 ◌>>=◌ ◌>>◌
-- The next step of the code has the value of this one, or is not reached.
abbrev pub ◌>>=◌ {κ ℓ} : {B : Type κ} {A : Type ℓ} → Run B → (B → Run A) → Run A
fault why >>= rest = fault why
ok value >>= rest = rest value

abbrev pub ◌>>◌ {ℓ} : {B : Type ℓ} → Run (Unit {0}) → Run B → Run B
m >> k = m >>= λ _. k

-- `array[i]`
abbrev pub read {ℓ} : {A : Type ℓ} → List A → ℕ → Run A
read xs i = elim (get_elem? xs i) [ none ↦ fault out_of_bounds | some x ↦ ok x ]

-- `array[i] = v`
abbrev pub write {ℓ} : {A : Type ℓ} → List A → ℕ → A → Run (List A)
write xs i v = if ltb i (length xs) then ok (set xs i v) else fault out_of_bounds

-- The run ends normally, in a value that satisfies `P`.
abbrev pub Returns {ℓ κ} : {A : Type ℓ} (run : Run A) (Result : A → Type κ) → Type (ℓ ⊔ κ)
Returns {A} run Result = (value : A) × (run ≡ ok value) × Result value

pub read-get_or {ℓ} :
    {A : Type ℓ} (xs : List A) (i : ℕ) (d : A) → i < length xs → read xs i ≡ ok (get_or xs i d)
read-get_or xs i d h = rw (get_elem?-eq-get_or xs i d h, read)

-- The same by cases on the run, which a case split on the code computes.
abbrev pub Ensures {ℓ} : {A : Type ℓ} → Run A → (A → Type 0) → Type 0
Ensures (ok a) P = P a
Ensures (fault e) P = ⊥

pub Returns-Ensures {ℓ} : {A : Type ℓ} (r : Run A) (P : A → Type 0) → Ensures r P → Returns r P
Returns-Ensures (ok a) P h = (a, refl, h)
Returns-Ensures (fault e) P h = absurd h

pub Ensures-bind {ℓ κ} :
    {A : Type ℓ} {B : Type κ} (m : Run A) (f : A → Run B) (Q : A → Type 0) (P : B → Type 0)
    → Ensures m Q
    → ((a : A) → Q a → Ensures (f a) P)
    → Ensures (m >>= f) P
Ensures-bind (ok a) f Q P h k = k a h
Ensures-bind (fault e) f Q P h k = absurd h

pub Ensures-ok {ℓ} :
    {A : Type ℓ} (r : Run A) (P : A → Type 0) (a : A) → Ensures r P → r ≡ ok a → P a
Ensures-ok (ok b) P a h e = let same : b ≡ a = cc in subst P same h
Ensures-ok (fault e') P a h e = absurd h

pub Ensures-both {ℓ} :
    {A : Type ℓ} (r : Run A) (P Q : A → Type 0)
    → Ensures r P
    → Ensures r Q
    → Ensures r (λ a. P a × Q a)
Ensures-both (ok a) P Q h k = (h, k)
Ensures-both (fault e) P Q h k = h

pub Ensures-mono {ℓ} :
    {A : Type ℓ} (r : Run A) (P Q : A → Type 0) → Ensures r P → ((a : A) → P a → Q a) → Ensures r Q
Ensures-mono (ok a) P Q h k = k a h
Ensures-mono (fault e) P Q h k = h

pub write-set {ℓ} :
    {A : Type ℓ} (xs : List A) (i : ℕ) (v : A) → i < length xs → write xs i v ≡ ok (set xs i v)
write-set xs i v h = ground arith

-- Two steps whose result is known, before a third.
pub bind-bind_ok {ℓ κ} :
    {A : Type ℓ} {B C : Type κ} (m : Run A) (f : A → Run B) (g : B → Run C) (b : B)
    → (m >>= f) ≡ ok b
    → (m >>= λ a. f a >>= g) ≡ g b
bind-bind_ok (ok a) f g b e = rw e
bind-bind_ok (fault e') f g b e = cc

-- Two runs made of steps that agree.
pub bind_congr {ℓ κ} :
    {A : Type ℓ} {B : Type κ} {m n : Run A} {f g : A → Run B}
    → m ≡ n
    → ((a : A) → f a ≡ g a)
    → (m >>= f) ≡ (n >>= g)
bind_congr p h = ap₂ ◌>>=◌ p (fun_ext h)

pub ok_injective {ℓ} : {A : Type ℓ} {a b : A} → ok a ≡ ok b → a ≡ b
ok_injective e = cc
