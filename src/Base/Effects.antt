-- ===== src/Base/Effects.antt =====
-- How a call of the simulator ends: it returns, it ends the process by `exit`, or it reads or
-- writes memory outside its object, which C++ leaves undefined.
use Prim.Native.Nat.{ℕ, ◌<◌, ◌≤◌}
use mathlib.Core.Path.{◌≡◌}
use mathlib.Core.List.{List}
use mathlib.Core.Option.{none, some}
use native.Mathlib.Omega.{arith}
use rabbits.Base.Lists.{length, get_elem?, get_or, set, get_elem?-eq-get_or, get_elem?_of_le}
use rabbits.Base.Tests.{ltb, if◌then◌else◌}

pub data Outcome {ℓ} (A : Type ℓ) : Type ℓ where
  returns : A → Outcome A
  exits : Outcome A
  faults : Outcome A

infixl 5 ◌>>=◌
abbrev pub ◌>>=◌ {ℓ κ} : {A : Type ℓ} {B : Type κ} → Outcome A → (A → Outcome B) → Outcome B
returns a >>= f = f a
exits >>= f = exits
faults >>= f = faults

-- `a[i]` as a value.
unfoldable pub load {ℓ} : {A : Type ℓ} → List A → ℕ → Outcome A
load xs i = elim (get_elem? xs i) [ none ↦ faults | some a ↦ returns a ]

-- `a[i] = v`.
unfoldable pub store {ℓ} : {A : Type ℓ} → List A → ℕ → A → Outcome (List A)
store xs i v = if ltb i (length xs) then returns (set xs i v) else faults

pub load-eq {ℓ} :
    {A : Type ℓ} (xs : List A) (i : ℕ) (d : A) → i < length xs → load xs i ≡ returns (get_or xs i d)
unfolding load
load-eq xs i d h = rw (get_elem?-eq-get_or xs i d h, load)

pub store-eq {ℓ} :
    {A : Type ℓ} (xs : List A) (i : ℕ) (v : A) → i < length xs → store xs i v ≡ returns (set xs i v)
unfolding store
store-eq xs i v h = ground arith

pub store-past {ℓ} :
    {A : Type ℓ} (xs : List A) (i : ℕ) (v : A) → length xs ≤ i → store xs i v ≡ faults
unfolding store
store-past xs i v h = ground arith

pub load-past {ℓ} : {A : Type ℓ} (xs : List A) (i : ℕ) → length xs ≤ i → load xs i ≡ faults
unfolding load
load-past xs i h = rw (get_elem?_of_le xs i h, load)

-- What holds of a value that a call returns.
abbrev pub Returns {ℓ} : {A : Type ℓ} → (A → Type 0) → Outcome A → Type 0
Returns P (returns x) = P x
Returns P exits = Unit
Returns P faults = Unit

pub Returns->>= {ℓ κ} :
    {A : Type ℓ} {B : Type κ} (P : B → Type 0) (o : Outcome A) (k : A → Outcome B)
    → ((x : A) → Returns P (k x))
    → Returns P (o >>= k)
Returns->>= P (returns x) k next = next x
Returns->>= P exits k next = tt
Returns->>= P faults k next = tt
