-- ===== src/Noc/Queue.antt =====
-- A bounded queue, oldest first: what a fifo of the network promises its users.
use rabbits.Base.{
  ℕ, ◌≡◌, true, false, arith, List, [], ◌∷◌, ◌++◌, Option, none, some, ◌==◌, if◌then◌else◌, length,
}

-- A call that may block: its result, or that the thread waits for an event.
pub data Attempt {ℓ} (A : Type ℓ) : Type ℓ where
  done : A → Attempt A
  waits : Attempt A

pub data Op {ℓ} (A : Type ℓ) : Type ℓ where
  put : A → Op A
  get : Op A

-- What a caller sees: nothing but its return from `put`, the item from `get`.
abbrev pub Reply {ℓ} : Type ℓ → Type ℓ
Reply A = Attempt (Option A)

module _ {ℓ} {A : Type ℓ} where
  unfoldable pub read : List A → Attempt (A × List A)
  read [] = waits
  read (x ∷ q) = done (x, q)

  unfoldable pub write : ℕ → List A → A → Attempt (List A)
  write cap q x = if length q == cap then waits else done (q ++ (x ∷ []))

  -- One call; one that would block is answered `waits` and changes nothing.
  unfoldable pub step : ℕ → List A → Op A → Reply A × List A
  unfolding read write
  step cap q (put x) = elim (write cap q x) [ done q' ↦ (done none, q') | waits ↦ (waits, q) ]
  step cap q get = elim (read q) [ done (x, q') ↦ (done (some x), q') | waits ↦ (waits, q) ]

  -- Calls in order.
  unfoldable pub run : ℕ → List A → List (Op A) → List (Reply A)
  run cap q [] = []
  run cap q (op ∷ ops) = let (reply, q') = step cap q op in reply ∷ run cap q' ops

  pub step_full :
      (cap : ℕ) (q : List A) (x : A) → (length q == cap) ≡ true → step cap q (put x) ≡ (waits, q)
  unfolding step
  step_full cap q x h = ground arith

  pub step_free :
      (cap : ℕ) (q : List A) (x : A)
      → (length q == cap) ≡ false
      → step cap q (put x) ≡ (done none, q ++ (x ∷ []))
  unfolding step
  step_free cap q x h = ground arith
