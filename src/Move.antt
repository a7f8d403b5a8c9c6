-- ===== src/Move.antt =====
-- Copies between byte arrays: what an assignment through casted pointers does, whatever its width.
use native.Mathlib.Decide.{ℕ_discrete}
use rabbits.Base.{
  ℕ, zero, suc, ◌+◌, ◌-◌, ◌≤◌, ◌<◌, ◌≡◌, ◌≢◌, ◌∙◌, refl, ap, arith, List, length, get_or, set,
  length-set, get_or-set_self, get_or-set_ne, Outcome, returns, faults, ltb, leb, ◌&&◌,
  if◌then◌else◌,
}

-- A copy of `n` bytes from `src + sp` to `dst + dp`, in range on both sides.
unfoldable pub blit : ℕ → List ℕ → ℕ → List ℕ → ℕ → List ℕ
blit zero src sp dst dp = dst
blit (suc n) src sp dst dp = blit n src (sp + 1) (set dst dp (get_or src sp 0)) (dp + 1)

-- The assignment through two casted pointers, of `n` bytes.
unfoldable pub move : ℕ → List ℕ → ℕ → List ℕ → ℕ → Outcome (List ℕ)
unfolding blit
move n src sp dst dp =
    if leb (sp + n) (length src) && leb (dp + n) (length dst)
    then returns (blit n src sp dst dp)
    else faults

pub length-blit :
    (n : ℕ) (src : List ℕ) (sp : ℕ) (dst : List ℕ) (dp : ℕ)
    → length (blit n src sp dst dp) ≡ length dst
unfolding blit
length-blit zero src sp dst dp = refl
length-blit (suc n) src sp dst dp =
    length-blit n src (sp + 1) (set dst dp (get_or src sp 0)) (dp + 1)
    ∙ length-set dst dp (get_or src sp 0)

-- The bytes of the target range are the source's, and no other changes.
pub get_or-blit :
    (n : ℕ) (src : List ℕ) (sp : ℕ) (dst : List ℕ) (dp j : ℕ)
    → dp + n ≤ length dst
    → get_or (blit n src sp dst dp) j 0
      ≡ (if leb dp j && ltb j (dp + n) then get_or src (sp + (j - dp)) 0 else get_or dst j 0)
unfolding blit
get_or-blit zero src sp dst dp j room = ground arith
get_or-blit (suc n) src sp dst dp j room = elim (ℕ_discrete dp j) [
  | yes here ↦
      let first = get_or src sp 0 in
      let none_moved : sp + (j - dp) ≡ sp = omega arith in
      ground (
        arith,
        get_or-blit n src (sp + 1) (set dst dp first) (dp + 1) j
            (omega (arith, length-set dst dp first)),
        rw here at (get_or-set_self dst dp first 0 (omega arith)),
        ap (λ (k : ℕ). get_or src k 0) none_moved,
      )
  | no there ↦ ground (
    arith,
    get_or-blit n src (sp + 1) (set dst dp (get_or src sp 0)) (dp + 1) j
        (omega (arith, length-set dst dp (get_or src sp 0))),
    get_or-set_ne dst dp j (get_or src sp 0) 0 there,
    λ (le : dp ≤ j). ap (λ (k : ℕ). get_or src k 0) (shift le there),
  )
]
  where
    shift : dp ≤ j → dp ≢ j → sp + 1 + (j - (dp + 1)) ≡ sp + (j - dp)
    shift le ne = omega arith

pub move-eq :
    (n : ℕ) (src : List ℕ) (sp : ℕ) (dst : List ℕ) (dp : ℕ)
    → sp + n ≤ length src
    → dp + n ≤ length dst
    → move n src sp dst dp ≡ returns (blit n src sp dst dp)
unfolding move
move-eq n src sp dst dp hs hd = ground arith

pub move-past :
    (n : ℕ) (src : List ℕ) (sp : ℕ) (dst : List ℕ) (dp : ℕ)
    → length dst < dp + n
    → move n src sp dst dp ≡ faults
unfolding move
move-past n src sp dst dp past = ground arith
