-- ===== src/Devices/DoubleBuffer.antt =====
-- The two buffers of an image that a viewer shows in turn, as sl_framebuffer and ramdac have them.
use rabbits.Base.{
  ℕ, zero, suc, ◌+◌, ◌%◌, ◌<◌, ◌≡◌, refl, List, length, replicate, ◌==◌, if◌then◌else◌, Bool-cases,
  inl, inr, arith,
}

-- The two buffers of an image.
pub record Pair : Type 0 where
  pub front : List ℕ
  pub back : List ℕ

abbrev pub image : Pair → ℕ → List ℕ
image p idx = if idx == 0 then p.front else p.back

abbrev pub set_image : Pair → ℕ → List ℕ → Pair
set_image p idx mem = if idx == 0 then record p { front = mem } else record p { back = mem }

abbrev pub blank : ℕ → Pair
blank size = record { front = replicate size 0; back = replicate size 0 }

abbrev pub Both : ℕ → Pair → Type 0
Both n p = (length p.front ≡ n) × (length p.back ≡ n)

pub length-image : (n : ℕ) (p : Pair) (idx : ℕ) → Both n p → length (image p idx) ≡ n
length-image n p idx (f, b) = elim (Bool-cases (idx == 0)) [ inl e ↦ rw e f | inr e ↦ rw e b ]

pub set_image-Both :
    (n : ℕ) (p : Pair) (idx : ℕ) (mem : List ℕ)
    → Both n p
    → length mem ≡ n
    → Both n (set_image p idx mem)
set_image-Both n p idx mem (f, b) size = elim (Bool-cases (idx == 0)) [
  | inl e ↦ rw e (size, b)
  | inr e ↦ rw e (f, size)
]

pub image-set_self : (p : Pair) (idx : ℕ) (mem : List ℕ) → image (set_image p idx mem) idx ≡ mem
image-set_self p idx mem = elim (Bool-cases (idx == 0)) [ inl e ↦ rw e refl | inr e ↦ rw e refl ]

-- The other image of a pair.
pub image-set_other :
    (p : Pair) (idx : ℕ) (mem : List ℕ)
    → idx < 2
    → image (set_image p idx mem) ((idx + 1) % 2) ≡ image p ((idx + 1) % 2)
image-set_other p zero mem small = refl
image-set_other p (suc zero) mem small = refl
image-set_other p (suc (suc i)) mem small = absurd (omega arith)
