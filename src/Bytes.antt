-- ===== src/Bytes.antt =====
-- The 8 data bytes of a packet, and their reading as two little-endian 32-bit words, which is how
-- the devices cast `data` on the 32-bit host.
use rabbits.Base.{
  ℕ, ◌+◌, ◌*◌, ◌/◌, ◌%◌, ◌^◌, ◌≤◌, ◌<◌, ◌≡◌, ◌∙◌, arith, List, length, get_or, set, length-set,
  get_or-set_self, get_or-set_ne, bit_and, Bool, not, ◌≢◌, ◌⊎◌, inl, inr, refl, lt_or_le, ◌==◌,
  if◌then◌else◌,
}

-- `*(uint32_t *) (d + p)`.
abbrev pub word_at : List ℕ → ℕ → ℕ
word_at d p =
    get_or d p 0
    + 256 * get_or d (p + 1) 0
    + 65536 * get_or d (p + 2) 0
    + 16777216 * get_or d (p + 3) 0

-- `*(uint32_t *) (d + p) = v`.
abbrev pub set_word_at : List ℕ → ℕ → ℕ → List ℕ
set_word_at d p v =
    set (set (set (set d p (v % 256)) (p + 1) (v / 256 % 256)) (p + 2) (v / 65536 % 256)) (p + 3)
      (v / 16777216 % 256)

-- `((uint32_t *) data)[i]`.
unfoldable pub word32 : List ℕ → ℕ → ℕ
word32 d i = word_at d (4 * i)

-- `((uint32_t *) data)[i] = v`.
unfoldable pub set_word32 : List ℕ → ℕ → ℕ → List ℕ
set_word32 d i v = set_word_at d (4 * i) v

-- `be & 0xF0`: the access is to the upper word.
abbrev pub upper : ℕ → Bool
upper be = not (bit_and be 0xF0 == 0)

pub length-set_word32 : (d : List ℕ) (i v : ℕ) → length (set_word32 d i v) ≡ length d
unfolding set_word32
length-set_word32 d i v = omega (arith, length-set {0})

-- Four bytes stored side by side are each read back.
module _ (d : List ℕ) (p a b c e : ℕ) (room : p + 4 ≤ length d) where
  abbrev first : List ℕ
  first = set d p a

  abbrev second : List ℕ
  second = set first (p + 1) b

  abbrev third : List ℕ
  third = set second (p + 2) c

  abbrev fourth : List ℕ
  fourth = set third (p + 3) e

  byte_three : get_or fourth (p + 3) 0 ≡ e
  byte_three = get_or-set_self third (p + 3) e 0 (omega (arith, length-set {0}))

  byte_two : get_or fourth (p + 2) 0 ≡ c
  byte_two =
      get_or-set_ne third (p + 3) (p + 2) e 0 (omega arith)
      ∙ get_or-set_self second (p + 2) c 0 (omega (arith, length-set {0}))

  byte_one : get_or fourth (p + 1) 0 ≡ b
  byte_one =
      get_or-set_ne third (p + 3) (p + 1) e 0 (omega arith)
      ∙ get_or-set_ne second (p + 2) (p + 1) c 0 (omega arith)
      ∙ get_or-set_self first (p + 1) b 0 (omega (arith, length-set {0}))

  byte_zero : get_or fourth p 0 ≡ a
  byte_zero =
      get_or-set_ne third (p + 3) p e 0 (omega arith)
      ∙ get_or-set_ne second (p + 2) p c 0 (omega arith)
      ∙ get_or-set_ne first (p + 1) p b 0 (omega arith)
      ∙ get_or-set_self d p a 0 (omega arith)

-- A word that was stored is the word that is read.
pub word_at-set_word_at :
    (d : List ℕ) (p v : ℕ) → p + 4 ≤ length d → v < 2 ^ 32 → word_at (set_word_at d p v) p ≡ v
word_at-set_word_at d p v room fits = omega (
  arith,
  byte_zero d p (v % 256) (v / 256 % 256) (v / 65536 % 256) (v / 16777216 % 256) room,
  byte_one d p (v % 256) (v / 256 % 256) (v / 65536 % 256) (v / 16777216 % 256) room,
  byte_two d p (v % 256) (v / 256 % 256) (v / 65536 % 256) (v / 16777216 % 256) room,
  byte_three d p (v % 256) (v / 256 % 256) (v / 65536 % 256) (v / 16777216 % 256) room,
)

pub word32-set_word32 :
    (d : List ℕ) (i v : ℕ) → 4 * i + 4 ≤ length d → v < 2 ^ 32 → word32 (set_word32 d i v) i ≡ v
unfolding word32 set_word32
word32-set_word32 d i v room fits = word_at-set_word_at d (4 * i) v room fits

-- The register devices shift the offset to words, and step to the upper word by the lanes.
abbrev pub lane : ℕ → ℕ
lane be = if upper be then 1 else 0

abbrev pub reg_index : ℕ → ℕ → ℕ
reg_index ofs be = ofs / 4 + lane be

-- Bytes outside a word that is stored.
byte_away :
    (d : List ℕ) (p v k : ℕ) → (k < p) ⊎ (p + 4 ≤ k) → get_or (set_word_at d p v) k 0 ≡ get_or d k 0
byte_away d p v k away =
    get_or-set_ne _ (p + 3) k _ 0 (λ e. absurd (omega arith))
    ∙ get_or-set_ne _ (p + 2) k _ 0 (λ e. absurd (omega arith))
    ∙ get_or-set_ne _ (p + 1) k _ 0 (λ e. absurd (omega arith))
    ∙ get_or-set_ne d p k _ 0 (λ e. absurd (omega arith))

apart : (i j n : ℕ) {k : ℕ} → i ≢ j → n < 4 → 4 * j + n ≡ k → (k < 4 * i) ⊎ (4 * i + 4 ≤ k)
apart i j n ne h e = elim (lt_or_le j i) [
  | inl before ↦ inl (omega arith)
  | inr behind ↦ elim (lt_or_le i j) [
    | inl after ↦ inr (omega arith)
    | inr same ↦ absurd (ne (omega arith))
  ]
]

pub word32-set_ne : (d : List ℕ) (i j v : ℕ) → i ≢ j → word32 (set_word32 d i v) j ≡ word32 d j
unfolding word32 set_word32
word32-set_ne d i j v ne =
    rw
      (
        byte_away d (4 * i) v (4 * j) (apart i j 0 ne (omega arith) (omega arith)),
        byte_away d (4 * i) v (4 * j + 1) (apart i j 1 ne (omega arith) refl),
        byte_away d (4 * i) v (4 * j + 2) (apart i j 2 ne (omega arith) refl),
        byte_away d (4 * i) v (4 * j + 3) (apart i j 3 ne (omega arith) refl),
      )
      refl
