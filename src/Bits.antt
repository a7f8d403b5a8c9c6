-- ===== src/Bits.antt =====
-- The bits of a machine word: `&`, `|`, `^` and `~` as the code uses them, read bit by bit.
use Prim.Native.Nat.{digits, bit_and-bitwise, bit_or-bitwise, bit_xor-bitwise}
use Prim.Native.Nat.{differ}
use native.Mathlib.Nat.{pow-suc, one-le-pow, pow-le-pow_right}
use native.Mathlib.Decide.{ℕ_discrete}
use rabbits.Base.{
  ℕ, zero, suc, ◌+◌, ◌-◌, ◌*◌, ◌/◌, ◌%◌, ◌^◌, ◌≤◌, ◌<◌, bit_and, bit_or, bit_xor, min, max, ◌≡◌,
  refl, sym, ap, ◌∙◌, ◌≢◌, arith, ◌==◌, Bool, true, ◌&&◌, if◌then◌else◌,
}

-- Bit `k` of `x`, as 0 or 1.
abbrev pub bit : ℕ → ℕ → ℕ
bit x zero = x % 2
bit x (suc k) = bit (x / 2) k

-- `~v` on a word of `w` bits.
abbrev pub complement : ℕ → ℕ → ℕ
complement w v = 2 ^ w - 1 - v

pub bit-lt : (k x : ℕ) → bit x k < 2
bit-lt zero x = omega arith
bit-lt (suc k) x = bit-lt k (x / 2)

pub bit-zero : (k : ℕ) → bit 0 k ≡ 0
bit-zero zero = refl
bit-zero (suc k) = bit-zero k

-- The two native operations by one recursion over the digits.
module _ (one : ℕ → ℕ) (f : ℕ → ℕ → ℕ)
    (keep : (b : ℕ) → one b ≡ one (b / 2) * 2 + f 0 (b % 2)) where
  done : (k y : ℕ) → digits one f k 0 y ≡ one y
  done zero y = refl
  done (suc k) y = refl

  -- Two supplies of fuel that both reach the number make no difference.
  spare : (k j x y : ℕ) → x ≤ k → x ≤ j → digits one f j x y ≡ digits one f k x y
  spare k j zero y in_k in_j = done j y ∙ sym (done k y)
  spare zero j (suc x) y in_k in_j = absurd (omega arith)
  spare (suc k) zero (suc x) y in_k in_j = absurd (omega arith)
  spare (suc k) (suc j) (suc x) y in_k in_j =
      omega (arith, spare k j (suc x / 2) (y / 2) (omega arith) (omega arith))

  digits_step :
      (a b : ℕ) → digits one f a a b ≡ digits one f (a / 2) (a / 2) (b / 2) * 2 + f (a % 2) (b % 2)
  digits_step zero b = keep b
  digits_step (suc a) b =
      omega (arith, spare (suc a / 2) a (suc a / 2) (b / 2) (omega arith) (omega arith))

pub bit_and_step : (x y : ℕ) → bit_and x y ≡ min (x % 2) (y % 2) + 2 * bit_and (x / 2) (y / 2)
bit_and_step a b = omega (
  arith,
  bit_and-bitwise a b,
  bit_and-bitwise (a / 2) (b / 2),
  digits_step (λ b. zero) min (λ b. omega arith) a b,
)

pub bit_or_step : (x y : ℕ) → bit_or x y ≡ max (x % 2) (y % 2) + 2 * bit_or (x / 2) (y / 2)
bit_or_step a b = omega (
  arith,
  bit_or-bitwise a b,
  bit_or-bitwise (a / 2) (b / 2),
  digits_step (λ b. b) max (λ b. omega arith) a b,
)

differ_bits : (x y : ℕ) → x < 2 → y < 2 → differ x y ≡ (x + y) % 2
differ_bits zero y p q = omega arith
differ_bits (suc zero) zero p q = refl
differ_bits (suc zero) (suc zero) p q = refl
differ_bits (suc zero) (suc (suc y)) p q = absurd (omega arith)
differ_bits (suc (suc x)) y p q = absurd (omega arith)

pub bit_xor_step : (a b : ℕ) → bit_xor a b ≡ bit_xor (a / 2) (b / 2) * 2 + (a + b) % 2
bit_xor_step a b = omega (
  arith,
  bit_xor-bitwise a b,
  bit_xor-bitwise (a / 2) (b / 2),
  digits_step (λ b. b) differ (λ b. omega arith) a b,
  differ_bits (a % 2) (b % 2) (omega arith) (omega arith),
)

pub bit-bit_and : (k a b : ℕ) → bit (bit_and a b) k ≡ min (bit a k) (bit b k)
bit-bit_and zero a b = omega (arith, bit_and_step a b)
bit-bit_and (suc k) a b = ap (λ n. bit n k) (half a b) ∙ bit-bit_and k (a / 2) (b / 2)
  where
    half : (a b : ℕ) → bit_and a b / 2 ≡ bit_and (a / 2) (b / 2)
    half a b = omega (arith, bit_and_step a b)

pub bit-bit_or : (k a b : ℕ) → bit (bit_or a b) k ≡ max (bit a k) (bit b k)
bit-bit_or zero a b = omega (arith, bit_or_step a b)
bit-bit_or (suc k) a b = ap (λ n. bit n k) (half a b) ∙ bit-bit_or k (a / 2) (b / 2)
  where
    half : (a b : ℕ) → bit_or a b / 2 ≡ bit_or (a / 2) (b / 2)
    half a b = omega (arith, bit_or_step a b)

pub bit-bit_xor : (k a b : ℕ) → bit (bit_xor a b) k ≡ (bit a k + bit b k) % 2
bit-bit_xor zero a b = omega (arith, bit_xor_step a b)
bit-bit_xor (suc k) a b = ap (λ n. bit n k) (half a b) ∙ bit-bit_xor k (a / 2) (b / 2)
  where
    half : (a b : ℕ) → bit_xor a b / 2 ≡ bit_xor (a / 2) (b / 2)
    half a b = omega (arith, bit_xor_step a b)

-- `1 << j` has bit `j` alone.
pub bit-two_pow : (k j : ℕ) → bit (2 ^ j) k ≡ (if j == k then 1 else 0)
bit-two_pow zero zero = refl
bit-two_pow (suc k) zero = ground (arith, bit-zero k)
bit-two_pow zero (suc j) = ground (arith, pow-suc 2 j)
bit-two_pow (suc k) (suc j) =
    let half : 2 ^ suc j / 2 ≡ 2 ^ j = omega (arith, pow-suc 2 j) in
    rw half (bit-two_pow k j ∙ ground arith)

-- `~v` flips every bit of the word.
pub bit-complement : (k w v : ℕ) → k < w → v < 2 ^ w → bit (complement w v) k ≡ 1 - bit v k
bit-complement k zero v h lt = absurd (omega arith)
bit-complement zero (suc w) v h lt = omega (arith, pow-suc 2 w, one-le-pow w 2 (omega arith))
bit-complement (suc k) (suc w) v h lt =
    let half : complement (suc w) v / 2 ≡ complement w (v / 2) =
      omega (arith, pow-suc 2 w, one-le-pow w 2 (omega arith)) in
    rw half (bit-complement k w (v / 2) (omega arith) (omega (arith, pow-suc 2 w)))

-- A word that is not 0 has a bit set.
pub bit_of_ne_zero : (w x : ℕ) → x < 2 ^ w → x ≢ 0 → (k : ℕ) × (k < w) × (bit x k ≡ 1)
bit_of_ne_zero zero x lt ne = absurd (ne (omega arith))
bit_of_ne_zero (suc w) x lt ne = elim (ℕ_discrete (x % 2) 0) [
  | yes even ↦
      let (k, below, one) = bit_of_ne_zero w (x / 2) (omega (arith, pow-suc 2 w)) (omega arith) in
      (suc k, omega arith, one)
  | no odd ↦ (0, omega arith, omega arith)
]

-- No two words of `w` bits agree on every bit.
pub eq_of_bits : (w x y : ℕ) → x < 2 ^ w → y < 2 ^ w → ((k : ℕ) → k < w → bit x k ≡ bit y k) → x ≡ y
eq_of_bits zero x y hx hy same = omega arith
eq_of_bits (suc w) x y hx hy same = omega (
  arith,
  same 0 (omega arith),
  eq_of_bits w (x / 2) (y / 2) (omega (arith, pow-suc 2 w)) (omega (arith, pow-suc 2 w))
      (λ k h. same (suc k) (omega arith)),
)

-- The operations stay inside a word.
bit_and-le_fuel : (n a b : ℕ) → a ≤ n → bit_and a b ≤ a
bit_and-le_fuel zero a b h =
    let none_left : a ≡ 0 = omega arith in rw none_left (omega (arith, bit_and-bitwise 0 b))
bit_and-le_fuel (suc n) zero b h = omega (arith, bit_and-bitwise 0 b)
bit_and-le_fuel (suc n) (suc a) b h =
    omega (arith, bit_and_step (suc a) b, bit_and-le_fuel n (suc a / 2) (b / 2) (omega arith))

pub bit_and-le : (a b : ℕ) → bit_and a b ≤ a
bit_and-le a b = bit_and-le_fuel a a b (omega arith)

pub bit_or-lt : (w a b : ℕ) → a < 2 ^ w → b < 2 ^ w → bit_or a b < 2 ^ w
bit_or-lt zero a b ha hb =
    let a_zero : a ≡ 0 = omega arith in
    let b_zero : b ≡ 0 = omega arith in rw (a_zero, b_zero) (omega arith)
bit_or-lt (suc w) a b ha hb = omega (
  arith,
  pow-suc 2 w,
  bit_or_step a b,
  bit_or-lt w (a / 2) (b / 2) (omega (arith, pow-suc 2 w)) (omega (arith, pow-suc 2 w)),
)

pub lt-two_pow : (n : ℕ) → n < 2 ^ n
lt-two_pow zero = omega arith
lt-two_pow (suc n) = omega (arith, lt-two_pow n, pow-suc 2 n)

-- A mask of `w` ones keeps a word of `w` bits.
pub bit_and_ones : (w x : ℕ) → x < 2 ^ w → bit_and x (2 ^ w - 1) ≡ x
bit_and_ones zero x h =
    let none_left : x ≡ 0 = omega arith in rw none_left (omega (arith, bit_and-bitwise 0 0))
bit_and_ones (suc w) x h =
    let half : (2 ^ suc w - 1) / 2 ≡ 2 ^ w - 1 =
      omega (arith, pow-suc 2 w, one-le-pow w 2 (omega arith)) in
    let odd : (2 ^ suc w - 1) % 2 ≡ 1 = omega (arith, pow-suc 2 w, one-le-pow w 2 (omega arith)) in
    rw
      (
        bit_and_step x (2 ^ suc w - 1),
        half,
        odd,
        bit_and_ones w (x / 2) (omega (arith, pow-suc 2 w)),
      )
      (omega arith)

pub bit_and-zero : (a : ℕ) → bit_and a 0 ≡ 0
bit_and-zero a = omega (arith, eq_of_bits a (bit_and a 0) 0 small small_zero same)
  where
    small : bit_and a 0 < 2 ^ a
    small = omega (arith, bit_and-le a 0, lt-two_pow a)

    small_zero : 0 < 2 ^ a
    small_zero = one-le-pow a 2 (omega arith)

    same : (k : ℕ) → k < a → bit (bit_and a 0) k ≡ bit 0 k
    same k h = omega (arith, bit-bit_and k a 0, bit-zero k)

-- `x & 7` and `x & ~7`.
pub bit_and_seven : (x : ℕ) → bit_and x 7 ≡ x % 8
bit_and_seven x = omega (
  arith,
  bit_and_step x 7,
  bit_and_step (x / 2) 3,
  bit_and_step (x / 2 / 2) 1,
  bit_and-zero (x / 2 / 2 / 2),
)

pub bit_and_not_seven : (x : ℕ) → x < 2 ^ 32 → bit_and x 0xFFFFFFF8 ≡ x - x % 8
bit_and_not_seven x h = omega (
  arith,
  bit_and_step x 0xFFFFFFF8,
  bit_and_step (x / 2) 0x7FFFFFFC,
  bit_and_step (x / 2 / 2) 0x3FFFFFFE,
  bit_and_ones 29 (x / 2 / 2 / 2) (omega arith),
)

-- `x & ~3`.
pub bit_and_not_three : (x : ℕ) → x < 2 ^ 32 → bit_and x 0xFFFFFFFC ≡ x - x % 4
bit_and_not_three x h = omega (
  arith,
  bit_and_step x 0xFFFFFFFC,
  bit_and_step (x / 2) 0x7FFFFFFE,
  bit_and_ones 30 (x / 2 / 2) (omega arith),
)

-- Over a small range, check every value by evaluation.
unfoldable pub all_below : ℕ → (ℕ → Bool) → Bool
all_below zero p = true
all_below (suc n) p = p n && all_below n p

pub all_below_lem : (n : ℕ) (p : ℕ → Bool) (x : ℕ) → all_below n p ≡ true → x < n → p x ≡ true
unfolding all_below
all_below_lem zero p x h lt = absurd (omega arith)
all_below_lem (suc n) p x h lt = ground (arith, all_below_lem n p x)

-- `x & (1 << j)` keeps bit `j`.
pub bit_and_two_pow : (j x : ℕ) → bit_and x (2 ^ j) ≡ bit x j * 2 ^ j
bit_and_two_pow zero x = omega (arith, bit_and_step x 1, bit_and-zero (x / 2))
bit_and_two_pow (suc j) x =
    let half : 2 ^ suc j / 2 ≡ 2 ^ j = omega (arith, pow-suc 2 j) in
    let even : 2 ^ suc j % 2 ≡ 0 = omega (arith, pow-suc 2 j) in
    rw (bit_and_step x (2 ^ suc j), half, even, bit_and_two_pow j (x / 2))
      (omega (arith, ap (λ (t : ℕ). bit (x / 2) j * t) (pow-suc 2 j)))

pub two_pow-lt : (j w : ℕ) → j < w → 2 ^ j < 2 ^ w
two_pow-lt j w h = omega (arith, two_pow-le (suc j) w h, pow-suc 2 j, one-le-pow j 2 (omega arith))
  where
    two_pow-le : (i k : ℕ) → i ≤ k → 2 ^ i ≤ 2 ^ k
    two_pow-le i k h = pow-le-pow_right (omega arith) h
