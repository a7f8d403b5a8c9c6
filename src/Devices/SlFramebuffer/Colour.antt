-- ===== src/Devices/SlFramebuffer/Colour.antt =====
-- The conversion of one pixel, `yuv2rgb`, and the integers that it computes with.
use rabbits.Base.{
  ℕ, suc, ◌+◌, ◌-◌, ◌*◌, ◌/◌, min, ◌≡◌, ◌∙◌, refl, sym, ap, ap₂, arith, ltb, leb, if◌then◌else◌,
}

-- `negsuc n` is -(n + 1).
pub data ℤ : Type 0 where
  pos : ℕ → ℤ
  negsuc : ℕ → ℤ

abbrev pub pos_part : ℤ → ℕ
pos_part (pos n) = n
pos_part (negsuc n) = 0

abbrev pub neg_part : ℤ → ℕ
neg_part (pos n) = 0
neg_part (negsuc n) = suc n

-- `a - b`.
unfoldable pub minus : ℕ → ℕ → ℤ
minus a b = if leb b a then pos (a - b) else negsuc (b - a - 1)

infixl 65 ◌+ℤ◌
infixl 70 ◌*ℤ◌
abbrev pub ◌+ℤ◌ : ℤ → ℤ → ℤ
a +ℤ b = minus (pos_part a + pos_part b) (neg_part a + neg_part b)

abbrev pub ◌*ℤ◌ : ℤ → ℤ → ℤ
a *ℤ b =
    minus (pos_part a * pos_part b + neg_part a * neg_part b)
      (pos_part a * neg_part b + neg_part a * pos_part b)

-- `>> 8`, which keeps the sign: the division rounds down.
abbrev pub shift_8 : ℤ → ℤ
shift_8 (pos n) = pos (n / 256)
shift_8 (negsuc n) = negsuc (n / 256)

-- `(x < (1 << 8)) ? ((x >= 0) ? x : 0) : 0xFF`.
abbrev pub clip : ℤ → ℕ
clip (pos n) = if ltb n 256 then n else 0xFF
clip (negsuc n) = 0

-- The sums stay far below 2 ^ 31.
unfoldable pub yuv2rgb : (y u v : ℕ) → ℕ × ℕ × ℕ
yuv2rgb y u v =
    let y_tmp = minus y 16 *ℤ pos 298 in
    let u_tmp = minus u 128 in
    let v_tmp = minus v 128 in
    let r_tmp = y_tmp +ℤ pos 0 +ℤ v_tmp *ℤ pos 409 +ℤ pos 128 in
    let g_tmp = y_tmp +ℤ u_tmp *ℤ negsuc 99 +ℤ v_tmp *ℤ negsuc 207 +ℤ pos 128 in
    let b_tmp = y_tmp +ℤ u_tmp *ℤ pos 516 +ℤ pos 0 +ℤ pos 128 in
    (clip (shift_8 r_tmp), clip (shift_8 g_tmp), clip (shift_8 b_tmp))

-- The difference of two sums in units of 256, cut to a byte.
abbrev pub level : (plus less : ℕ) → ℕ
level plus less = min 255 ((plus - less) / 256)

-- `z` is `plus - less`.
abbrev Is : ℤ → (plus less : ℕ) → Type 0
Is z plus less = pos_part z + less ≡ neg_part z + plus

minus-Is : (a b : ℕ) → Is (minus a b) a b
unfolding minus
minus-Is a b = ground arith

clip-level : (z : ℤ) (plus less : ℕ) → Is z plus less → clip (shift_8 z) ≡ level plus less
clip-level (pos n) plus less is = let same : plus - less ≡ n = omega arith in rw same (ground arith)
clip-level (negsuc n) plus less is =
    let same : plus - less ≡ 0 = omega arith in rw same (omega arith)

+ℤ-Is : (a b : ℤ) (p q r s : ℕ) → Is a p q → Is b r s → Is (a +ℤ b) (p + r) (q + s)
+ℤ-Is a b p q r s h k = omega (arith, minus-Is (pos_part a + pos_part b) (neg_part a + neg_part b))

distribute : (k a b c d : ℕ) → a + b ≡ c + d → k * a + k * b ≡ k * c + k * d
distribute k a b c d h =
    let left : k * (a + b) ≡ k * a + k * b = grind arith in
    let right : k * (c + d) ≡ k * c + k * d = grind arith in sym left ∙ ap (λ x. k * x) h ∙ right

times-Is : (a : ℤ) (p q k : ℕ) → Is a p q → Is (a *ℤ pos k) (k * p) (k * q)
times-Is a p q k h =
    let scaled = distribute k (pos_part a) q (neg_part a) p h in
    let d = minus-Is (pos_part a * k + neg_part a * 0) (pos_part a * 0 + neg_part a * k) in
    grind arith

minus_times-Is : (a : ℤ) (p q k : ℕ) → Is a p q → Is (a *ℤ negsuc k) (suc k * q) (suc k * p)
minus_times-Is a p q k h =
    let scaled = distribute (suc k) (pos_part a) q (neg_part a) p h in
    let d = minus-Is (pos_part a * 0 + neg_part a * suc k) (pos_part a * suc k + neg_part a * 0) in
    grind arith

sum-level :
    (a b c : ℤ) (p q r s t w : ℕ)
    → Is a p q
    → Is b r s
    → Is c t w
    → clip (shift_8 (a +ℤ b +ℤ c +ℤ pos 128)) ≡ level (p + r + t + 128) (q + s + w + 0)
sum-level a b c p q r s t w ha hb hc =
    clip-level (a +ℤ b +ℤ c +ℤ pos 128) (p + r + t + 128) (q + s + w + 0) (
      +ℤ-Is (a +ℤ b +ℤ c) (pos 128) (p + r + t) (q + s + w) 128 0
        (+ℤ-Is (a +ℤ b) c (p + r) (q + s) t w (+ℤ-Is a b p q r s ha hb) hc) (omega arith))

abbrev triple : ℕ → ℕ → ℕ → ℕ × ℕ × ℕ
triple a b c = (a, b, c)

three : {a b c a' b' c' : ℕ} → a ≡ a' → b ≡ b' → c ≡ c' → triple a b c ≡ triple a' b' c'
three {a} {b} {c} {a'} {b'} {c'} e f g =
    ap (λ x. triple x b c) e ∙ ap (λ x. triple a' x c) f ∙ ap (λ x. triple a' b' x) g

-- Each colour that `yuv2rgb` computes is the sum of the weighted parts of the pixel and of 128, half a
-- unit, in units of 256, rounded down and cut to a byte: a sum below 0 gives 0 and one from 256 units
-- on gives 255.
pub yuv2rgb-level :
    (y u v : ℕ)
    → yuv2rgb y u v ≡ (
      level (298 * y + 409 * v + 128) (298 * 16 + 409 * 128),
      level (298 * y + 100 * 128 + 208 * 128 + 128) (298 * 16 + 100 * u + 208 * v),
      level (298 * y + 516 * u + 128) (298 * 16 + 516 * 128),
    )
unfolding yuv2rgb
yuv2rgb-level y u v =
    let luma = minus y 16 *ℤ pos 298 in
    let red = minus v 128 *ℤ pos 409 in
    let green_u = minus u 128 *ℤ negsuc 99 in
    let green_v = minus v 128 *ℤ negsuc 207 in
    let blue = minus u 128 *ℤ pos 516 in
    let luma-Is : Is luma (298 * y) (298 * 16) = times-Is (minus y 16) y 16 298 (minus-Is y 16) in
    let red-Is : Is red (409 * v) (409 * 128) = times-Is (minus v 128) v 128 409 (minus-Is v 128) in
    let green_u-Is : Is green_u (100 * 128) (100 * u) =
      minus_times-Is (minus u 128) u 128 99 (minus-Is u 128) in
    let green_v-Is : Is green_v (208 * 128) (208 * v) =
      minus_times-Is (minus v 128) v 128 207 (minus-Is v 128) in
    let blue-Is : Is blue (516 * u) (516 * 128) =
      times-Is (minus u 128) u 128 516 (minus-Is u 128) in
    let zero-Is : Is (pos 0) 0 0 = refl in
    three
      (sum-level luma (pos 0) red (298 * y) (298 * 16) 0 0 (409 * v) (409 * 128) luma-Is zero-Is
          red-Is
        ∙ ap₂ level (omega arith) (omega arith))
      (sum-level luma green_u green_v (298 * y) (298 * 16) (100 * 128) (100 * u) (208 * 128)
          (208 * v) luma-Is green_u-Is green_v-Is
        ∙ ap₂ level (omega arith) (omega arith))
      (sum-level luma blue (pos 0) (298 * y) (298 * 16) (516 * u) (516 * 128) 0 0 luma-Is blue-Is
          zero-Is
        ∙ ap₂ level (omega arith) (omega arith))
