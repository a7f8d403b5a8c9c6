-- ===== src/Devices/SlFramebuffer/Words.antt =====
-- One word of the buffer after the bytes that a mask selects are written.
use rabbits.Base.{
  ℕ, zero, suc, ◌+◌, ◌-◌, ◌*◌, ◌/◌, ◌^◌, ◌≤◌, ◌<◌, min, max, ◌≡◌, ◌≢◌, ◌∙◌, refl, ap, ap₂, true,
  List, length, get_or, ◌==◌, ==_iff, if◌then◌else◌, bit_and, returns, leb, leb_of_le, arith,
}
use native.Mathlib.Nat.{pow-suc}
use rabbits.Bits.{
  bit, complement, bit-lt, bit-bit_and, bit-bit_or, bit-complement, bit_and_step, bit_or-lt,
  bit_and-zero, all_below, all_below_lem,
}
use rabbits.Bytes.{word32, set_word32, length-set_word32, word32-set_word32, word32-set_ne}
use rabbits.Devices.SlFramebuffer.{s_mask, merge, merge_word}

abbrev pub mask_of : ℕ → ℕ
mask_of lanes = get_or s_mask lanes 0

-- Bit `q` of the mask is that of the lane of its byte.
mask_table :
    all_below 16 (λ lanes. all_below 32 (λ q. bit (mask_of lanes) q == bit lanes (q / 8))) ≡ true
unfolding all_below
mask_table = refl

pub mask_of-bit : (lanes q : ℕ) → lanes < 16 → q < 32 → bit (mask_of lanes) q ≡ bit lanes (q / 8)
mask_of-bit lanes q small inside =
    let row =
      all_below_lem 16 (λ l. all_below 32 (λ k. bit (mask_of l) k == bit l (k / 8))) lanes
        mask_table small in
    (==_iff (bit (mask_of lanes) q) (bit lanes (q / 8))).0
      (all_below_lem 32 (λ k. bit (mask_of lanes) k == bit lanes (k / 8)) q row inside)

mask_small : all_below 16 (λ lanes. leb (mask_of lanes) 0xFFFFFFFF) ≡ true
unfolding all_below
mask_small = refl

leb-le : (a b : ℕ) → leb a b ≡ true → a ≤ b
leb-le a b h = ground arith

pub mask_of-lt : (lanes : ℕ) → lanes < 16 → mask_of lanes < 2 ^ 32
mask_of-lt lanes small =
    let le =
      leb-le (mask_of lanes) 0xFFFFFFFF
        (all_below_lem 16 (λ l. leb (mask_of l) 0xFFFFFFFF) lanes mask_small small) in
    omega arith

bit_and-lt_right : (w a b : ℕ) → b < 2 ^ w → bit_and a b < 2 ^ w
bit_and-lt_right zero a b h =
    let b_zero : b ≡ 0 = omega arith in rw (b_zero, bit_and-zero a) (omega arith)
bit_and-lt_right (suc w) a b h = omega (
  arith,
  pow-suc 2 w,
  bit_and_step a b,
  bit_and-lt_right w (a / 2) (b / 2) (omega (arith, pow-suc 2 w)),
)

merge-lt : (tmp val lanes : ℕ) → lanes < 16 → merge tmp val (mask_of lanes) < 2 ^ 32
unfolding merge
merge-lt tmp val lanes small =
    bit_or-lt 32 (bit_and tmp (complement 32 (mask_of lanes))) (bit_and val (mask_of lanes))
      (bit_and-lt_right 32 tmp (complement 32 (mask_of lanes)) (omega arith))
      (bit_and-lt_right 32 val (mask_of lanes) (mask_of-lt lanes small))

-- A byte whose lane is up comes from `val`, the others from `tmp`.
abbrev pub Merged : (tmp val lanes word : ℕ) → Type 0
Merged tmp val lanes word =
    (q : ℕ) → q < 32 → bit word q ≡ (if bit lanes (q / 8) == 1 then bit val q else bit tmp q)

select :
    (m t v : ℕ) → m < 2 → t < 2 → v < 2 → max (min t (1 - m)) (min v m) ≡ (if m == 1 then v else t)
select m t v hm ht hv = ground arith

merge-Merged :
    (tmp val lanes : ℕ) → lanes < 16 → Merged tmp val lanes (merge tmp val (mask_of lanes))
unfolding merge
merge-Merged tmp val lanes small q inside =
    let mask = mask_of lanes in
    let m = bit lanes (q / 8) in
    let same = mask_of-bit lanes q small inside in
    bit-bit_or q (bit_and tmp (complement 32 mask)) (bit_and val mask)
    ∙ ap₂ max
        (bit-bit_and q tmp (complement 32 mask)
          ∙ ap (min (bit tmp q))
              (bit-complement q 32 mask inside (mask_of-lt lanes small) ∙ ap (λ b. 1 - b) same))
        (bit-bit_and q val mask ∙ ap (min (bit val q)) same)
    ∙ select m (bit tmp q) (bit val q) (bit-lt (q / 8) lanes) (bit-lt q tmp) (bit-lt q val)

-- What `merge_word` leaves of a buffer.
abbrev pub Rewritten : (lofs val lanes : ℕ) → List ℕ → List ℕ → Type 0
Rewritten lofs val lanes mem mem' =
    (length mem' ≡ length mem)
    × Merged (word32 mem lofs) val lanes (word32 mem' lofs)
    × ((j : ℕ) → lofs ≢ j → word32 mem' j ≡ word32 mem j)

pub merge_word-Rewritten :
    (mem : List ℕ) (lofs val lanes : ℕ)
    → lanes < 16
    → 4 * lofs + 4 ≤ length mem
    → (mem' : List ℕ) × (merge_word mem lofs val (mask_of lanes) ≡ returns mem')
      × Rewritten lofs val lanes mem mem'
unfolding merge_word
merge_word-Rewritten mem lofs val lanes small room =
    let word = merge (word32 mem lofs) val (mask_of lanes) in
    (
      set_word32 mem lofs word,
      rw (leb_of_le (4 * lofs + 4) (length mem) room) refl,
      (
        length-set_word32 mem lofs word,
        λ q inside.
            ap (λ w. bit w q)
              (word32-set_word32 mem lofs word room (merge-lt (word32 mem lofs) val lanes small))
            ∙ merge-Merged (word32 mem lofs) val lanes small q inside,
        λ j ne. word32-set_ne mem lofs j word ne,
      ),
    )
