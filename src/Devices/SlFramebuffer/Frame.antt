-- ===== src/Devices/SlFramebuffer/Frame.antt =====
-- The conversion of a frame of the planar 4:2:2 mode.
use rabbits.Base.{
  ℕ, zero, suc, ◌+◌, ◌*◌, ◌/◌, ◌≤◌, ◌<◌, ◌≡◌, ◌⊎◌, ◌∙◌, inl, inr, refl, ap, List, Outcome, returns,
  length, get_or, set, length-set, get_or-set_self, get_or-set_ne, load-eq, store-eq, arith,
  lt_or_le,
}
use mathlib.Core.Path.{subst}
use rabbits.Devices.SlFramebuffer.{put_rgb, convert_from}
use rabbits.Devices.SlFramebuffer.Colour.{yuv2rgb}

-- Three bytes stored side by side.
abbrev pub painted : ℕ × ℕ × ℕ → ℕ → List ℕ → List ℕ
painted (r, g, b) at rgb = set (set (set rgb at r) (at + 1) g) (at + 2) b

pub length-painted :
    (c : ℕ × ℕ × ℕ) (at : ℕ) (rgb : List ℕ) → length (painted c at rgb) ≡ length rgb
length-painted (r, g, b) at rgb =
    length-set (set (set rgb at r) (at + 1) g) (at + 2) b
    ∙ length-set (set rgb at r) (at + 1) g
    ∙ length-set rgb at r

put_rgb-eq :
    (c : ℕ × ℕ × ℕ) (at : ℕ) (rgb : List ℕ)
    → at + 3 ≤ length rgb
    → put_rgb c at rgb ≡ returns (painted c at rgb)
unfolding put_rgb
put_rgb-eq (r, g, b) at rgb room =
    rw
      (
        store-eq rgb at r (omega arith),
        store-eq (set rgb at r) (at + 1) g (omega (arith, length-set rgb at r)),
      )
      (store-eq (set (set rgb at r) (at + 1) g) (at + 2) b
        (omega (arith, length-set rgb at r, length-set (set rgb at r) (at + 1) g)))

-- The three bytes of pixel `p`.
abbrev pub pixel : List ℕ → ℕ → ℕ × ℕ × ℕ
pixel rgb p = (get_or rgb (3 * p) 0, get_or rgb (3 * p + 1) 0, get_or rgb (3 * p + 2) 0)

-- The colour of pixel `p`: each pair of pixels shares its `u` and its `v`.
abbrev pub colour : List ℕ → (wh p : ℕ) → ℕ × ℕ × ℕ
colour yuv wh p =
    yuv2rgb (get_or yuv p 0) (get_or yuv (wh + p / 2) 0) (get_or yuv (wh + wh / 2 + p / 2) 0)

painted_away :
    (c : ℕ × ℕ × ℕ) (at : ℕ) (rgb : List ℕ) (k : ℕ)
    → (k < at) ⊎ (at + 3 ≤ k)
    → get_or (painted c at rgb) k 0 ≡ get_or rgb k 0
painted_away (r, g, b) at rgb k away =
    get_or-set_ne (set (set rgb at r) (at + 1) g) (at + 2) k b 0 (λ e. absurd (omega arith))
    ∙ get_or-set_ne (set rgb at r) (at + 1) k g 0 (λ e. absurd (omega arith))
    ∙ get_or-set_ne rgb at k r 0 (λ e. absurd (omega arith))

abbrev triple : ℕ → ℕ → ℕ → ℕ × ℕ × ℕ
triple a b c = (a, b, c)

triple_eq : {a b c a' b' c' : ℕ} → a ≡ a' → b ≡ b' → c ≡ c' → triple a b c ≡ triple a' b' c'
triple_eq {a} {b} {c} {a'} {b'} {c'} e f g =
    ap (λ x. triple x b c) e ∙ ap (λ x. triple a' x c) f ∙ ap (λ x. triple a' b' x) g

pixel-painted :
    (c : ℕ × ℕ × ℕ) (p at : ℕ) (rgb : List ℕ)
    → at ≡ 3 * p
    → at + 3 ≤ length rgb
    → pixel (painted c at rgb) p ≡ c
pixel-painted (r, g, b) p at rgb place room =
    let one = set rgb at r in
    let two = set one (at + 1) g in
    subst
      (λ k.
        triple (get_or (set two (at + 2) b) k 0) (get_or (set two (at + 2) b) (k + 1) 0)
          (get_or (set two (at + 2) b) (k + 2) 0)
        ≡ (r, g, b))
      place
      (triple_eq
        (get_or-set_ne two (at + 2) at b 0 (λ e. absurd (omega arith))
          ∙ get_or-set_ne one (at + 1) at g 0 (λ e. absurd (omega arith))
          ∙ get_or-set_self rgb at r 0 (omega arith))
        (get_or-set_ne two (at + 2) (at + 1) b 0 (λ e. absurd (omega arith))
          ∙ get_or-set_self one (at + 1) g 0 (omega (arith, length-set rgb at r)))
        (get_or-set_self two (at + 2) b 0
          (omega (arith, length-set rgb at r, length-set one (at + 1) g))))

pixel_away :
    (c : ℕ × ℕ × ℕ) (at : ℕ) (rgb : List ℕ) (p : ℕ)
    → (3 * p + 3 ≤ at) ⊎ (at + 3 ≤ 3 * p)
    → pixel (painted c at rgb) p ≡ pixel rgb p
pixel_away c at rgb p away =
    triple_eq (painted_away c at rgb (3 * p) (omega arith))
      (painted_away c at rgb (3 * p + 1) (omega arith))
      (painted_away c at rgb (3 * p + 2) (omega arith))

-- What the rounds from `i` on make of an image.
abbrev pub Converts : (n i wh : ℕ) → List ℕ → List ℕ → Outcome (List ℕ) → Type 0
Converts n i wh yuv rgb o =
    (rgb' : List ℕ) × (o ≡ returns rgb')
    × (length rgb' ≡ length rgb)
    × ((p : ℕ) → 2 * i ≤ p → p < 2 * (i + n) → pixel rgb' p ≡ colour yuv wh p)
    × ((p : ℕ) → (p < 2 * i) ⊎ (2 * (i + n) ≤ p) → pixel rgb' p ≡ pixel rgb p)

module _ (wh : ℕ) (yuv : List ℕ) (planes : length yuv ≡ 2 * wh) where
  abbrev both : (k i : ℕ) → ℕ × ℕ × ℕ
  both k i = yuv2rgb (get_or yuv k 0) (get_or yuv (wh + i) 0) (get_or yuv (wh + wh / 2 + i) 0)

  colour-both : (p k i : ℕ) → k ≡ p → p / 2 ≡ i → both k i ≡ colour yuv wh p
  colour-both p k i at half = rw (at, half) refl

  pub convert_from-Converts :
      (n i : ℕ) (rgb : List ℕ)
      → i + n ≤ wh / 2
      → length rgb ≡ 3 * wh
      → Converts n i wh yuv rgb (convert_from n i wh yuv rgb)
  unfolding convert_from
  convert_from-Converts zero i rgb room size =
      (rgb, refl, refl, λ p lo hi. absurd (omega arith), λ p away. refl)
  convert_from-Converts (suc n) i rgb room size =
      let first = both (i * 2) i in
      let second = both (i * 2 + 1) i in
      let once = painted first (6 * i) rgb in
      let twice = painted second (6 * i + 3) once in
      let (rgb', runs, size', done, kept) =
        convert_from-Converts n (i + 1) twice (omega arith)
          (length-painted second (6 * i + 3) once ∙ length-painted first (6 * i) rgb ∙ size) in
      (
        rgb',
        rw
            (
              load-eq yuv (i * 2) 0 (omega arith),
              load-eq yuv (wh + i) 0 (omega arith),
              load-eq yuv (wh + wh / 2 + i) 0 (omega arith),
              put_rgb-eq first (6 * i) rgb (omega arith),
              load-eq yuv (i * 2 + 1) 0 (omega arith),
              put_rgb-eq second (6 * i + 3) once (omega (arith, length-painted first (6 * i) rgb)),
            )
            runs,
        size' ∙ length-painted second (6 * i + 3) once ∙ length-painted first (6 * i) rgb,
        λ p lo hi. elim (lt_or_le p (2 * (i + 1))) [
          | inr later ↦ done p later (omega arith)
          | inl here ↦ kept p (inl here) ∙ elim (lt_or_le p (2 * i + 1)) [
            | inl even ↦
                pixel_away second (6 * i + 3) once p (inl (omega arith))
                ∙ pixel-painted first p (6 * i) rgb (omega arith) (omega arith)
                ∙ colour-both p (i * 2) i (omega arith) (omega arith)
            | inr odd ↦
                pixel-painted second p (6 * i + 3) once (omega arith)
                  (omega (arith, length-painted first (6 * i) rgb))
                ∙ colour-both p (i * 2 + 1) i (omega arith) (omega arith)
          ]
        ],
        λ p away.
            kept p (omega arith)
            ∙ pixel_away second (6 * i + 3) once p (omega arith)
            ∙ pixel_away first (6 * i) rgb p (omega arith),
      )
