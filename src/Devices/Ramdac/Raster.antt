-- ===== src/Devices/Ramdac/Raster.antt =====
-- The raster: the place of a word, and the step to the next place.
use rabbits.Base.{
  ℕ, ◌+◌, ◌*◌, ◌/◌, ◌%◌, ◌^◌, ◌≤◌, ◌<◌, ◌≡◌, ◌∙◌, inl, inr, refl, ap, returns, ==_of_ne, lt_or_le,
  arith,
}
use native.Mathlib.Nat.{mod-eq_of_lt, mod_self}
use rabbits.Devices.DoubleBuffer.{Both}
use rabbits.Devices.Ramdac.{Ramdac, position, modulo, advance, end_frame}

-- The words of a line, of a frame, and before the place.
abbrev pub row : Ramdac → ℕ
row s = s.width / 4 * s.components

abbrev pub frame : Ramdac → ℕ
frame s = row s * s.height

abbrev pub index : Ramdac → ℕ
index s = s.m_y * row s + s.m_x

-- A controller whose width is a multiple of 4, at a place within the frame, whose frames are shorter
-- than 2 ^ 32 bytes and whose images have the size of one.
abbrev pub Good : Ramdac → Type 0
Good s =
    (s.width % 4 ≡ 0)
    × (s.m_x < row s)
    × (s.m_y < s.height)
    × (s.ii < 2)
    × (4 * frame s < 2 ^ 32)
    × Both (4 * frame s) s.images

line_end : (y h r : ℕ) → y < h → y * r + r ≤ r * h
line_end y h r lt = grind arith

pub index-lt : (s : Ramdac) → Good s → index s < frame s
index-lt s (lines, x, y, ii, fits, both) = omega (arith, line_end s.m_y s.height (row s) y)

-- The numbers of a frame fit in 32 bits.
fits_line : (s : Ramdac) → Good s → row s % 2 ^ 32 ≡ row s
fits_line s (lines, x, y, ii, fits, both) = omega (arith, line_end s.m_y s.height (row s) y)

next_x : (s : Ramdac) → Good s → (s.m_x + 1) % 2 ^ 32 ≡ s.m_x + 1
next_x s (lines, x, y, ii, fits, both) = omega (arith, line_end s.m_y s.height (row s) y)

next_y : (s : Ramdac) → Good s → (s.m_y + 1) % 2 ^ 32 ≡ s.m_y + 1
next_y s (lines, x, y, ii, fits, both) =
    omega (arith, at_least s.m_y s.height (row s) y (omega arith))
  where
    at_least : (m h r : ℕ) → m < h → 0 < r → m + 1 ≤ r * h
    at_least m h r lt some_words = grind arith

mul_comm : (a b : ℕ) → a * b ≡ b * a
mul_comm a b = omega arith

places : (y w c : ℕ) → y * (4 * w) * c ≡ 4 * (y * (w * c))
places y w c = grind arith

pub position-index : (s : Ramdac) → Good s → position s ≡ index s
unfolding position
position-index s (lines, x, y, ii, fits, both) =
    let whole : s.width ≡ 4 * (s.width / 4) = omega arith in
    let at : s.m_y * s.width * s.components ≡ 4 * (s.m_y * row s) =
      ap (λ w. s.m_y * w * s.components) whole ∙ places s.m_y (s.width / 4) s.components in
    let below = line_end s.m_y s.height (row s) y in rw at (omega arith)

modulo_below : (a b : ℕ) → a < b → modulo a b ≡ returns a
unfolding modulo
modulo_below a b lt = rw (==_of_ne b 0 (λ e. absurd (omega arith)), mod-eq_of_lt lt) refl

modulo_self : (b : ℕ) → 0 < b → modulo b b ≡ returns 0
unfolding modulo
modulo_self b lt = rw (==_of_ne b 0 (λ e. absurd (omega arith)), mod_self b) refl

next_row : (y r : ℕ) → (y + 1) * r ≡ y * r + r
next_row y r = grind arith

more_lines : (x y r h : ℕ) → x + 1 ≡ r → y < h → y * r + x + 1 < r * h → y + 1 < h
more_lines x y r h full lt more = elim (lt_or_le (y + 1) h) [
  | inl below ↦ below
  | inr last ↦
      let at : h ≡ y + 1 = omega arith in
      let size : r * h ≡ (y + 1) * r = ap (λ k. r * k) at ∙ mul_comm r (y + 1) in
      absurd (omega (arith, next_row y r))
]

next_index : (x y r : ℕ) → x + 1 ≡ r → (y + 1) * r + 0 ≡ y * r + x + 1
next_index x y r full = omega (arith, next_row y r)

last_place : (x y r h : ℕ) → x < r → y < h → y * r + x + 1 ≡ r * h → (x + 1 ≡ r) × (y + 1 ≡ h)
last_place x y r h hx hy last = (
  omega (arith, line_end y h r hy),
  elim (lt_or_le (y + 1) h) [
    | inl below ↦ absurd (omega (arith, line_end (y + 1) h r below, next_row y r))
    | inr over ↦ omega arith
  ],
)

-- What a step inside the frame leaves.
abbrev pub Steps : Ramdac → Ramdac → Type 0
Steps s s' =
    Good s'
    × (index s' ≡ index s + 1)
    × (frame s' ≡ frame s)
    × (s'.images ≡ s.images)
    × (s'.ii ≡ s.ii)
    × (s'.nb_images ≡ s.nb_images)

pub advance-inside :
    (frames : ℕ) (s : Ramdac)
    → Good s
    → index s + 1 < frame s
    → (s' : Ramdac) × (advance frames s ≡ returns s') × Steps s s'
unfolding advance
advance-inside frames s good more =
    let (lines, x, y, ii, fits, both) = good in
    elim (lt_or_le (s.m_x + 1) (row s)) [
      | inl in_line ↦ (
        record s { m_x = s.m_x + 1 },
        rw
            (
              next_x s good,
              fits_line s good,
              modulo_below (s.m_x + 1) (row s) in_line,
              ==_of_ne (s.m_x + 1) 0 (λ e. absurd (omega arith)),
            )
            refl,
        ((lines, in_line, y, ii, fits, both), omega arith, refl, refl, refl, refl),
      )
      | inr end_of_line ↦
          let full : s.m_x + 1 ≡ row s = omega arith in
          let next_line = more_lines s.m_x s.m_y (row s) s.height full y more in
          (
            record s { m_x = 0; m_y = s.m_y + 1 },
            rw
                (
                  next_x s good,
                  fits_line s good,
                  next_y s good,
                  full,
                  modulo_self (row s) (omega arith),
                  modulo_below (s.m_y + 1) s.height next_line,
                  ==_of_ne (s.m_y + 1) 0 (λ e. absurd (omega arith)),
                )
                refl,
            (
              (lines, omega arith, next_line, ii, fits, both),
              next_index s.m_x s.m_y (row s) full,
              refl,
              refl,
              refl,
              refl,
            ),
          )
    ]

pub advance-last :
    (frames : ℕ) (s : Ramdac)
    → Good s
    → index s + 1 ≡ frame s
    → advance frames s ≡ end_frame frames (record s { m_x = 0; m_y = 0 })
unfolding advance
advance-last frames s good last =
    let (lines, x, y, ii, fits, both) = good in
    let (line_full, frame_full) = last_place s.m_x s.m_y (row s) s.height x y last in
    rw
      (
        next_x s good,
        fits_line s good,
        next_y s good,
        line_full,
        modulo_self (row s) (omega arith),
        frame_full,
        modulo_self s.height (omega arith),
      )
      refl
