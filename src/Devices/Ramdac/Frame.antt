-- ===== src/Devices/Ramdac/Frame.antt =====
-- A frame that is written word by word, and then shown.
use rabbits.Base.{
  ℕ, zero, suc, ◌+◌, ◌*◌, ◌%◌, ◌^◌, ◌≤◌, ◌<◌, ◌≡◌, ◌≢◌, ◌∙◌, inl, inr, refl, sym, ap, ap₂, List, [],
  ◌∷◌, length, get_or, returns, ◌>>=◌, ◌==◌, ==_of_ne, ==_iff, leb_of_le, Bool-cases, arith,
}
use mathlib.Core.Path.{subst}
use mathlib.Core.Bool.{false≢true}
use rabbits.Bytes.{word32, set_word32, length-set_word32, word32-set_word32, word32-set_ne}
use rabbits.Devices.DoubleBuffer.{
  image, set_image, length-image, set_image-Both, image-set_self, image-set_other,
}
use rabbits.Devices.Ramdac.{Ramdac, put_word, advance, end_frame, display, write_pixel, write_all}
use rabbits.Devices.Ramdac.Raster.{
  frame, index, Good, index-lt, position-index, Steps, advance-inside, advance-last,
}

put_word-eq :
    (mem : List ℕ) (i v : ℕ)
    → 4 * i + 4 ≤ length mem
    → put_word mem i v ≡ returns (set_word32 mem i v)
unfolding put_word
put_word-eq mem i v room = rw (leb_of_le (4 * i + 4) (length mem) room) refl

-- The buffer that is written.
abbrev pub buffer : Ramdac → List ℕ
buffer s = image s.images s.ii

-- The controller after a word is stored at its place.
abbrev stored : Ramdac → ℕ → Ramdac
stored s v = record s { images = set_image s.images s.ii (set_word32 (buffer s) (index s) v) }

length-buffer : (s : Ramdac) → Good s → length (buffer s) ≡ 4 * frame s
length-buffer s (lines, x, y, ii, fits, both) = length-image (4 * frame s) s.images s.ii both

stored-Good : (s : Ramdac) (v : ℕ) → Good s → Good (stored s v)
stored-Good s v good =
    let (lines, x, y, ii, fits, both) = good in
    (
      lines,
      x,
      y,
      ii,
      fits,
      set_image-Both (4 * frame s) s.images s.ii (set_word32 (buffer s) (index s) v) both
          (length-set_word32 (buffer s) (index s) v ∙ length-buffer s good),
    )

write_pixel-eq :
    (frames : ℕ) (s : Ramdac) (v : ℕ)
    → Good s
    → write_pixel frames s v ≡ advance frames (stored s v)
unfolding write_pixel
write_pixel-eq frames s v good =
    rw
      (
        position-index s good,
        put_word-eq (buffer s) (index s) v (omega (arith, index-lt s good, length-buffer s good)),
      )
      refl

abbrev pub AllWords : List ℕ → Type 0
AllWords [] = Unit
AllWords (v ∷ vs) = (v < 2 ^ 32) × AllWords vs

-- What the words from the place of `s` to the end of the frame leave.
abbrev pub Fills : Ramdac → List ℕ → Ramdac → Type 0
Fills s vs s' =
    Good s'
    × (index s' ≡ 0)
    × (s'.ii ≡ (s.ii + 1) % 2)
    × (s'.nb_images ≡ s.nb_images + 1)
    × (buffer s' ≡ image s.images ((s.ii + 1) % 2))
    × ((i : ℕ) → i < index s → word32 (image s'.images s.ii) i ≡ word32 (buffer s) i)
    × ((k : ℕ) → k < length vs → word32 (image s'.images s.ii) (index s + k) ≡ get_or vs k 0)

end_frame-returns :
    (frames : ℕ) (s : Ramdac)
    → (frames ≢ 0 → frames ≢ s.nb_images + 1)
    → end_frame frames s ≡ returns (display (record s { nb_images = s.nb_images + 1 }))
unfolding end_frame display
end_frame-returns frames s goes_on = elim (Bool-cases (frames == 0)) [
  | inl e ↦ rw e refl
  | inr e ↦
      let some_frames : frames ≢ 0 = λ z. absurd (false≢true (sym e ∙ (==_iff frames 0).1 z)) in
      rw (e, ==_of_ne (s.nb_images + 1) frames (λ h. goes_on some_frames (sym h))) refl
]

-- The words of the buffer after one is stored.
module _ (s : Ramdac) (v : ℕ) (good : Good s) (word : v < 2 ^ 32) where
  stored_word : word32 (image (stored s v).images s.ii) (index s) ≡ v
  stored_word =
      ap (λ m. word32 m (index s))
        (image-set_self s.images s.ii (set_word32 (buffer s) (index s) v))
      ∙ word32-set_word32 (buffer s) (index s) v
          (omega (arith, index-lt s good, length-buffer s good)) word

  stored_ne :
      (i : ℕ) → index s ≢ i → word32 (image (stored s v).images s.ii) i ≡ word32 (buffer s) i
  stored_ne i ne =
      ap (λ m. word32 m i) (image-set_self s.images s.ii (set_word32 (buffer s) (index s) v))
      ∙ word32-set_ne (buffer s) (index s) i v ne

  stored_other : image (stored s v).images ((s.ii + 1) % 2) ≡ image s.images ((s.ii + 1) % 2)
  stored_other = image-set_other s.images s.ii (set_word32 (buffer s) (index s) v) good.3

  -- The last word of a frame.
  last-Fills :
      index s + 1 ≡ frame s
      → Fills s
          (v ∷ [])
          (display (record (stored s v) { m_x = 0; m_y = 0; nb_images = s.nb_images + 1 }))
  unfolding display
  last-Fills last =
      let (lines, x, y, ii, fits, both) = stored-Good s v good in
      (
        (lines, omega arith, omega arith, omega arith, fits, both),
        omega arith,
        refl,
        refl,
        stored_other,
        λ i lt. stored_ne i (λ e. absurd (omega arith)),
        λ k one. last_word k one,
      )
    where
      last_word :
          (k : ℕ)
          → k < 1
          → word32 (image (stored s v).images s.ii) (index s + k) ≡ get_or (v ∷ []) k 0
      last_word zero one = ap (word32 (image (stored s v).images s.ii)) (omega arith) ∙ stored_word
      last_word (suc k) one = absurd (omega arith)

  -- A word before the last, and the rest of the frame from the next place.
  step-Fills :
      (t s' : Ramdac) (vs : List ℕ) → Steps (stored s v) t → Fills t vs s' → Fills s (v ∷ vs) s'
  step-Fills t s' vs (good_t, at, size, same, idx, count)
        (good', start, ii', nb', other, before, after) =
      (
        good',
        start,
        ii' ∙ ap (λ j. (j + 1) % 2) idx,
        nb' ∙ ap (λ n. n + 1) count,
        other ∙ ap₂ (λ p j. image p ((j + 1) % 2)) same idx ∙ stored_other,
        λ i lt. kept i (omega arith) ∙ stored_ne i (λ e. absurd (omega arith)),
        words,
      )
    where
      kept :
          (i : ℕ)
          → i < index s + 1
          → word32 (image s'.images s.ii) i ≡ word32 (image (stored s v).images s.ii) i
      kept i lt =
          ap (λ j. word32 (image s'.images j) i) (sym idx)
          ∙ before i (omega arith)
          ∙ ap₂ (λ p j. word32 (image p j) i) same idx

      words :
          (k : ℕ)
          → k < suc (length vs)
          → word32 (image s'.images s.ii) (index s + k) ≡ get_or (v ∷ vs) k 0
      words zero lt =
          ap (word32 (image s'.images s.ii)) (omega arith)
          ∙ kept (index s) (omega arith)
          ∙ stored_word
      words (suc k) lt =
          ap₂ (λ j i. word32 (image s'.images j) i) (sym idx) (omega arith) ∙ after k (omega arith)

-- A controller whose width is a multiple of 4, whose frames are shorter than 2 ^ 32 bytes and
-- whose two images have the size of a frame, at a place within the frame of one of the two: the
-- rest of the frame, at least one word, each below 2 ^ 32, is stored word by word in its places of
-- the buffer that is written; then the buffers are swapped, and the next frame begins at the first
-- place of the other one. The words before the place and the other buffer are not touched. The
-- simulation goes on, where the frame is not the last one to simulate.
pub write_all-Fills :
    (frames : ℕ) (s : Ramdac) (vs : List ℕ)
    → Good s
    → AllWords vs
    → 0 < length vs
    → index s + length vs ≡ frame s
    → (frames ≢ 0 → frames ≢ s.nb_images + 1)
    → (s' : Ramdac) × (write_all frames s vs ≡ returns s') × Fills s vs s'
unfolding write_all
write_all-Fills frames s [] good words some_words end goes_on = absurd (omega arith)
write_all-Fills frames s (v ∷ []) good (word, words) some_words end goes_on =
    let here = stored s v in
    (
      display (record here { m_x = 0; m_y = 0; nb_images = s.nb_images + 1 }),
      rw
          (
            write_pixel-eq frames s v good,
            advance-last frames here (stored-Good s v good) (omega arith),
            end_frame-returns frames (record here { m_x = 0; m_y = 0 }) goes_on,
          )
          refl,
      last-Fills s v good word (omega arith),
    )
write_all-Fills frames s (v ∷ w ∷ vs) good (word, words) some_words end goes_on =
    let here = stored s v in
    let (t, moves, steps) = advance-inside frames here (stored-Good s v good) (omega arith) in
    let (s', runs, fills) =
      write_all-Fills frames t (w ∷ vs) steps.0 words (omega arith)
        (omega (arith, steps.1, steps.2))
        (λ ne. subst (λ n. frames ≢ n + 1) (sym steps.5) (goes_on ne)) in
    (
      s',
      ap (λ o. o >>= λ x. write_all frames x (w ∷ vs)) (write_pixel-eq frames s v good ∙ moves)
          ∙ runs,
      step-Fills s v good word t s' (w ∷ vs) steps fills,
    )
