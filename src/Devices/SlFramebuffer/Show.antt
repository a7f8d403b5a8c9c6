-- ===== src/Devices/SlFramebuffer/Show.antt =====
-- What the frame buffer shows when a frame is complete.
use rabbits.Base.{
  ℕ, ◌+◌, ◌*◌, ◌/◌, ◌%◌, ◌<◌, ◌≡◌, ◌≢◌, ◌∙◌, refl, ap, length, length-replicate, if◌then◌else◌,
  returns, arith,
}
use rabbits.Devices.DoubleBuffer.{
  image, set_image, Both, length-image, set_image-Both, image-set_self, image-set_other,
}
use rabbits.Devices.SlFramebuffer.Mode.{FbMode, grey, rgb32, yvyu, yv12, yv16}
use rabbits.Devices.SlFramebuffer.{
  SlFb, yuv_size_of, rgb_components_of, is_converted, new, display, convert, convert_frame_yv16,
}
use rabbits.Devices.SlFramebuffer.Frame.{pixel, colour, convert_from-Converts}

abbrev pub yuv_size : SlFb → ℕ
yuv_size s = yuv_size_of s.mode s.width s.height

abbrev pub rgb_size : SlFb → ℕ
rgb_size s = rgb_components_of s.mode * s.height * s.width

abbrev pub Sized : SlFb → Type 0
Sized s =
    (s.buf_idx < 2)
    × Both (yuv_size s) s.yuv_image
    × Both (rgb_size s) s.rgb_image
    × (s.mem_size ≡ (if is_converted s.mode then yuv_size s else rgb_size s))

new-Sized : (mode : FbMode) (width height : ℕ) → Sized (new mode width height)
unfolding new
new-Sized mode width height =
    let y = yuv_size_of mode width height in
    let r = rgb_components_of mode * height * width in
    (
      omega arith,
      (length-replicate y 0, length-replicate y 0),
      (length-replicate r 0, length-replicate r 0),
      refl,
    )

abbrev flipped : SlFb → SlFb
flipped s = record s { buf_idx = (s.buf_idx + 1) % 2; signals = s.signals + 1 }

-- What `display` leaves: the buffers swapped, the viewer told, the frame that was written converted
-- in the planar 4:2:2 mode, and every other image as it was.
abbrev pub Displayed : SlFb → SlFb → Type 0
Displayed s s' =
    Sized s'
    × (s'.mode ≡ s.mode)
    × (s'.mem_size ≡ s.mem_size)
    × (s'.buf_idx ≡ (s.buf_idx + 1) % 2)
    × (s'.signals ≡ s.signals + 1)
    × (s'.yuv_image ≡ s.yuv_image)
    × (image s'.rgb_image s'.buf_idx ≡ image s.rgb_image s'.buf_idx)
    × (s.mode ≡ yv16
        → (p : ℕ) → p < 2 * (s.width * s.height / 2)
        → pixel (image s'.rgb_image s.buf_idx) p
          ≡ colour (image s.yuv_image s.buf_idx) (s.width * s.height) p)
    × (s.mode ≢ yv16 → s'.rgb_image ≡ s.rgb_image)

plain :
    (s : SlFb)
    → Sized s
    → s.mode ≢ yv16
    → convert s.mode s ≡ returns s
    → (s' : SlFb) × (display s ≡ returns s') × Displayed s s'
unfolding display
plain s (small, yuv, rgb, size) not_planar runs = (
  flipped s,
  rw runs refl,
  (
    (omega arith, yuv, rgb, size),
    refl,
    refl,
    refl,
    refl,
    refl,
    refl,
    λ e. absurd (not_planar e),
    λ e. refl,
  ),
)

planar :
    (s : SlFb) → Sized s → s.mode ≡ yv16 → (s' : SlFb) × (display s ≡ returns s') × Displayed s s'
unfolding display convert_frame_yv16
planar s (small, yuv, rgb, size) at =
    let wh = s.width * s.height in
    let yuv_length : length (image s.yuv_image s.buf_idx) ≡ 2 * wh =
      length-image (yuv_size s) s.yuv_image s.buf_idx yuv
      ∙ ap (λ m. yuv_size_of m s.width s.height) at
      ∙ grind arith in
    let rgb_length : length (image s.rgb_image s.buf_idx) ≡ 3 * wh =
      length-image (rgb_size s) s.rgb_image s.buf_idx rgb
      ∙ ap (λ m. rgb_components_of m * s.height * s.width) at
      ∙ grind arith in
    let (shown, runs, same, done, kept) =
      convert_from-Converts wh (image s.yuv_image s.buf_idx) yuv_length (wh / 2) 0
        (image s.rgb_image s.buf_idx) (omega arith) rgb_length in
    let rgb' = set_image s.rgb_image s.buf_idx shown in
    (
      record s { rgb_image = rgb'; buf_idx = (s.buf_idx + 1) % 2; signals = s.signals + 1 },
      rw (at, runs) refl,
      (
        (
          omega arith,
          yuv,
          set_image-Both (rgb_size s) s.rgb_image s.buf_idx shown rgb
              (same ∙ length-image (rgb_size s) s.rgb_image s.buf_idx rgb),
          size,
        ),
        refl,
        refl,
        refl,
        refl,
        refl,
        image-set_other s.rgb_image s.buf_idx shown small,
        λ e p inside.
            ap (λ m. pixel m p) (image-set_self s.rgb_image s.buf_idx shown)
            ∙ done p (omega arith) (omega arith),
        λ other. absurd (other at),
      ),
    )

-- `display` returns on a frame buffer whose images have their sizes: it swaps the buffers and tells
-- the viewer; in the planar 4:2:2 mode each pixel of the image that was written has then the colour
-- of its `y` and of the `u` and `v` that it shares with its neighbour, but for the last one of an odd
-- number; in the other modes no image changes.
pub display-Displayed :
    (s : SlFb) → Sized s → (s' : SlFb) × (display s ≡ returns s') × Displayed s s'
display-Displayed s sized = by_mode s.mode refl
  where
    by_mode : (m : FbMode) → s.mode ≡ m → (s' : SlFb) × (display s ≡ returns s') × Displayed s s'
    by_mode grey at = plain s sized (λ e. cc) (rw at refl)
    by_mode rgb32 at = plain s sized (λ e. cc) (rw at refl)
    by_mode yvyu at = plain s sized (λ e. cc) (rw at refl)
    by_mode yv12 at = plain s sized (λ e. cc) (rw at refl)
    by_mode yv16 at = planar s sized at
