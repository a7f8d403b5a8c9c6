-- ===== src/Devices/SlFramebuffer/Tests.antt =====
-- The frame buffer at concrete inputs.
use rabbits.Base.{ℕ, ◌/◌, ◌<◌, ◌≡◌, refl, true, false, List, [], ◌∷◌, returns, exits, faults, arith}
use rabbits.Bytes.{reg_index}
use rabbits.Devices.DoubleBuffer.{blank}
use rabbits.Devices.SlFramebuffer.Mode.{yv16}
use rabbits.Devices.SlFramebuffer.{SlFb, display, write}
use rabbits.Devices.SlFramebuffer.Colour.{yuv2rgb, minus, yuv2rgb-level}
use rabbits.Devices.SlFramebuffer.Show.{Sized, Displayed, display-Displayed}
use rabbits.Devices.SlFramebuffer.Access.{starts_frame, Written, write-Written, write_past_end}

-- White, and a pixel whose green and blue are cut.
white : yuv2rgb 235 128 128 ≡ (255, 255, 255)
unfolding yuv2rgb minus
white = refl

red : yuv2rgb 81 90 240 ≡ (255, 0, 0)
unfolding yuv2rgb minus
red = refl

yuv2rgb-level_example : yuv2rgb 235 128 128 ≡ (255, 255, 255)
yuv2rgb-level_example = yuv2rgb-level 235 128 128

abbrev small_screen : SlFb
small_screen = record {
  mode = yv16;
  width = 2;
  height = 2;
  mem_size = 8;
  buf_idx = 0;
  yuv_image = blank 8;
  rgb_image = blank 12;
  signals = 0;
}

small_screen-Sized : Sized small_screen
small_screen-Sized = (omega arith, (refl, refl), (refl, refl), refl)

display-Displayed_example :
    (s' : SlFb) × (display small_screen ≡ returns s') × Displayed small_screen s'
display-Displayed_example = display-Displayed small_screen small_screen-Sized

abbrev packet : List ℕ
packet = 1 ∷ 2 ∷ 3 ∷ 4 ∷ 5 ∷ 6 ∷ 7 ∷ 8 ∷ []

write-Written_example :
    (t : SlFb) × (s' : SlFb) × (starts_frame 0 0x0F ≡ true
      → (display small_screen ≡ returns t) × Displayed small_screen t)
    × (starts_frame 0 0x0F ≡ false → t ≡ small_screen)
    × (write small_screen 0 0x0F packet ≡ returns s')
    × Written 0 0x0F packet t s'
write-Written_example =
    write-Written 0 0x0F packet (omega arith) small_screen small_screen-Sized (omega arith)

write_past_end_example :
    (8 / 4 < reg_index 8 0x0F → write small_screen 8 0x0F packet ≡ exits)
    × (8 / 4 ≡ reg_index 8 0x0F
        → starts_frame 8 0x0F ≡ false
        → write small_screen 8 0x0F packet ≡ faults)
write_past_end_example = write_past_end small_screen 8 0x0F packet small_screen-Sized (omega arith)
