-- ===== src/Devices/SlFramebuffer.antt =====
-- sl_framebuffer_device.{h,cpp}: a double-buffered frame buffer, which converts the frames of the
-- planar 4:2:2 mode for the viewer. The viewer's process, its pipe and the creation of the shared
-- images are input and output; a signal to the viewer is counted. A constructor's mode that is none
-- of the enumeration leaves the fields unset, and is left out.
pub mod Mode
pub mod Colour
mod Frame
pub mod Words
mod Show
pub mod Access
mod Tests
use rabbits.Base.{
  ℕ, zero, suc, ◌+◌, ◌*◌, ◌/◌, ◌%◌, Bool, true, false, ◌&&◌, List, [], ◌∷◌, Outcome, returns, exits,
  faults, ◌>>=◌, load, store, replicate, length, get_or, set, ltb, leb, ◌==◌, not, if◌then◌else◌,
  bit_and, bit_or,
}
use rabbits.Bits.{complement}
use rabbits.Bytes.{word32, set_word32, upper, lane, reg_index}
use rabbits.Slave.{Served, Device}
use rabbits.Devices.DoubleBuffer.{Pair, image, set_image, blank}
use rabbits.Devices.SlFramebuffer.Mode.{FbMode, grey, rgb32, yvyu, yv12, yv16}
use rabbits.Devices.SlFramebuffer.Colour.{yuv2rgb}

abbrev pub rgb_components_of : FbMode → ℕ
rgb_components_of grey = 1
rgb_components_of rgb32 = 3
rgb_components_of yvyu = 3
rgb_components_of yv12 = 3
rgb_components_of yv16 = 3

abbrev pub yuv_size_of : FbMode → (width height : ℕ) → ℕ
yuv_size_of grey width height = 0
yuv_size_of rgb32 width height = 0
yuv_size_of yvyu width height = 2 * width * height
yuv_size_of yv12 width height = 3 * width * height / 2
yuv_size_of yv16 width height = 2 * width * height

-- `write_buf` is `yuv_image` or, in a mode without conversion, `rgb_image`.
abbrev pub is_converted : FbMode → Bool
is_converted grey = false
is_converted rgb32 = false
is_converted yvyu = true
is_converted yv12 = true
is_converted yv16 = true

pub record SlFb : Type 0 where
  pub mode : FbMode
  pub width : ℕ
  pub height : ℕ
  pub mem_size : ℕ
  pub buf_idx : ℕ
  pub yuv_image : Pair
  pub rgb_image : Pair
  pub signals : ℕ

unfoldable pub new : FbMode → (width height : ℕ) → SlFb
new mode width height =
    let yuv_size = yuv_size_of mode width height in
    let rgb_size = rgb_components_of mode * height * width in
    record {
      mode = mode;
      width = width;
      height = height;
      mem_size = if is_converted mode then yuv_size else rgb_size;
      buf_idx = 0;
      yuv_image = blank yuv_size;
      rgb_image = blank rgb_size;
      signals = 0;
    }

-- `rgb[0] = ...; rgb[1] = ...; rgb[2] = ...` at one place of the image.
unfoldable pub put_rgb : ℕ × ℕ × ℕ → (at : ℕ) → List ℕ → Outcome (List ℕ)
put_rgb (r, g, b) at rgb = do
  rgb1 ← store rgb at r
  rgb2 ← store rgb1 (at + 1) g
  store rgb2 (at + 2) b

-- `n` rounds of the loop of `convert_frame_yv16`, the first at `i`; `wh` is `width * height`.
unfoldable pub convert_from : (n i wh : ℕ) → List ℕ → List ℕ → Outcome (List ℕ)
convert_from zero i wh yuv rgb = returns rgb
convert_from (suc n) i wh yuv rgb = do
  y ← load yuv (i * 2)
  u ← load yuv (wh + i)
  v ← load yuv (wh + wh / 2 + i)
  once ← put_rgb (yuv2rgb y u v) (6 * i) rgb
  y' ← load yuv (i * 2 + 1)
  twice ← put_rgb (yuv2rgb y' u v) (6 * i + 3) once
  convert_from n (i + 1) wh yuv twice

unfoldable pub convert_frame_yv16 : SlFb → Outcome SlFb
convert_frame_yv16 s =
    convert_from (s.width * s.height / 2) 0 (s.width * s.height) (image s.yuv_image s.buf_idx)
      (image s.rgb_image s.buf_idx)
    >>= λ rgb. returns (record s { rgb_image = set_image s.rgb_image s.buf_idx rgb })

-- The two other conversions are empty.
abbrev pub convert : FbMode → SlFb → Outcome SlFb
convert grey s = returns s
convert rgb32 s = returns s
convert yvyu s = returns s
convert yv12 s = returns s
convert yv16 s = convert_frame_yv16 s

unfoldable pub display : SlFb → Outcome SlFb
display s = do
  done ← convert s.mode s
  returns (record done { buf_idx = (done.buf_idx + 1) % 2; signals = done.signals + 1 })

abbrev pub s_mask : List ℕ
s_mask =
    0x00000000 ∷ 0x000000FF ∷ 0x0000FF00 ∷ 0x0000FFFF ∷ 0x00FF0000 ∷ 0x00FF00FF ∷ 0x00FFFF00
    ∷ 0x00FFFFFF ∷ 0xFF000000 ∷ 0xFF0000FF ∷ 0xFF00FF00 ∷ 0xFF00FFFF ∷ 0xFFFF0000 ∷ 0xFFFF00FF
    ∷ 0xFFFFFF00 ∷ 0xFFFFFFFF ∷ []

-- `tmp &= ~mask; tmp |= (*val & mask);`
unfoldable pub merge : (tmp val mask : ℕ) → ℕ
merge tmp val mask = bit_or (bit_and tmp (complement 32 mask)) (bit_and val mask)

-- `ptr[i]` of the buffer, with the bytes that the mask selects taken from `val`.
unfoldable pub merge_word : List ℕ → (i val mask : ℕ) → Outcome (List ℕ)
merge_word mem i val mask =
    if leb (4 * i + 4) (length mem)
    then returns (set_word32 mem i (merge (word32 mem i) val mask))
    else faults

-- `write_buf` by the test of the mode.
abbrev pub pick : Bool → SlFb → Pair
pick true s = s.yuv_image
pick false s = s.rgb_image

abbrev pub put_in : Bool → SlFb → Pair → SlFb
put_in true s p = record s { yuv_image = p }
put_in false s p = record s { rgb_image = p }

abbrev pub write_buf : SlFb → Pair
write_buf s = pick (is_converted s.mode) s

abbrev pub set_write_buf : SlFb → Pair → SlFb
set_write_buf s p = put_in (is_converted s.mode) s p

abbrev pub low_lanes : ℕ → ℕ
low_lanes be = if upper be then be / 16 else be

unfoldable pub write : SlFb → (ofs be : ℕ) → List ℕ → Outcome SlFb
write s ofs be bytes =
    let lofs = reg_index ofs be in
    if ltb (s.mem_size / 4) lofs
    then exits
    else ((if ofs == 0 && not (bit_and be 1 == 0) then display s else returns s) >>= λ t.
        load s_mask (low_lanes be) >>= λ mask.
        merge_word (image (write_buf t) t.buf_idx) lofs (word32 bytes (lane be)) mask >>= λ mem.
        returns (set_write_buf t (set_image (write_buf t) t.buf_idx mem)))

-- A read only reports itself.
unfoldable pub rcv_rqst : Device SlFb
rcv_rqst s ofs be bytes true = do
  s' ← write s ofs be bytes
  returns (record { state = s'; bytes = bytes; error = false })
rcv_rqst s ofs be bytes false = returns (record { state = s; bytes = bytes; error = false })
