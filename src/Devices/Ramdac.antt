-- ===== src/Devices/Ramdac.antt =====
-- ramdac_device.{h,cpp}: a display controller that is given its size and then the words of its frames
-- in the order of the raster, into one of two buffers. The viewer's process, its pipe and the creation
-- of the shared images are input and output; a signal to the viewer is counted.
mod Raster
mod Frame
mod Tests
use rabbits.Base.{
  ℕ, zero, suc, ◌+◌, ◌*◌, ◌/◌, ◌%◌, ◌^◌, Bool, true, false, not, ◌&&◌, List, [], ◌∷◌, Outcome,
  returns, exits, faults, ◌>>=◌, length, leb, ◌==◌, if◌then◌else◌,
}
use rabbits.Bytes.{word32, set_word32}
use rabbits.Slave.{Served, Device}
use rabbits.Devices.DoubleBuffer.{Pair, image, set_image, blank}

pub record Ramdac : Type 0 where
  pub m_x : ℕ
  pub m_y : ℕ
  pub width : ℕ
  pub height : ℕ
  pub components : ℕ
  pub ii : ℕ
  pub ready : Bool
  pub images : Pair
  pub nb_images : ℕ
  pub signals : ℕ

-- The constructor leaves `components` unset: what the memory held is its argument.
unfoldable pub new : ℕ → Ramdac
new garbage = record {
  m_x = 0;
  m_y = 0;
  width = 0;
  height = 0;
  components = garbage;
  ii = 0;
  ready = false;
  images = blank 0;
  nb_images = 0;
  signals = 0;
}

-- The last number starts the viewer, which is given two images of this size.
unfoldable pub receive_size : Ramdac → ℕ → Ramdac
receive_size s val =
    if s.width == 0
    then record s { width = val }
    else if s.height == 0
    then record s { height = val }
    else if s.components == 0
    then record s {
      ready = true;
      m_x = 0;
      m_y = 0;
      components = val;
      images = blank (val * s.width * s.height);
    }
    else s

-- `ptr[i] = val`.
unfoldable pub put_word : List ℕ → (i val : ℕ) → Outcome (List ℕ)
put_word mem i val = if leb (4 * i + 4) (length mem) then returns (set_word32 mem i val) else faults

unfoldable pub position : Ramdac → ℕ
position s = (s.m_y * s.width * s.components % 2 ^ 32 / 4 + s.m_x) % 2 ^ 32

-- `a % b`; the processor traps a division by zero.
unfoldable pub modulo : (a b : ℕ) → Outcome ℕ
modulo a b = if b == 0 then faults else returns (a % b)

unfoldable pub display : Ramdac → Ramdac
display s = record s { ii = (s.ii + 1) % 2; signals = s.signals + 1 }

-- The lines after a word is stored; `frames` is the global `no_frames_to_simulate`.
unfoldable pub end_frame : (frames : ℕ) → Ramdac → Outcome Ramdac
end_frame frames s =
    let t = display (record s { nb_images = s.nb_images + 1 }) in
    if not (frames == 0) && (t.nb_images == frames) then exits else returns t

unfoldable pub advance : (frames : ℕ) → Ramdac → Outcome Ramdac
advance frames s = do
  x ← modulo ((s.m_x + 1) % 2 ^ 32) (s.width / 4 * s.components % 2 ^ 32)
  y ← if x == 0 then modulo ((s.m_y + 1) % 2 ^ 32) s.height else returns s.m_y
  let t : Ramdac = record s { m_x = x; m_y = y }
  if x == 0 && (y == 0) then end_frame frames t else returns t

unfoldable pub write_pixel : (frames : ℕ) → Ramdac → ℕ → Outcome Ramdac
write_pixel frames s val = do
  mem ← put_word (image s.images s.ii) (position s) val
  advance frames (record s { images = set_image s.images s.ii mem })

unfoldable pub write : (frames : ℕ) → Ramdac → (ofs : ℕ) → List ℕ → Outcome Ramdac
write frames s ofs bytes =
    if ofs == 0
    then (if s.ready
        then write_pixel frames s (word32 bytes 0)
        else returns (receive_size s (word32 bytes 0)))
    else if ofs == 0x880
    then returns s
    else exits

unfoldable pub rcv_rqst : (frames : ℕ) → Device Ramdac
rcv_rqst frames s ofs be bytes true = do
  s' ← write frames s ofs bytes
  returns (record { state = s'; bytes = bytes; error = false })
rcv_rqst frames s ofs be bytes false = returns (record { state = s; bytes = bytes; error = false })

-- The words of a list written one after the other.
unfoldable pub write_all : (frames : ℕ) → Ramdac → List ℕ → Outcome Ramdac
write_all frames s [] = returns s
write_all frames s (v ∷ vs) = write_pixel frames s v >>= λ t. write_all frames t vs
