-- ===== src/Devices/Framebuffer.antt =====
-- framebuffer_device.{h,cpp}: a display controller with registers, two images and an interrupt. The
-- accesses of the slave and the rounds of the start and interrupt threads are here; the transfer of a
-- frame by the bus master is not. The viewer's process, its pipe and the creation of the shared images
-- are input and output.
mod Registers
mod Memory
mod Tests
use rabbits.Base.{
  ℕ, ◌+◌, ◌-◌, ◌*◌, ◌/◌, ◌%◌, ◌^◌, Bool, true, false, not, ◌&&◌, ◌||◌, List, Outcome, returns,
  exits, faults, ◌>>=◌, load, length, leb, ltb, ◌==◌, if◌then◌else◌, bit_and, bit_or, bit_xor,
}
use rabbits.Bits.{complement}
use rabbits.Bytes.{word32, set_word32, lane, reg_index}
use rabbits.Slave.{Served, Device}
use rabbits.Devices.DoubleBuffer.{Pair, image, set_image, blank}
use rabbits.Devices.SlFramebuffer.{s_mask, low_lanes, merge_word}

-- `start_stop`, `irq_update` and `display_due` are the events that a thread has not taken yet;
-- `attached` is whether the images are mapped.
pub record Fb : Type 0 where
  pub image_w : ℕ
  pub image_h : ℕ
  pub mode : ℕ
  pub buf_addr : ℕ
  pub ctrl : ℕ
  pub irqstat : ℕ
  pub running : Bool
  pub dmaen : Bool
  pub disp_wrap : Bool
  pub mem : Pair
  pub mem_size : ℕ
  pub mem_idx : ℕ
  pub attached : Bool
  pub buf_size : ℕ
  pub irq : Bool
  pub start_stop : Bool
  pub irq_update : Bool
  pub display_due : Bool

-- `x & mask` as a condition.
abbrev pub test : (x mask : ℕ) → Bool
test x mask = not (bit_and x mask == 0)

unfoldable pub display : Fb → Fb
display s = record s { mem_idx = (s.mem_idx + 1) % 2; display_due = true }

unfoldable pub write_ctrl : Fb → ℕ → Fb
write_ctrl s val =
    let changed = bit_xor s.ctrl val in
    let t : Fb = record s {
      ctrl = val;
      start_stop = s.start_stop || test changed 1;
      irq_update = s.irq_update || test changed 2;
      dmaen = if test changed 4 then test val 4 else s.dmaen;
    } in
    if test changed 8 then display (record t { ctrl = bit_and val (complement 32 8) }) else t

abbrev pub mem_index : ℕ → ℕ
mem_index lofs = (lofs + 2 ^ 32 - 0x400) % 2 ^ 32

-- The image that the slave reads and writes.
unfoldable pub shown : Fb → Outcome (List ℕ)
shown s = if s.attached then returns (image s.mem s.mem_idx) else faults

unfoldable pub write_mem : Fb → (mem_ofs be val : ℕ) → Outcome Fb
write_mem s mem_ofs be val =
    if ltb mem_ofs (s.mem_size / 4)
    then (let t = if s.disp_wrap && (mem_ofs == 0 && test be 1) then display s else s in
        shown t >>= λ mem. load s_mask (low_lanes be) >>= λ mask.
        merge_word mem mem_ofs val mask >>= λ mem'.
        returns (record t { mem = set_image t.mem t.mem_idx mem' }))
    else exits

unfoldable pub write_reg : Fb → (lofs be val : ℕ) → Outcome Fb
write_reg s lofs be val =
    if lofs == 0
    then returns (record s { image_w = bit_and val 0xFFFF; image_h = val / 65536 })
    else if lofs == 4
    then returns (record s { mode = val })
    else if lofs == 1
    then returns (record s { buf_addr = val })
    else if lofs == 2
    then returns (record s { irqstat = bit_and s.irqstat (complement 32 val); irq_update = true })
    else if lofs == 3
    then returns (write_ctrl s val)
    else write_mem s (mem_index lofs) be val

unfoldable pub write : Fb → (ofs be : ℕ) → List ℕ → Outcome Fb
write s ofs be bytes = write_reg s (reg_index ofs be) be (word32 bytes (lane be))

unfoldable pub read_mem : Fb → (mem_ofs be : ℕ) → Outcome ℕ
read_mem s mem_ofs be =
    if ltb mem_ofs (s.mem_size / 4)
    then (shown s >>= λ mem. load s_mask (low_lanes be) >>= λ mask.
        if leb (4 * mem_ofs + 4) (length mem)
        then returns (bit_and (word32 mem mem_ofs) (complement 32 mask))
        else faults)
    else exits

unfoldable pub read_reg : Fb → (lofs be : ℕ) → Outcome ℕ
read_reg s lofs be =
    if lofs == 0
    then returns (bit_or (s.image_h * 65536) s.image_w)
    else if lofs == 4
    then returns s.mode
    else if lofs == 1
    then returns s.buf_addr
    else if lofs == 2
    then returns s.irqstat
    else if lofs == 3
    then returns s.ctrl
    else read_mem s (mem_index lofs) be

unfoldable pub read : Fb → (ofs be : ℕ) → List ℕ → Outcome (List ℕ)
read s ofs be bytes =
    read_reg s (reg_index ofs be) be >>= λ val. returns (set_word32 bytes (lane be) val)

unfoldable pub rcv_rqst : Device Fb
rcv_rqst s ofs be bytes true = do
  s' ← write s ofs be bytes
  returns (record { state = s'; bytes = bytes; error = false })
rcv_rqst s ofs be bytes false = do
  bytes' ← read s ofs be bytes
  returns (record { state = s; bytes = bytes'; error = false })

-- The size of an image; a mode that is not set or not known leaves the field as it was.
unfoldable pub buf_size_of : (mode width height old : ℕ) → ℕ
buf_size_of mode width height old =
    if mode == 1
    then height * width
    else if mode == 2 || mode == 3
    then 3 * height * width
    else if mode == 4 || mode == 5
    then 4 * height * width
    else if leb 6 mode && leb mode 9
    then 3 * height * width
    else old

unfoldable pub init : Fb → Fb
init s =
    let size = buf_size_of s.mode s.image_w s.image_h s.buf_size % 2 ^ 32 in
    record s { buf_size = size; mem = blank size; mem_size = size; attached = true; running = true }

-- The constructor on the reset status, whose sizes have 16 bits.
unfoldable pub new : (fb_start : Bool) → (fb_w fb_h fb_mode : ℕ) → (fb_display_on_wrap : Bool) → Fb
new fb_start fb_w fb_h fb_mode fb_display_on_wrap =
    let idle : Fb = record {
      image_w = 0;
      image_h = 0;
      mode = 0;
      buf_addr = 0;
      ctrl = 0;
      irqstat = 0;
      running = false;
      dmaen = false;
      disp_wrap = false;
      mem = blank 0;
      mem_size = 0;
      mem_idx = 0;
      attached = false;
      buf_size = 0;
      irq = false;
      start_stop = false;
      irq_update = false;
      display_due = false;
    } in
    if fb_start
    then init (record idle {
      image_w = fb_w;
      image_h = fb_h;
      mode = fb_mode;
      ctrl = 1;
      running = true;
      disp_wrap = fb_display_on_wrap;
    })
    else idle

-- `mem` and `mem_size` of the resource that the slave uses stay as they were.
unfoldable pub uninit : Fb → Fb
uninit s = record s { buf_size = 0; attached = false; running = false }

-- A round of `start_stop_thread`.
unfoldable pub start_stop_thread : Fb → Fb
start_stop_thread s =
    let t : Fb = record s { start_stop = false } in
    if not t.running && test t.ctrl 1
    then init t
    else if t.running && not (test t.ctrl 1)
    then uninit t
    else t

-- A round of `irq_update_thread`.
unfoldable pub irq_update_thread : Fb → Fb
irq_update_thread s =
    let t : Fb = record s { irq_update = false } in
    if test t.ctrl 2
    then (if test t.irqstat (complement 32 (2 ^ 31))
        then record t { irqstat = bit_or t.irqstat (2 ^ 31); irq = true }
        else record t { irqstat = bit_and t.irqstat (complement 32 (2 ^ 31)); irq = false })
    else record t { irq = false }
