-- ===== src/Devices/Framebuffer/Tests.antt =====
-- The display controller at concrete inputs.
use rabbits.Base.{
  ℕ, ◌/◌, ◌<◌, ◌≡◌, refl, true, false, ◌&&◌, if◌then◌else◌, ◌==◌, returns, faults, arith,
}
use rabbits.Bits.{bit}
use rabbits.Bytes.{word32}
use rabbits.Devices.DoubleBuffer.{blank}
use rabbits.Devices.SlFramebuffer.{low_lanes}
use rabbits.Devices.Framebuffer.{
  Fb, test, new, init, buf_size_of, irq_update_thread, start_stop_thread, read_mem, write_mem,
}
use rabbits.Devices.Framebuffer.Registers.{pending, irq_update_thread_lem}
use rabbits.Devices.Framebuffer.Memory.{memory, read_mem-cleared, stopped_faults}

-- Two by two grey pixels, with the interrupt enabled and a frame shown.
abbrev grey_screen : Fb
grey_screen = record {
  image_w = 2;
  image_h = 2;
  mode = 1;
  buf_addr = 0;
  ctrl = 3;
  irqstat = 1;
  running = true;
  dmaen = false;
  disp_wrap = false;
  mem = blank 4;
  mem_size = 4;
  mem_idx = 0;
  attached = true;
  buf_size = 4;
  irq = false;
  start_stop = false;
  irq_update = true;
  display_due = false;
}

started : (new true 2 2 1 false).mem_size ≡ grey_screen.mem_size
unfolding new init buf_size_of
started = refl

irq_update_thread_lem_example :
    ((irq_update_thread grey_screen).irq ≡ (test 3 2 && pending 1))
    × (test 3 2 ≡ true
        → bit (irq_update_thread grey_screen).irqstat 31
          ≡ (if (irq_update_thread grey_screen).irq then 1 else 0))
    × ((k : ℕ) → k < 31 → bit (irq_update_thread grey_screen).irqstat k ≡ bit 1 k)
irq_update_thread_lem_example = irq_update_thread_lem grey_screen

read_mem-cleared_example :
    (val : ℕ) × (read_mem grey_screen 0 0x0F ≡ returns val)
    × ((q : ℕ)
        → q < 32
        → bit val q ≡ (
            if bit (low_lanes 0x0F) (q / 8) == 1 then 0 else bit (word32 (memory grey_screen) 0) q))
read_mem-cleared_example = read_mem-cleared grey_screen 0 0x0F (omega arith) refl (omega arith) refl

abbrev stopping : Fb
stopping = record grey_screen { ctrl = 2; start_stop = true; disp_wrap = true }

stopped_faults_example :
    (read_mem (start_stop_thread stopping) 0 0x0F ≡ faults)
    × (write_mem (start_stop_thread stopping) 0 0x0F 7 ≡ faults)
stopped_faults_example = stopped_faults stopping 0 0x0F 7 refl refl (omega arith)
