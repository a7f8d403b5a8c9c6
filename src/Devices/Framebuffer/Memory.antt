-- ===== src/Devices/Framebuffer/Memory.antt =====
-- The memory of the display controller.
use rabbits.Base.{
  ℕ, ◌+◌, ◌-◌, ◌*◌, ◌/◌, ◌<◌, min, ◌≡◌, ◌∙◌, refl, ap, true, false, ◌&&◌, inl, inr, Bool-cases,
  List, length, returns, faults, load-eq, lt→ltb, leb_of_le, ◌==◌, if◌then◌else◌, bit_and, arith,
}
use rabbits.Bits.{bit, complement, bit-bit_and, bit-complement, bit-lt}
use rabbits.Bytes.{word32}
use rabbits.Devices.DoubleBuffer.{image}
use rabbits.Devices.SlFramebuffer.{s_mask, low_lanes}
use rabbits.Devices.SlFramebuffer.Words.{mask_of, mask_of-bit, mask_of-lt}
use rabbits.Devices.SlFramebuffer.Access.{low_lanes-lt}
use rabbits.Devices.Framebuffer.{
  display, Fb, shown, read_mem, write_mem, start_stop_thread, uninit, test,
}

abbrev pub memory : Fb → List ℕ
memory s = image s.mem s.mem_idx

cleared : (t m : ℕ) → t < 2 → m < 2 → min t (1 - m) ≡ (if m == 1 then 0 else t)
cleared t m ht hm = ground arith

-- A read of a word of the memory gives 0 for the bytes whose lanes are up, and gives the bytes of the
-- memory for the lanes that are down.
pub read_mem-cleared :
    (s : Fb) (mem_ofs be : ℕ)
    → be < 256
    → s.attached ≡ true
    → mem_ofs < s.mem_size / 4
    → length (memory s) ≡ s.mem_size
    → (val : ℕ) × (read_mem s mem_ofs be ≡ returns val)
      × ((q : ℕ)
          → q < 32
          → bit val q
            ≡ (if bit (low_lanes be) (q / 8) == 1 then 0 else bit (word32 (memory s) mem_ofs) q))
unfolding read_mem shown
read_mem-cleared s mem_ofs be small on inside size =
    let lanes = low_lanes be in
    let few = low_lanes-lt be small in
    let word = word32 (memory s) mem_ofs in
    (
      bit_and word (complement 32 (mask_of lanes)),
      rw
          (
            lt→ltb mem_ofs (s.mem_size / 4) inside,
            on,
            load-eq s_mask lanes 0 few,
            leb_of_le (4 * mem_ofs + 4) (length (memory s)) (omega arith),
          )
          refl,
      λ q low.
          bit-bit_and q word (complement 32 (mask_of lanes))
          ∙ ap (min (bit word q)) (
              bit-complement q 32 (mask_of lanes) low (mask_of-lt lanes few)
              ∙ ap (λ b. 1 - b) (mask_of-bit lanes q few low))
          ∙ cleared (bit word q) (bit lanes (q / 8)) (bit-lt q word) (bit-lt (q / 8) lanes),
    )

-- The write that shows a frame and the others alike.
detached_faults :
    (s : Fb) (mem_ofs be val : ℕ)
    → mem_ofs < s.mem_size / 4
    → s.attached ≡ false
    → write_mem s mem_ofs be val ≡ faults
unfolding write_mem shown display
detached_faults s mem_ofs be val inside gone =
    elim (Bool-cases (s.disp_wrap && (mem_ofs == 0 && test be 1))) [
      | inl shows ↦ rw (lt→ltb mem_ofs (s.mem_size / 4) inside, shows, gone) refl
      | inr no_frame ↦ rw (lt→ltb mem_ofs (s.mem_size / 4) inside, no_frame, gone) refl
    ]

-- A running controller whose control register says stop, once the thread has stopped it, keeps the size
-- of its memory and has none: every read and every write of a word inside of that size faults, also
-- the write that shows a frame.
pub stopped_faults :
    (s : Fb) (mem_ofs be val : ℕ)
    → s.running ≡ true
    → test s.ctrl 1 ≡ false
    → mem_ofs < s.mem_size / 4
    → (read_mem (start_stop_thread s) mem_ofs be ≡ faults)
      × (write_mem (start_stop_thread s) mem_ofs be val ≡ faults)
unfolding read_mem shown start_stop_thread uninit
stopped_faults s mem_ofs be val running stop inside = (
  rw (running, stop, lt→ltb mem_ofs (s.mem_size / 4) inside) refl,
  rw (running, stop)
      (detached_faults (uninit (record s { start_stop = false })) mem_ofs be val inside refl),
)
