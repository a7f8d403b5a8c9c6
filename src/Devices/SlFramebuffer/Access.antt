-- ===== src/Devices/SlFramebuffer/Access.antt =====
-- What a write does to the buffer.
use rabbits.Base.{
  ℕ, ◌+◌, ◌*◌, ◌/◌, ◌<◌, ◌≡◌, ◌∙◌, inl, inr, refl, sym, ap, Bool, true, false, not, ◌&&◌, List,
  length, ◌==◌, if◌then◌else◌, bit_and, returns, exits, faults, Outcome, ◌>>=◌, load, load-eq, ltb,
  ltb→lt, leb_of_lt, lt→ltb, ltb_of_le, Bool-cases, arith,
}
use mathlib.Core.Path.{subst}
use rabbits.Bytes.{word32, lane, reg_index}
use rabbits.Devices.DoubleBuffer.{
  Pair, image, set_image, Both, length-image, set_image-Both, image-set_self,
}
use rabbits.Devices.SlFramebuffer.{
  SlFb, is_converted, display, write_buf, set_write_buf, pick, put_in, low_lanes, write, s_mask,
  merge_word,
}
use rabbits.Devices.SlFramebuffer.Words.{Rewritten, merge_word-Rewritten}
use rabbits.Devices.SlFramebuffer.Show.{Sized, Displayed, display-Displayed, yuv_size, rgb_size}
use rabbits.Bits.{all_below, all_below_lem}

abbrev pub starts_frame : (ofs be : ℕ) → Bool
starts_frame ofs be = ofs == 0 && not (bit_and be 1 == 0)

-- The buffer that a write goes to.
abbrev pub buffer : SlFb → List ℕ
buffer s = image (write_buf s) s.buf_idx

length-buffer : (s : SlFb) → Sized s → length (buffer s) ≡ s.mem_size
length-buffer s (small, yuv, rgb, size) = elim (Bool-cases (is_converted s.mode)) [
  | inl e ↦
      ap (λ b. length (image (pick b s) s.buf_idx)) e
      ∙ length-image (yuv_size s) s.yuv_image s.buf_idx yuv
      ∙ sym (ap (λ b. if b then yuv_size s else rgb_size s) e)
      ∙ sym size
  | inr e ↦
      ap (λ b. length (image (pick b s) s.buf_idx)) e
      ∙ length-image (rgb_size s) s.rgb_image s.buf_idx rgb
      ∙ sym (ap (λ b. if b then yuv_size s else rgb_size s) e)
      ∙ sym size
]

lanes_table : all_below 256 (λ be. ltb (low_lanes be) 16) ≡ true
unfolding all_below
lanes_table = refl

pub low_lanes-lt : (be : ℕ) → be < 256 → low_lanes be < 16
low_lanes-lt be small =
    ltb→lt (low_lanes be) 16 (all_below_lem 256 (λ b. ltb (low_lanes b) 16) be lanes_table small)

-- The state that a write leaves when its buffer is `mem`.
abbrev stored : SlFb → List ℕ → SlFb
stored t mem = set_write_buf t (set_image (write_buf t) t.buf_idx mem)

put_in-keeps :
    (b : Bool) (t : SlFb) (p : Pair)
    → ((put_in b t p).mode ≡ t.mode)
      × ((put_in b t p).buf_idx ≡ t.buf_idx)
      × (pick b (put_in b t p) ≡ p)
put_in-keeps true t p = (refl, refl, refl)
put_in-keeps false t p = (refl, refl, refl)

buffer-stored : (t : SlFb) (mem : List ℕ) → buffer (stored t mem) ≡ mem
buffer-stored t mem =
    let b = is_converted t.mode in
    let x = stored t mem in
    let (same_mode, same_idx, held) = put_in-keeps b t (set_image (pick b t) t.buf_idx mem) in
    ap (λ m. image (pick (is_converted m) x) x.buf_idx) same_mode
    ∙ ap (λ i. image (pick b x) i) same_idx
    ∙ ap (λ q. image q t.buf_idx) held
    ∙ image-set_self (pick b t) t.buf_idx mem

put_in-Sized :
    (b : Bool) (t : SlFb) (p : Pair)
    → Sized t
    → Both (if b then yuv_size t else rgb_size t) p
    → Sized (put_in b t p)
put_in-Sized true t p (small, yuv, rgb, size) both = (small, both, rgb, size)
put_in-Sized false t p (small, yuv, rgb, size) both = (small, yuv, both, size)

pick-Both : (b : Bool) (t : SlFb) → Sized t → Both (if b then yuv_size t else rgb_size t) (pick b t)
pick-Both true t (small, yuv, rgb, size) = yuv
pick-Both false t (small, yuv, rgb, size) = rgb

stored-Sized :
    (t : SlFb) (mem : List ℕ) → Sized t → length mem ≡ length (buffer t) → Sized (stored t mem)
stored-Sized t mem sized same =
    let b = is_converted t.mode in
    let n = if b then yuv_size t else rgb_size t in
    put_in-Sized b t (set_image (pick b t) t.buf_idx mem) sized (
      set_image-Both n (pick b t) t.buf_idx mem (pick-Both b t sized)
        (same ∙ length-buffer t sized ∙ sized.3))

-- What a write that is let through leaves, from the state `t` after the frame before it is shown.
abbrev pub Written : (ofs be : ℕ) → List ℕ → SlFb → SlFb → Type 0
Written ofs be bytes t s' =
    Sized s'
    × (s'.buf_idx ≡ t.buf_idx)
    × Rewritten (reg_index ofs be) (word32 bytes (lane be)) (low_lanes be) (buffer t) (buffer s')

module _ (ofs be : ℕ) (bytes : List ℕ) (small : be < 256) where
  -- The lines of `write` after the call of `display`.
  abbrev commit : SlFb → Outcome SlFb
  commit t = load s_mask (low_lanes be) >>= λ mask.
      merge_word (image (write_buf t) t.buf_idx) (reg_index ofs be) (word32 bytes (lane be)) mask
      >>= λ mem. returns (set_write_buf t (set_image (write_buf t) t.buf_idx mem))

  commit-Written :
      (t : SlFb)
      → Sized t
      → reg_index ofs be < t.mem_size / 4
      → (s' : SlFb) × (commit t ≡ returns s') × Written ofs be bytes t s'
  commit-Written t sized inside =
      let lanes = low_lanes-lt be small in
      let (mem, runs, rewritten) =
        merge_word-Rewritten (buffer t) (reg_index ofs be) (word32 bytes (lane be)) (low_lanes be)
          lanes (omega (arith, length-buffer t sized)) in
      (
        stored t mem,
        rw (load-eq s_mask (low_lanes be) 0 lanes, runs) refl,
        (
          stored-Sized t mem sized rewritten.0,
          (put_in-keeps (is_converted t.mode) t (set_image (write_buf t) t.buf_idx mem)).1,
          subst
              (λ m.
                Rewritten (reg_index ofs be) (word32 bytes (lane be)) (low_lanes be) (buffer t) m)
              (sym (buffer-stored t mem)) rewritten,
        ),
      )

  -- A write of a word inside the buffer returns. When it is to the first byte the frame before it is
  -- shown first, and the write goes to the other buffer. In the word that it addresses, of the upper
  -- half of the line when one of its lanes is up, the bytes whose lanes are up come from the data;
  -- the other bytes of that word and the other words keep their values.
  pub write-Written :
      (s : SlFb)
      → Sized s
      → reg_index ofs be < s.mem_size / 4
      → (t : SlFb) × (s' : SlFb) × (starts_frame ofs be ≡ true
          → (display s ≡ returns t) × Displayed s t)
        × (starts_frame ofs be ≡ false → t ≡ s)
        × (write s ofs be bytes ≡ returns s')
        × Written ofs be bytes t s'
  unfolding write
  write-Written s sized inside = elim (Bool-cases (starts_frame ofs be)) [
    | inl e ↦
        let (t, shows, displayed) = display-Displayed s sized in
        let (s', runs, written) =
          commit-Written t displayed.0
            (subst (λ m. reg_index ofs be < m / 4) (sym displayed.2) inside) in
        (
          t,
          s',
          λ h. (shows, displayed),
          λ h. absurd (cc),
          rw (ltb_of_le (s.mem_size / 4) (reg_index ofs be) (omega arith), e, shows) runs,
          written,
        )
    | inr e ↦
        let (s', runs, written) = commit-Written s sized inside in
        (
          s,
          s',
          λ h. absurd (cc),
          λ h. refl,
          rw (ltb_of_le (s.mem_size / 4) (reg_index ofs be) (omega arith), e) runs,
          written,
        )
  ]

-- A write past the words of the buffer ends the simulation; but the word just past them is let
-- through, and leaves the buffer: without a frame to show the call faults.
pub write_past_end :
    (s : SlFb) (ofs be : ℕ) (bytes : List ℕ)
    → Sized s
    → be < 256
    → (s.mem_size / 4 < reg_index ofs be → write s ofs be bytes ≡ exits)
      × (s.mem_size / 4 ≡ reg_index ofs be
          → starts_frame ofs be ≡ false
          → write s ofs be bytes ≡ faults)
unfolding write merge_word
write_past_end s ofs be bytes sized small = (
  λ past. rw (lt→ltb (s.mem_size / 4) (reg_index ofs be) past) refl,
  λ at inside_frame.
      rw
        (
          ltb_of_le (s.mem_size / 4) (reg_index ofs be) (omega arith),
          inside_frame,
          load-eq s_mask (low_lanes be) 0 (low_lanes-lt be small),
          leb_of_lt (4 * reg_index ofs be + 4) (length (buffer s))
              (omega (arith, length-buffer s sized)),
        )
        refl,
)
