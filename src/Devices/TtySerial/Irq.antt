-- ===== src/Devices/TtySerial/Irq.antt =====
-- The terminal's interrupt line, and its registers as a device.
use rabbits.Base.{
  ℕ, ◌%◌, ◌/◌, ◌<◌, ◌≡◌, inl, inr, refl, ◌∙◌, Bool, true, false, not, ◌&&◌, List, [], ◌∷◌, ◌++◌,
  ◌==◌, if◌then◌else◌, returns, length, get_or, bit_and, arith, Bool-cases, load-eq,
}
use rabbits.Bits.{bit, bit_and_step, bit_and-le}
use rabbits.Bytes.{word32, set_word32, lane, reg_index, length-set_word32}
use rabbits.Slave.{Served}
use rabbits.Slave.Protocol.{Contract}
use rabbits.Devices.TtySerial.{Tty, read_buf_size, irq_update, take, read_reg, write, rcv_rqst}
use rabbits.Devices.TtySerial.Buffer.{Holds}

masked_one : (e : ℕ) → bit_and 1 e ≡ e % 2
masked_one e = omega (arith, bit_and_step 1 e, bit_and-le 0 (e / 2))

-- After an update the line is up exactly when characters wait and bit 0 enables their interrupt.
irq_update_line :
    (t : Tty) (q : List ℕ)
    → Holds t q
    → (irq_update t).irq_line ≡ (not (length q == 0) && (bit t.int_enabled 0 == 1))
unfolding irq_update
irq_update_line t q h = elim (Bool-cases (length q == 0)) [
  | inl e ↦
      let low : t.int_level ≡ 0 = h.level ∙ rw e refl in
      rw (e, low) (ground (arith, bit_and-le 0 t.int_enabled))
  | inr e ↦
      let high : t.int_level ≡ 1 = h.level ∙ rw e refl in
      rw (e, high, masked_one t.int_enabled) (ground arith)
]

-- The ring is where the code expects it.
abbrev pub Inv : Tty → Type 0
Inv t = (length t.read_buf ≡ read_buf_size) × (t.read_pos < read_buf_size)

-- A program writes the first two registers and reads the first seven.
abbrev pub Legal : ℕ → ℕ → Bool → Type 0
Legal ofs be true = reg_index ofs be < 2
Legal ofs be false = reg_index ofs be < 7

take-Inv : (t : Tty) → Inv t → Inv (take t)
unfolding take
take-Inv t inv = ground arith

write-Inv :
    (t : Tty) (ofs be : ℕ) (bytes : List ℕ)
    → Inv t
    → reg_index ofs be < 2
    → (t' : Tty) × (write t ofs be bytes ≡ returns t') × Inv t'
unfolding write
write-Inv t ofs be bytes inv legal = elim (Bool-cases (reg_index ofs be == 0)) [
  | inl e ↦ (record t { sent = t.sent ++ (get_or bytes 0 0 ∷ []) }, rw e refl, inv)
  | inr e ↦
      let one : (reg_index ofs be == 1) ≡ true = ground arith in
      (record t { int_enabled = word32 bytes (lane be) }, rw (e, one) refl, inv)
]

read_reg-Inv :
    (t : Tty) (idx : ℕ)
    → Inv t
    → idx < 7
    → (v : ℕ) × (t' : Tty) × (read_reg t idx ≡ returns (v, t')) × Inv t'
unfolding read_reg
read_reg-Inv t idx inv legal = elim (Bool-cases (idx == 0)) [
  | inl e ↦ (
    get_or t.read_buf t.read_pos 0,
    take t,
    rw (e, load-eq t.read_buf t.read_pos 0 (omega arith)) refl,
    take-Inv t inv,
  )
  | inr e ↦ (other, t, ground arith, inv)
]
  where
    other : ℕ
    other =
        if idx == 1
        then 1
        else if idx == 2
        then (if t.read_count == 0 then 0 else 1)
        else if idx == 3
        then t.int_enabled
        else if idx == 4
        then t.int_level
        else if idx == 5
        then bit_and t.int_level t.int_enabled
        else 0

-- An access to one of the registers returns, and keeps the ring where the code expects it.
Tty-Contract : Contract rcv_rqst Inv Legal
unfolding rcv_rqst
Tty-Contract = record {
  serves = λ t ofs be bytes w inv legal width. serve t ofs be bytes w inv legal width;
}
  where
    serve :
        (t : Tty) (ofs be : ℕ) (bytes : List ℕ) (w : Bool)
        → Inv t
        → Legal ofs be w
        → length bytes ≡ 8
        → (r : Served Tty) × (rcv_rqst t ofs be bytes w ≡ returns r)
          × Inv r.state
          × (length r.bytes ≡ 8)
    serve t ofs be bytes true inv legal width =
        let (t', runs, inv') = write-Inv t ofs be bytes inv legal in
        (record { state = t'; bytes = bytes; error = false }, rw runs refl, inv', width)
    serve t ofs be bytes false inv legal width =
        let (v, t', runs, inv') = read_reg-Inv t (reg_index ofs be) inv legal in
        let low : List ℕ = set_word32 bytes 0 0 in
        let zeroed : List ℕ = set_word32 low 1 0 in
        (
          record { state = t'; bytes = set_word32 zeroed (lane be) v; error = false },
          rw runs refl,
          inv',
          length-set_word32 zeroed (lane be) v
              ∙ length-set_word32 low 1 0
              ∙ length-set_word32 bytes 0 0
              ∙ width,
        )
