-- ===== src/Devices/Aicu/Contract.antt =====
-- The interrupt controller meets the contract of the devices.
use rabbits.Base.{
  ℕ, ◌-◌, ◌/◌, ◌%◌, ◌≡◌, inl, inr, refl, ◌∙◌, Bool, true, false, List, arith, returns, load-eq,
  store-eq, get_or, set, length, length-set, ltb_of_le, lt→ltb,
}
use rabbits.Bytes.{word32, set_word32, lane, reg_index, length-set_word32}
use rabbits.Slave.{Served}
use rabbits.Slave.Protocol.{Contract}
use rabbits.Devices.Aicu.{Output, Aicu, aicu_local, write, read_global, read, rcv_rqst}
use rabbits.Devices.Aicu.Access.{
  IsOutput, Inv, Legal, output_at-lt, All-set, write_global-Inv, write_local-Inv, shown,
  read_local_lem,
}

-- A local write or read keeps the invariant of the device.
outputs-Inv :
    (nb_out n : ℕ) (s : Aicu) (i : ℕ) (o : Output)
    → Inv nb_out n s
    → IsOutput n o
    → Inv nb_out n (record s { outputs = set s.outputs i o })
outputs-Inv nb_out n s i o inv is = record {
  irqs = inv.irqs;
  some_irq = inv.some_irq;
  few = inv.few;
  handled = inv.handled;
  sized = length-set s.outputs i o ∙ inv.sized;
  outs = All-set n s.outputs i o inv.outs is;
}

pub write-Inv :
    (nb_out n : ℕ) (s : Aicu) (ofs be : ℕ) (bytes : List ℕ)
    → Inv nb_out n s
    → Legal nb_out n ofs be true
    → (s' : Aicu) × (write s ofs be bytes ≡ returns s') × Inv nb_out n s'
unfolding write
write-Inv nb_out n s ofs be bytes inv (inl (low, reg)) =
    rw (lt→ltb _ _ low)
      (write_global-Inv nb_out n s (reg_index ofs be) (word32 bytes (lane be)) inv reg)
write-Inv nb_out n s ofs be bytes inv (inr (high, out, two)) =
    let i = (reg_index ofs be - aicu_local) / 4 in
    let reg = (reg_index ofs be - aicu_local) % 4 in
    let (o, finds, at, is) = output_at-lt n s.outputs i inv.outs (omega (arith, inv)) in
    let (o', writes, is') = write_local-Inv n o reg (word32 bytes (lane be)) is (two refl) in
    (
      record s { outputs = set s.outputs i o' },
      rw (ltb_of_le _ _ high, finds, writes, store-eq s.outputs i o' (omega (arith, inv))) refl,
      outputs-Inv nb_out n s i o' inv is',
    )

pub read-Inv :
    (nb_out n : ℕ) (s : Aicu) (ofs be : ℕ)
    → Inv nb_out n s
    → Legal nb_out n ofs be false
    → (v : ℕ) × (s' : Aicu) × (read s ofs be ≡ returns (v, s')) × Inv nb_out n s'
unfolding read read_global
read-Inv nb_out n s ofs be inv (inl (low, inl e)) = (s.control, s, rw (lt→ltb _ _ low, e) refl, inv)
read-Inv nb_out n s ofs be inv (inl (low, inr (lo, hi))) = (
  get_or s.handlers (reg_index ofs be - 4) 0,
  s,
  ground (arith, inv, load-eq s.handlers (reg_index ofs be - 4) 0),
  inv,
)
read-Inv nb_out n s ofs be inv (inr (high, out, two)) =
    let i = (reg_index ofs be - aicu_local) / 4 in
    let reg = (reg_index ofs be - aicu_local) % 4 in
    let (o, finds, at, is) = output_at-lt n s.outputs i inv.outs (omega (arith, inv)) in
    let (o', reads, is', mask, crt, line, bits) =
      read_local_lem n s.handlers o reg is inv.few inv.handled (omega arith) in
    (
      shown s.handlers o reg,
      record s { outputs = set s.outputs i o' },
      rw (ltb_of_le _ _ high, finds, reads, store-eq s.outputs i o' (omega (arith, inv))) refl,
      outputs-Inv nb_out n s i o' inv is',
    )

-- Every access to a register of an interrupt controller of at least one and at most 32 interrupts
-- returns without a fault and keeps the invariant: the arrays keep their sizes, no status bit names
-- an interrupt that is not there, and each current interrupt has a handler.
Aicu-Contract : (nb_out n : ℕ) → Contract rcv_rqst (Inv nb_out n) (Legal nb_out n)
unfolding rcv_rqst
Aicu-Contract nb_out n = record {
  serves = λ s ofs be bytes w inv legal width. serve s ofs be bytes w inv legal width;
}
  where
    serve :
        (s : Aicu) (ofs be : ℕ) (bytes : List ℕ) (w : Bool)
        → Inv nb_out n s
        → Legal nb_out n ofs be w
        → length bytes ≡ 8
        → (r : Served Aicu) × (rcv_rqst s ofs be bytes w ≡ returns r)
          × Inv nb_out n r.state
          × (length r.bytes ≡ 8)
    serve s ofs be bytes true inv legal width =
        let (s', runs, inv') = write-Inv nb_out n s ofs be bytes inv legal in
        (record { state = s'; bytes = bytes; error = false }, rw runs refl, inv', width)
    serve s ofs be bytes false inv legal width =
        let (v, s', runs, inv') = read-Inv nb_out n s ofs be inv legal in
        (
          record { state = s'; bytes = set_word32 bytes (lane be) v; error = false },
          rw runs refl,
          inv',
          length-set_word32 bytes (lane be) v ∙ width,
        )
