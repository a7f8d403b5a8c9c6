-- ===== src/Devices/Mailbox/Contract.antt =====
-- The mailboxes as a device of the slave's thread.
use rabbits.Base.{
  ℕ, below_four, ◌-◌, ◌/◌, ◌%◌, ◌<◌, ◌≡◌, inl, inr, refl, Bool, true, false, List, returns, length,
  arith, leb_of_lt, leb_of_le, ◌∙◌, load-eq, get_or,
}
use rabbits.Bytes.{set_word32, lane, reg_index, length-set_word32}
use rabbits.Slave.{Served}
use rabbits.Slave.Protocol.{Contract}
use rabbits.Devices.Mailbox.{Mailbox, global_no_regs, read_local, read_global, read, rcv_rqst}
use rabbits.Devices.Mailbox.Irq.{Inv, Legal, write-Inv}

read_local-returns :
    (nb : ℕ) (s : Mailbox) (mailbox reg : ℕ)
    → Inv nb s
    → mailbox < nb
    → reg < 4
    → (v : ℕ) × (read_local s mailbox reg ≡ returns v)
unfolding read_local
read_local-returns nb s mailbox reg inv below four = elim (below_four reg four) [
  | inl e ↦
      (get_or s.command mailbox 0, rw (e, load-eq s.command mailbox 0 (omega (arith, inv))) refl)
  | inr (inl e) ↦
      (get_or s.message mailbox 0, rw (e, load-eq s.message mailbox 0 (omega (arith, inv))) refl)
  | inr (inr (inl e)) ↦
      (get_or s.reserved mailbox 0, rw (e, load-eq s.reserved mailbox 0 (omega (arith, inv))) refl)
  | inr (inr (inr e)) ↦
      (get_or s.status mailbox 0, rw (e, load-eq s.status mailbox 0 (omega (arith, inv))) refl)
]

read-returns :
    (nb : ℕ) (s : Mailbox) (ofs be : ℕ)
    → Inv nb s
    → Legal nb ofs be false
    → (v : ℕ) × (read s ofs be ≡ returns v)
unfolding read read_global
read-returns nb s ofs be inv (inl low) =
    rw (leb_of_lt _ _ low.0) (
      read_local-returns nb s (reg_index ofs be / 4) (reg_index ofs be % 4) inv low.1 (omega arith))
read-returns nb s ofs be inv (inr high) = (
  get_or s.global_reg (reg_index ofs be - 1024) 0,
  rw
      (
        leb_of_le _ _ high.0,
        leb_of_lt global_no_regs (reg_index ofs be - 1024) (omega arith),
        load-eq s.global_reg (reg_index ofs be - 1024) 0 (omega (arith, inv)),
      )
      refl,
)

-- Every access to one of the `nb` mailboxes or to a global register returns without a fault, keeps
-- the arrays and keeps each interrupt line in step with its status register.
pub Mailbox-Contract : (nb : ℕ) → Contract rcv_rqst (Inv nb) (Legal nb)
unfolding rcv_rqst
Mailbox-Contract nb = record {
  serves = λ s ofs be bytes w inv legal width. serve s ofs be bytes w inv legal width;
}
  where
    serve :
        (s : Mailbox) (ofs be : ℕ) (bytes : List ℕ) (w : Bool)
        → Inv nb s
        → Legal nb ofs be w
        → length bytes ≡ 8
        → (r : Served Mailbox) × (rcv_rqst s ofs be bytes w ≡ returns r)
          × Inv nb r.state
          × (length r.bytes ≡ 8)
    serve s ofs be bytes true inv legal width =
        let (s', runs, inv') = write-Inv nb s ofs be bytes inv legal in
        (record { state = s'; bytes = bytes; error = false }, rw runs refl, inv', width)
    serve s ofs be bytes false inv legal width =
        let (v, runs) = read-returns nb s ofs be inv legal in
        (
          record { state = s; bytes = set_word32 bytes (lane be) v; error = false },
          rw runs refl,
          inv,
          length-set_word32 bytes (lane be) v ∙ width,
        )
