-- ===== src/Devices/Mailbox/Registers.antt =====
-- What an access to one mailbox does to that mailbox, and to no other.
use rabbits.Base.{
  ℕ, ◌/◌, ◌%◌, ◌<◌, ◌≤◌, ◌≡◌, ◌≢◌, Bool, true, false, List, ◌==◌, if◌then◌else◌, Outcome, returns,
  faults, load, store, length, arith, sym, ◌∙◌, get_elem?-set_self, get_elem?-set_ne, set,
}
use rabbits.Bytes.{word32, lane, reg_index}
use rabbits.Devices.Mailbox.{
  Mailbox, clear, new_message, global_start_addr, write_local, write, read_local, read,
}

-- The mailbox and the register that an access below the global registers names.
abbrev pub mailbox_of : ℕ → ℕ → ℕ
mailbox_of ofs be = reg_index ofs be / 4

abbrev pub register_of : ℕ → ℕ → ℕ
register_of ofs be = reg_index ofs be % 4

-- One mailbox as a program sees it: its four registers and its line.
abbrev pub View : Type 0
View = Outcome ℕ × Outcome ℕ × Outcome ℕ × Outcome ℕ × Outcome Bool

abbrev pub view : Mailbox → ℕ → View
view s i = (load s.command i, load s.message i, load s.reserved i, load s.status i, load s.irq i)

-- What a write of `v` to register `reg` makes of the mailbox that had the view `o`.
abbrev pub written : ℕ → ℕ → View → View
written reg v (c, m, r, s, q) =
    if reg == 0
    then (returns v, m, r, returns new_message, returns true)
    else if reg == 1
    then (c, returns v, r, s, q)
    else if reg == 2
    then (c, m, returns v, s, q)
    else (c, m, r, returns clear, returns false)

load-set_self {ℓ} :
    {A : Type ℓ} (xs : List A) (i : ℕ) (v : A) → i < length xs → load (set xs i v) i ≡ returns v
unfolding load
load-set_self xs i v h = rw (get_elem?-set_self xs i v h, load)

load-set_ne {ℓ} :
    {A : Type ℓ} (xs : List A) (i j : ℕ) (v : A) → i ≢ j → load (set xs i v) j ≡ load xs j
unfolding load
load-set_ne xs i j v h = rw (get_elem?-set_ne xs i j v h, load)

write_local_self :
    (s : Mailbox) (i reg v : ℕ) {s' : Mailbox}
    → reg < 4
    → write_local s i reg v ≡ returns s'
    → view s' i ≡ written reg v (view s i)
unfolding write_local store
write_local_self s i reg v four h = ground (
  arith,
  load-set_self s.command i v,
  load-set_self s.message i v,
  load-set_self s.reserved i v,
  load-set_self s.status i new_message,
  load-set_self s.status i clear,
  load-set_self s.irq i true,
  load-set_self s.irq i false,
)

write_local_other :
    (s : Mailbox) (i reg v : ℕ) {s' : Mailbox}
    → reg < 4
    → write_local s i reg v ≡ returns s'
    → (j : ℕ) → i ≢ j
    → view s' j ≡ view s j
unfolding write_local store
write_local_other s i reg v four h j ne = ground (
  arith,
  load-set_ne s.command i j v,
  load-set_ne s.message i j v,
  load-set_ne s.reserved i j v,
  load-set_ne s.status i j new_message,
  load-set_ne s.status i j clear,
  load-set_ne s.irq i j true,
  load-set_ne s.irq i j false,
)

write_low :
    (s : Mailbox) (ofs be : ℕ) (bytes : List ℕ)
    → ofs < global_start_addr
    → write s ofs be bytes
      ≡ write_local s (mailbox_of ofs be) (register_of ofs be) (word32 bytes (lane be))
unfolding write
write_low s ofs be bytes low = ground arith

-- A write below the global registers that returns changes one mailbox, and that one as its
-- register says: a command comes with the new-message status and a raised line, a reset clears
-- the status and lowers the line, and the other two registers only take the value.
write-view :
    (s : Mailbox) (ofs be : ℕ) (bytes : List ℕ) {s' : Mailbox}
    → ofs < global_start_addr
    → write s ofs be bytes ≡ returns s'
    → (view s' (mailbox_of ofs be)
        ≡ written (register_of ofs be) (word32 bytes (lane be)) (view s (mailbox_of ofs be)))
      × ((j : ℕ) → mailbox_of ofs be ≢ j → view s' j ≡ view s j)
write-view s ofs be bytes low h =
    let runs = sym (write_low s ofs be bytes low) ∙ h in
    let (i, reg, v) : ℕ × ℕ × ℕ = (mailbox_of ofs be, register_of ofs be, word32 bytes (lane be)) in
    (
      write_local_self s i reg v (omega arith) runs,
      λ j ne. write_local_other s i reg v (omega arith) runs j ne,
    )

-- A mailbox number is never tested: an access below the global registers to a mailbox past the
-- last one leaves the arrays.
write_past :
    (s : Mailbox) (ofs be : ℕ) (bytes : List ℕ)
    → ofs < global_start_addr
    → length s.command ≤ mailbox_of ofs be
    → length s.message ≤ mailbox_of ofs be
    → length s.reserved ≤ mailbox_of ofs be
    → length s.status ≤ mailbox_of ofs be
    → write s ofs be bytes ≡ faults
unfolding write write_local store
write_past s ofs be bytes low c m r t = ground arith

-- What a register other than the status is given, it returns.
read-write :
    (s : Mailbox) (ofs be : ℕ) (bytes : List ℕ) {s' : Mailbox}
    → ofs < global_start_addr
    → register_of ofs be ≢ 3
    → write s ofs be bytes ≡ returns s'
    → read s' ofs be ≡ returns (word32 bytes (lane be))
unfolding read read_local
read-write s ofs be bytes low not_reset h = ground (arith, (write-view s ofs be bytes low h).0)
