-- ===== src/Devices/Mailbox/Irq.antt =====
-- The invariant of the mailboxes: the interrupt lines show the status registers.
use rabbits.Base.{
  ℕ, zero, suc, below_four, ◌+◌, ◌-◌, ◌/◌, ◌%◌, ◌<◌, ◌≤◌, ◌≡◌, ◌⊎◌, inl, inr, refl, Bool, true,
  false, List, [], ◌∷◌, returns, replicate, length, set, arith, leb_of_lt, leb_of_le, ◌∙◌, store-eq,
  length-set, length-replicate,
}
use rabbits.Bytes.{word32, lane, reg_index}
use rabbits.Devices.Mailbox.{
  Mailbox, new, clear, new_message, global_no_regs, global_start_addr, write_local, write_global,
  write,
}

-- A line is raised exactly while its status register holds a new message.
abbrev pub Shows : List Bool → List ℕ → Type 0
Shows [] [] = Unit
Shows (true ∷ irq) (s ∷ status) = (s ≡ new_message) × Shows irq status
Shows (false ∷ irq) (s ∷ status) = (s ≡ clear) × Shows irq status
Shows _ _ = ⊥

-- `nb` mailboxes, with all arrays of the sizes allocated and the lines in step.
pub record Inv (nb : ℕ) (s : Mailbox) : Type 0 where
  pub commands : length s.command ≡ nb
  pub messages : length s.message ≡ nb
  pub statuses : length s.status ≡ nb
  pub reserves : length s.reserved ≡ nb
  pub globals : length s.global_reg ≡ global_no_regs
  pub lines : length s.irq ≡ nb
  pub shows : Shows s.irq s.status

Shows-replicate : (n : ℕ) → Shows (replicate n false) (replicate n 0)
Shows-replicate zero = tt
Shows-replicate (suc n) = (refl, Shows-replicate n)

Shows-raise :
    (irq : List Bool) (status : List ℕ) (i : ℕ)
    → Shows irq status
    → Shows (set irq i true) (set status i new_message)
Shows-raise [] [] i h = h
Shows-raise [] (s ∷ status) i h = elim h [ ]
Shows-raise (true ∷ irq) [] i h = elim h [ ]
Shows-raise (false ∷ irq) [] i h = elim h [ ]
Shows-raise (true ∷ irq) (s ∷ status) zero h = (refl, h.1)
Shows-raise (false ∷ irq) (s ∷ status) zero h = (refl, h.1)
Shows-raise (true ∷ irq) (s ∷ status) (suc i) h = (h.0, Shows-raise irq status i h.1)
Shows-raise (false ∷ irq) (s ∷ status) (suc i) h = (h.0, Shows-raise irq status i h.1)

Shows-lower :
    (irq : List Bool) (status : List ℕ) (i : ℕ)
    → Shows irq status
    → Shows (set irq i false) (set status i clear)
Shows-lower [] [] i h = h
Shows-lower [] (s ∷ status) i h = elim h [ ]
Shows-lower (true ∷ irq) [] i h = elim h [ ]
Shows-lower (false ∷ irq) [] i h = elim h [ ]
Shows-lower (true ∷ irq) (s ∷ status) zero h = (refl, h.1)
Shows-lower (false ∷ irq) (s ∷ status) zero h = (refl, h.1)
Shows-lower (true ∷ irq) (s ∷ status) (suc i) h = (h.0, Shows-lower irq status i h.1)
Shows-lower (false ∷ irq) (s ∷ status) (suc i) h = (h.0, Shows-lower irq status i h.1)

pub new-Inv : (nb : ℕ) → Inv nb (new nb)
unfolding new
new-Inv nb = record {
  commands = length-replicate nb 0;
  messages = length-replicate nb 0;
  statuses = length-replicate nb 0;
  reserves = length-replicate nb 0;
  globals = refl;
  lines = length-replicate nb false;
  shows = Shows-replicate nb;
}

-- Which accesses stay inside the device.
abbrev pub Legal : ℕ → ℕ → ℕ → Bool → Type 0
Legal nb ofs be w =
    ((ofs < global_start_addr) × (reg_index ofs be / 4 < nb))
    ⊎ ((global_start_addr ≤ ofs) × (reg_index ofs be < global_start_addr / 4 + global_no_regs))

write_local-Inv :
    (nb : ℕ) (s : Mailbox) (mailbox reg value : ℕ)
    → Inv nb s
    → mailbox < nb
    → reg < 4
    → (s' : Mailbox) × (write_local s mailbox reg value ≡ returns s') × Inv nb s'
unfolding write_local
write_local-Inv nb s mailbox reg value inv below four = elim (below_four reg four) [
  | inl comm ↦ (
    record s {
      command = set s.command mailbox value;
      status = set s.status mailbox new_message;
      irq = set s.irq mailbox true;
    },
    rw
        (
          comm,
          store-eq s.command mailbox value (omega (arith, inv)),
          store-eq s.status mailbox new_message (omega (arith, inv)),
          store-eq s.irq mailbox true (omega (arith, inv)),
        )
        refl,
    record {
      commands = length-set s.command mailbox value ∙ inv.commands;
      messages = inv.messages;
      statuses = length-set s.status mailbox new_message ∙ inv.statuses;
      reserves = inv.reserves;
      globals = inv.globals;
      lines = length-set s.irq mailbox true ∙ inv.lines;
      shows = Shows-raise s.irq s.status mailbox inv.shows;
    },
  )
  | inr (inl message) ↦ (
    record s { message = set s.message mailbox value },
    rw (message, store-eq s.message mailbox value (omega (arith, inv))) refl,
    record {
      commands = inv.commands;
      messages = length-set s.message mailbox value ∙ inv.messages;
      statuses = inv.statuses;
      reserves = inv.reserves;
      globals = inv.globals;
      lines = inv.lines;
      shows = inv.shows;
    },
  )
  | inr (inr (inl reserved)) ↦ (
    record s { reserved = set s.reserved mailbox value },
    rw (reserved, store-eq s.reserved mailbox value (omega (arith, inv))) refl,
    record {
      commands = inv.commands;
      messages = inv.messages;
      statuses = inv.statuses;
      reserves = length-set s.reserved mailbox value ∙ inv.reserves;
      globals = inv.globals;
      lines = inv.lines;
      shows = inv.shows;
    },
  )
  | inr (inr (inr reset)) ↦ (
    record s { status = set s.status mailbox clear; irq = set s.irq mailbox false },
    rw
        (
          reset,
          store-eq s.status mailbox clear (omega (arith, inv)),
          store-eq s.irq mailbox false (omega (arith, inv)),
        )
        refl,
    record {
      commands = inv.commands;
      messages = inv.messages;
      statuses = length-set s.status mailbox clear ∙ inv.statuses;
      reserves = inv.reserves;
      globals = inv.globals;
      lines = length-set s.irq mailbox false ∙ inv.lines;
      shows = Shows-lower s.irq s.status mailbox inv.shows;
    },
  )
]

write_global-Inv :
    (nb : ℕ) (s : Mailbox) (idx value : ℕ)
    → Inv nb s
    → idx < global_no_regs
    → (s' : Mailbox) × (write_global s idx value ≡ returns s') × Inv nb s'
unfolding write_global
write_global-Inv nb s idx value inv below = (
  record s { global_reg = set s.global_reg idx value },
  rw (leb_of_lt _ _ below, store-eq s.global_reg idx value (omega (arith, inv))) refl,
  record {
    commands = inv.commands;
    messages = inv.messages;
    statuses = inv.statuses;
    reserves = inv.reserves;
    globals = length-set s.global_reg idx value ∙ inv.globals;
    lines = inv.lines;
    shows = inv.shows;
  },
)

pub write-Inv :
    (nb : ℕ) (s : Mailbox) (ofs be : ℕ) (bytes : List ℕ)
    → Inv nb s
    → Legal nb ofs be true
    → (s' : Mailbox) × (write s ofs be bytes ≡ returns s') × Inv nb s'
unfolding write
write-Inv nb s ofs be bytes inv (inl low) = rw (leb_of_lt _ _ low.0) (
    write_local-Inv nb s (reg_index ofs be / 4) (reg_index ofs be % 4) (word32 bytes (lane be)) inv
      low.1 (omega arith))
write-Inv nb s ofs be bytes inv (inr high) =
    rw (leb_of_le _ _ high.0)
      (write_global-Inv nb s (reg_index ofs be - 1024) (word32 bytes (lane be)) inv (omega arith))
