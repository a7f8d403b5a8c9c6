-- ===== src/Devices/BlockDevice/Control/Busy.antt =====
-- What the registers say of the thread, and the interrupt line of them.
use rabbits.Base.{
  Returns, Returns->>=, ℕ, ◌<◌, ◌≡◌, ◌≢◌, refl, inl, inr, Bool, true, false, List, Option, none,
  some, ltb, ◌==◌, if◌then◌else◌, returns, length, bit_and, arith, Bool-cases,
}
use rabbits.Master.{send_req}
use rabbits.Devices.BlockDevice.Op
use rabbits.Devices.BlockDevice.Status
use rabbits.Devices.BlockDevice.{Registers}
use rabbits.Devices.BlockDevice.Control.{
  Host, Location, waiting, storing, loading, spinning, BlockDevice, Turn, divide, fill, data_buff,
  raise_irq, end_op, finish_stores, cmd_write, store_bytes, store_words, store_all, finish_loads,
  cmd_read, load_words,
}

-- What the registers hold, by where the thread is.
abbrev pub InStep : Location → Registers → Type 0
InStep waiting r = (r.status ≢ Status.busy) × (r.op_start ≡ false → r.op ≡ Op.noop)
InStep (storing words addr buf size offset) r =
    (r.status ≡ Status.busy) × (r.op ≡ Op.read) × (r.op_start ≡ false)
InStep (loading naming addr buf size offset) r =
    (r.status ≡ Status.busy)
    × (r.op ≡ (if naming then Op.file_name else Op.write))
    × (r.op_start ≡ false)
InStep spinning r = (r.status ≢ Status.busy) × (Op.file_name < r.op)

-- The line shows the register once the thread of the line has run.
abbrev pub Shown : Registers → Bool → Type 0
Shown r line = r.irq_update ≡ false → line ≡ (r.irq == 1)

raise_irq-Shown : (r : Registers) (line : Bool) → Shown r line → Shown (raise_irq r) line
raise_irq-Shown r line h = ground arith

module _ {H : Type 0} (host : Host H) where
  abbrev pub Good : BlockDevice H → Type 0
  Good d = InStep d.at d.regs × Shown d.regs d.irq

  abbrev pub Keeps : Turn H → Type 0
  Keeps = Returns (λ r. Good r.1)

  -- The thread is in the middle of an operation.
  pub record Runs (d : BlockDevice H) (command : ℕ) : Type 0 where
    pub busy : d.regs.status ≡ Status.busy
    pub op : d.regs.op ≡ command
    pub heard : d.regs.op_start ≡ false
    pub line : Shown d.regs d.irq

  pub ended :
      (r : Registers) (line : Bool) (status : ℕ)
      → status ≢ Status.busy
      → Shown r line
      → InStep waiting (end_op r status) × Shown (end_op r status) line
  ended r line status other shown = ((other, λ e. refl), shown)

  pub finish_stores-Good :
      (d : BlockDevice H) (offset : ℕ) (ok : Bool)
      → Runs d Op.read
      → Keeps (finish_stores host d offset ok)
  unfolding finish_stores
  finish_stores-Good d offset true runs =
      ended (raise_irq d.regs) d.irq Status.read_success (λ e. absurd (omega arith))
        (raise_irq-Shown d.regs d.irq runs.line)
  finish_stores-Good d offset false runs =
      Returns->>= (λ r. Good r.1) (divide offset d.regs.block_size) _
        (λ count. ended d.regs d.irq Status.read_error (λ e. absurd (omega arith)) runs.line)

  pub cmd_write-Good :
      (d : BlockDevice H) (words : Bool) (addr : ℕ) (buf : List ℕ) (size offset : ℕ)
      → Runs d Op.read
      → Keeps (cmd_write host d words addr buf size offset)
  unfolding cmd_write
  cmd_write-Good d words addr buf size offset runs =
      Returns->>= (λ r. Good r.1) (send_req _ _ _ _ _ true) _
        (λ q. ((runs.busy, runs.op, runs.heard), runs.line))

  pub store_bytes-Good :
      (d : BlockDevice H) (addr : ℕ) (buf : List ℕ) (size offset : ℕ) (ok : Bool)
      → Runs d Op.read
      → Keeps (store_bytes host d addr buf size offset ok)
  unfolding store_bytes
  store_bytes-Good d addr buf size offset ok runs = elim (Bool-cases (ltb offset size)) [
    | inl e ↦ rw e (cmd_write-Good d false addr buf size offset runs)
    | inr e ↦ rw e (finish_stores-Good d offset ok runs)
  ]

  pub store_words-Good :
      (d : BlockDevice H) (addr : ℕ) (buf : List ℕ) (size offset : ℕ) (ok : Bool)
      → Runs d Op.read
      → Keeps (store_words host d addr buf size offset ok)
  unfolding store_words
  store_words-Good d addr buf size offset ok runs =
      elim (Bool-cases (ltb offset (bit_and size 0xFFFFFFFC))) [
        | inl e ↦ rw e (cmd_write-Good d true addr buf size offset runs)
        | inr e ↦ rw e (store_bytes-Good d addr buf size offset ok runs)
      ]

  pub store_all-Good :
      (d : BlockDevice H) (size : ℕ) (o : Option (List ℕ))
      → Runs d Op.read
      → Keeps (store_all host d size o)
  unfolding store_all
  store_all-Good d size none runs =
      ended d.regs d.irq Status.read_error (λ e. absurd (omega arith)) runs.line
  store_all-Good d size (some bytes) runs =
      Returns->>= (λ r. Good r.1) (fill bytes (data_buff size)) _
        (λ buf.
          Returns->>= (λ r. Good r.1) (divide (length bytes) d.regs.block_size) _
            (λ count. elim (Bool-cases (length bytes == 0)) [
              | inl e ↦ rw e (
                  ended (raise_irq (record d.regs { count = count })) d.irq Status.read_success
                    (λ e. absurd (omega arith))
                    (raise_irq-Shown (record d.regs { count = count }) d.irq runs.line))
              | inr e ↦ rw e (
                  store_words-Good (record d { regs = record d.regs { count = count } })
                    d.regs.buffer buf (length bytes) 0 true
                    (record {
                      busy = runs.busy;
                      op = runs.op;
                      heard = runs.heard;
                      line = runs.line;
                    }))
            ]))

  abbrev pub loads : Bool → ℕ
  loads naming = if naming then Op.file_name else Op.write

  pub finish_loads-Good :
      (d : BlockDevice H) (naming : Bool) (buf : List ℕ) (size : ℕ) (ok : Bool)
      → Runs d (loads naming)
      → Keeps (finish_loads host d naming buf size ok)
  unfolding finish_loads
  finish_loads-Good d naming buf size false runs =
      ended d.regs d.irq Status.write_error (λ e. absurd (omega arith)) runs.line
  finish_loads-Good d false buf size true runs =
      Returns->>= (λ r. Good r.1) (divide _ d.regs.block_size) _
        (λ blocks.
          ended (raise_irq (record d.regs { size = blocks })) d.irq Status.write_success
            (λ e. absurd (omega arith))
            (raise_irq-Shown (record d.regs { size = blocks }) d.irq runs.line))
  finish_loads-Good d true buf size true runs =
      let opened : Bool = (host.open_file d.host buf).1 in
      Returns->>= (λ r. Good r.1) (if opened then divide _ d.regs.block_size else returns _) _
        (λ blocks.
          ended (record d.regs { size = blocks }) d.irq
            (if opened then Status.write_success else Status.write_error) (λ e. ground arith)
            runs.line)

  pub cmd_read-Good :
      (d : BlockDevice H) (naming : Bool) (addr : ℕ) (buf : List ℕ) (size offset : ℕ)
      → Runs d (loads naming)
      → Keeps (cmd_read host d naming addr buf size offset)
  unfolding cmd_read
  cmd_read-Good d naming addr buf size offset runs =
      Returns->>= (λ r. Good r.1) (send_req _ _ _ _ _ false) _
        (λ q. ((runs.busy, runs.op, runs.heard), runs.line))

  pub load_words-Good :
      (d : BlockDevice H) (naming : Bool) (addr : ℕ) (buf : List ℕ) (size offset : ℕ) (ok : Bool)
      → Runs d (loads naming)
      → Keeps (load_words host d naming addr buf size offset ok)
  unfolding load_words
  load_words-Good d naming addr buf size offset ok runs = elim (Bool-cases (ltb offset size)) [
    | inl e ↦ rw e (cmd_read-Good d naming addr buf size offset runs)
    | inr e ↦ rw e (finish_loads-Good d naming buf size ok runs)
  ]
