-- ===== src/Devices/BlockDevice/Control/Reading.antt =====
-- A read of the disk, from the operation that the program writes to the interrupt.
use rabbits.Base.{
  ℕ, ◌+◌, ◌-◌, ◌/◌, ◌%◌, ◌≤◌, ◌<◌, ◌≡◌, ◌≢◌, refl, ◌∙◌, inl, inr, true, false, List, [], ◌∷◌, ◌++◌,
  Option, none, some, ◌==◌, if◌then◌else◌, Outcome, returns, ◌>>=◌, length, drop, arith, Bool-cases,
  ap, ==_iff, ==_of_ne, get_or-append, length-append, length-replicate,
}
use rabbits.Noc.Packet.{Request, word_mod}
use rabbits.Noc.Routing.Decode.{All}
use rabbits.Master.{Received}
use rabbits.Devices.BlockDevice.Op
use rabbits.Devices.BlockDevice.Status
use rabbits.Devices.BlockDevice.{Registers}
use rabbits.Devices.BlockDevice.Control.{
  Host, waiting, BlockDevice, fill, data_buff, transfer_size, position, raise_irq, end_op,
  store_all, dispatch, run_control, Event, control, act, step_at, run,
}
use rabbits.Devices.BlockDevice.Control.Stores.{store_requests, patched}
use rabbits.Devices.BlockDevice.Control.Transfer.{Accepts, Ready, responses, words_lem}

-- The device as the thread leaves it before it calls the host, and then with the count of blocks.
abbrev busy : {H : Type 0} → BlockDevice H → BlockDevice H
busy d = record d { regs = record d.regs { op_start = false; status = Status.busy } }

abbrev counted : {H : Type 0} → BlockDevice H → ℕ → BlockDevice H
counted d count = record d { regs = record d.regs { count = count } }

-- The buffer behind a read of the file.
abbrev filled : ℕ → List ℕ → List ℕ
filled size bytes = bytes ++ drop (length bytes) (data_buff size)

-- The loops over `bytes`, with the place that they have.
record Room (d : ℕ) (size : ℕ) (bytes : List ℕ) : Type 0 where
  short : length bytes ≤ size
  whole : size + 4 < word_mod
  fits : d + length bytes < word_mod + 1
  aligned : d % 4 ≡ 0

patched-filled :
    (mem : ℕ → ℕ) (addr size : ℕ) (bytes : List ℕ) (a : ℕ)
    → patched mem addr (filled size bytes) (length bytes) a
      ≡ patched mem addr bytes (length bytes) a
patched-filled mem addr size bytes a =
    let rest : List ℕ = drop (length bytes) (data_buff size) in
    ground (
      arith,
      λ (h : addr ≤ a) (l : a < addr + length bytes).
          let inside : a - addr < length bytes = omega arith in
          get_or-append bytes rest (a - addr) 0 inside,
    )

module _ {H : Type 0} (host : Host H) where
  start_read :
      (d : BlockDevice H) (es : List Event)
      → d.at ≡ waiting
      → d.regs.op_start ≡ true
      → d.regs.op ≡ Op.read
      → run host d (control ∷ es) ≡ (
          store_all host
            (busy d)
            (transfer_size d.regs)
            (host.read_at d.host (position d.regs) (transfer_size d.regs))
          >>= λ s. run host s.1 es >>= λ r. returns (s.0 ∷ r.0, r.1))
  unfolding run step_at act run_control dispatch
  start_read d es at woken op = rw (at, woken, op) refl

  -- What a read has done once its thread waits again.
  pub record Done (d d' : BlockDevice H) (bytes : List ℕ) (requests : List (Option Request))
      : Type 0 where
    pub waits : d'.at ≡ waiting
    pub status : d'.regs.status ≡ Status.read_success
    pub op : d'.regs.op ≡ Op.noop
    pub count : d'.regs.count ≡ length bytes / d.regs.block_size
    pub irq : d'.regs.irq ≡ (if d.regs.irqen == 0 then d.regs.irq else 1)
    pub disk : d'.host ≡ d.host
    pub memory :
        (mem : ℕ → ℕ) (a : ℕ)
        → store_requests mem requests a ≡ patched mem d.regs.buffer bytes (length bytes) a

  Ends : BlockDevice H → List ℕ → Outcome (List (Option Request) × BlockDevice H) → Type 0
  Ends d bytes o =
      (requests : List (Option Request)) × (d' : BlockDevice H) × (o ≡ returns (requests, d'))
      × Done d d' bytes requests

  raise_irq-count : (r : Registers) → (raise_irq r).count ≡ r.count
  raise_irq-count r = ground arith

  raise_irq-irq : (r : Registers) → (raise_irq r).irq ≡ (if r.irqen == 0 then r.irq else 1)
  raise_irq-irq r = ground arith

  no_answers : (rs : List Received) → length rs ≡ 0 → rs ≡ []
  no_answers [] e = refl
  no_answers (r ∷ rs) e = absurd (omega arith)

  room_for :
      (size : ℕ) (bytes : List ℕ)
      → length bytes ≤ size
      → size + 4 < word_mod
      → (fill bytes (data_buff size) ≡ returns (filled size bytes))
        × (length bytes ≤ length (filled size bytes))
  room_for size bytes short whole =
      let len = length-replicate {A = ℕ} ((size + 4) % word_mod) 0 in
      let rest : List ℕ = drop (length bytes) (data_buff size) in
      (ground (arith, len), omega (arith, length-append bytes rest))

  store_all-Done :
      (d : BlockDevice H) (size : ℕ) (bytes : List ℕ) (rs : List Received)
      → Ready d.bus
      → d.regs.block_size ≢ 0
      → length bytes ≤ size
      → size + 4 < word_mod
      → d.regs.buffer % 4 ≡ 0
      → d.regs.buffer + length bytes < word_mod + 1
      → length rs ≡ length bytes / 4 + length bytes % 4
      → All (Accepts d.bus.tr_nbytes) rs
      → Ends d bytes (
          store_all host (busy d) size (some bytes) >>= λ s.
          run host s.1 (responses rs) >>= λ r. returns (s.0 ∷ r.0, r.1))
  unfolding store_all Ends run
  store_all-Done d size bytes rs ready blocks short whole aligned fits answers accepts =
      let (fills, inside) = room_for size bytes short whole in
      let divides = ==_of_ne d.regs.block_size 0 blocks in
      let c : BlockDevice H = counted (busy d) (length bytes / d.regs.block_size) in
      elim (Bool-cases (length bytes == 0)) [
        | inl e ↦
            let nothing : length bytes ≡ 0 = (==_iff (length bytes) 0).0 e in
            (
              none ∷ [],
              record c {
                regs = end_op (raise_irq c.regs) Status.read_success;
                at = waiting;
                func_ret = false;
              },
              rw (fills, divides, e, no_answers rs (omega arith)) refl,
              record {
                waits = refl;
                status = refl;
                op = refl;
                count = raise_irq-count c.regs;
                irq = raise_irq-irq c.regs;
                disk = refl;
                memory = λ mem a. ground arith;
              },
            )
        | inr e ↦
            let s =
              words_lem host d.regs.buffer (filled size bytes) (length bytes) inside (omega arith)
                fits aligned (length bytes / 4) c 0 rs (omega arith) answers accepts ready in
            (
              s.requests,
              s.last,
              rw (fills, divides, e) s.ends,
              record {
                waits = s.waits;
                status = ap (λ (r : Registers). r.status) s.regs;
                op = ap (λ (r : Registers). r.op) s.regs;
                count = ap (λ (r : Registers). r.count) s.regs ∙ raise_irq-count c.regs;
                irq = ap (λ (r : Registers). r.irq) s.regs ∙ raise_irq-irq c.regs;
                disk = s.disk;
                memory = λ mem a.
                    s.memory mem mem (λ b. ground arith) a
                    ∙ patched-filled mem d.regs.buffer size bytes a;
              },
            )
      ]

  -- A device that waits and has been given the operation of a read, with a block size other than
  -- 0, to a buffer whose address is a multiple of 4, whose host answers the read with at most the
  -- bytes that it asks for, which end inside of the 32 bits of an address; the size of the
  -- transfer and 4 are below 2 ^ 32, the number of the bus master has 16 bits, and it copies at
  -- most 4 bytes of a response (the constructor leaves this number unset). There is a response to
  -- each of its requests, one for each word and one for each byte behind the last word, that is
  -- marked as one to a read, as `response_thread` marks all, reports no error and has, from its
  -- first lane on, the bytes that the master copies: where it copies 4, no such byte may lie in
  -- one of the lanes 5 to 7. Then the thread comes back to its wait with success, no operation and
  -- the count of whole blocks that came, the interrupt register becomes 1 if the interrupt is
  -- enabled and stays as it was otherwise, and the memory behind the network has the bytes of the
  -- file at the buffer's address and is as before elsewhere.
  pub read_transfer :
      (d : BlockDevice H) (bytes : List ℕ) (rs : List Received)
      → d.at ≡ waiting
      → d.regs.op_start ≡ true
      → d.regs.op ≡ Op.read
      → Ready d.bus
      → d.regs.block_size ≢ 0
      → host.read_at d.host (position d.regs) (transfer_size d.regs) ≡ some bytes
      → length bytes ≤ transfer_size d.regs
      → transfer_size d.regs + 4 < word_mod
      → d.regs.buffer % 4 ≡ 0
      → d.regs.buffer + length bytes < word_mod + 1
      → length rs ≡ length bytes / 4 + length bytes % 4
      → All (Accepts d.bus.tr_nbytes) rs
      → (requests : List (Option Request)) × (d' : BlockDevice H) × (run host d
            (control ∷ responses rs)
          ≡ returns (requests, d'))
        × Done d d' bytes requests
  unfolding Ends
  read_transfer d bytes rs at woken op ready blocks reads short whole aligned fits answers accepts =
      let (requests, d', ends, done) =
        store_all-Done d (transfer_size d.regs) bytes rs ready blocks short whole aligned fits
          answers accepts in
      (requests, d', start_read d (responses rs) at woken op ∙ rw reads ends, done)
