-- ===== src/Devices/BlockDevice/Control/Disk.antt =====
-- Whole writes of the disk, and what a read brings back of them.
use rabbits.Base.{
  ℕ, ◌+◌, ◌-◌, ◌*◌, ◌/◌, ◌%◌, ◌<◌, ◌≡◌, ◌≢◌, refl, sym, ◌∙◌, Bool, true, false, List, [], ◌∷◌,
  Option, some, Outcome, returns, exits, faults, length, get_or, arith, ap, take, length-replicate,
  length-take, get_or-take,
}
use rabbits.Noc.Packet.{Request, word_mod}
use rabbits.Noc.Routing.Decode.{All}
use rabbits.Master.{Received}
use rabbits.Devices.BlockDevice.Op
use rabbits.Devices.BlockDevice.Status
use rabbits.Devices.BlockDevice.{Registers}
use rabbits.Devices.BlockDevice.Control.{
  Host, waiting, BlockDevice, data_buff, transfer_size, position, raise_irq, load_words, dispatch,
  run_control, Event, control, act, step_at, run,
}
use rabbits.Devices.BlockDevice.Control.Stores.{store_requests, patched}
use rabbits.Devices.BlockDevice.Control.Transfer.{Accepts, Ready, responses}
use rabbits.Devices.BlockDevice.Control.Reading.{read_transfer}
use rabbits.Devices.BlockDevice.Control.Loads.{Served}
use rabbits.Devices.BlockDevice.Control.Writing.{after, words_lem}

-- A device that waits and has been given an operation of at least one byte, whose blocks have a size,
-- for a buffer that is aligned to words and lies inside of 32 bits, as does the size and 4.
pub record Commanded {H : Type 0} (d : BlockDevice H) (command : ℕ) : Type 0 where
  pub waits : d.at ≡ waiting
  pub woken : d.regs.op_start ≡ true
  pub op : d.regs.op ≡ command
  pub blocks : d.regs.block_size ≢ 0
  pub some_bytes : 0 < transfer_size d.regs
  pub whole : transfer_size d.regs + 4 < word_mod
  pub aligned : d.regs.buffer % 4 ≡ 0
  pub fits : d.regs.buffer + transfer_size d.regs < word_mod + 1

abbrev busy : {H : Type 0} → BlockDevice H → BlockDevice H
busy d = record d { regs = record d.regs { op_start = false; status = Status.busy } }

-- The rounds of the loop of a write.
abbrev pub rounds : Registers → ℕ
rounds r = (transfer_size r + 3) / 4

module _ {H : Type 0} (host : Host H) where
  load_words_start :
      (d : BlockDevice H) (addr : ℕ) (buf : List ℕ) (size : ℕ) (ok : Bool)
      → 0 < size
      → load_words host d false addr buf size 0 ok ≡ load_words host d false addr buf size 0 true
  unfolding load_words
  load_words_start d addr buf size ok more = ground arith

  start_write :
      (d : BlockDevice H) (es : List Event)
      → d.at ≡ waiting
      → d.regs.op_start ≡ true
      → d.regs.op ≡ Op.write
      → run host d (control ∷ es)
        ≡ after host
            (load_words host
              (busy d)
              false
              d.regs.buffer
              (data_buff (transfer_size d.regs))
              (transfer_size d.regs)
              0
              d.func_ret)
            es
  unfolding run step_at act run_control dispatch
  start_write d es at woken op = rw (at, woken, op) refl

  -- What a write has done once its thread waits again.
  pub record Written (d d' : BlockDevice H) (rs : List Received) (requests : List (Option Request))
      : Type 0 where
    pub bytes : List ℕ
    pub waits : d'.at ≡ waiting
    pub status : d'.regs.status ≡ Status.write_success
    pub op : d'.regs.op ≡ Op.noop
    pub disk : d'.host ≡ host.write_at d.host (position d.regs) bytes
    pub size : d'.regs.size ≡ host.file_size d'.host / d.regs.block_size
    pub width : length bytes ≡ transfer_size d.regs
    pub memory :
        (mem : ℕ → ℕ)
        → Served mem requests rs
        → (j : ℕ) → j < transfer_size d.regs
        → get_or bytes j 0 ≡ mem (d.regs.buffer + j)

  raise_irq-size : (r : Registers) → (raise_irq r).size ≡ r.size
  raise_irq-size r = ground arith

  -- A device waits and has been given a write of at least one byte, with a block size other than
  -- 0, from a buffer whose address is a multiple of 4 and that ends inside of the 32 bits of an
  -- address; the size of the transfer and 4 are below 2 ^ 32, and the number of the bus master has
  -- 16 bits. With a response to each of its requests, one for each word of the transfer, that is
  -- marked as one to a read, reports no error and has 4 bytes from its first lane on, the thread
  -- comes back to its wait with success and no operation, the host has been given, at the block
  -- that the program named, as many bytes as the transfer has, and where the responses are those
  -- of a memory, these are the memory's bytes from the buffer's address on; the number of blocks
  -- is then the one of the host's file.
  pub write_transfer :
      (d : BlockDevice H) (rs : List Received)
      → Commanded d Op.write
      → d.bus.node_id < 65536
      → length rs ≡ rounds d.regs
      → All (Accepts 4) rs
      → (requests : List (Option Request)) × (d' : BlockDevice H) × (run host d
            (control ∷ responses rs)
          ≡ returns (requests, d'))
        × Written d d' rs requests
  write_transfer d rs told node answers accepts =
      let size : ℕ = transfer_size d.regs in
      let bytes = told.some_bytes in
      let whole = told.whole in
      let len = length-replicate {A = ℕ} ((size + 4) % word_mod) 0 in
      let s =
        words_lem host d.regs.buffer size (4 * rounds d.regs) (omega arith) (omega arith)
          (omega arith) told.fits told.aligned (rounds d.regs) (busy d) (data_buff size) 0 rs
          (omega arith) (omega arith) answers accepts (omega (arith, len)) node told.blocks in
      let width = s.width in
      let sized : Registers = record (busy d).regs {
        size = host.file_size s.last.host / d.regs.block_size;
      } in
      (
        s.requests,
        s.last,
        start_write d (responses rs) told.waits told.woken told.op
            ∙ ap (λ t. after host t (responses rs))
                (load_words_start (busy d) d.regs.buffer (data_buff size) size d.func_ret bytes)
            ∙ s.ends,
        record {
          bytes = take size s.bytes;
          waits = s.waits;
          status = ap (λ (r : Registers). r.status) s.regs;
          op = ap (λ (r : Registers). r.op) s.regs;
          disk = s.disk;
          size = ap (λ (r : Registers). r.size) s.regs ∙ raise_irq-size sized;
          width = length-take size s.bytes (omega (arith, len, width));
          memory = λ mem served j low.
              get_or-take size s.bytes j 0 low ∙ s.behind mem served j (omega arith) low;
        },
      )

  abbrev requests_of : Outcome (List (Option Request) × BlockDevice H) → List (Option Request)
  requests_of (returns r) = r.0
  requests_of exits = []
  requests_of faults = []

  abbrev host_of : H → Outcome (List (Option Request) × BlockDevice H) → H
  host_of h (returns r) = r.1.host
  host_of h exits = h
  host_of h faults = h

  inside_patch :
      (m : ℕ → ℕ) (addr : ℕ) (bytes : List ℕ) (j : ℕ)
      → j < length bytes
      → patched m addr bytes (length bytes) (addr + j) ≡ get_or bytes j 0
  inside_patch m addr bytes j low =
      let at : addr + j - addr ≡ j = omega arith in ground (arith, ap (λ i. get_or bytes i 0) at)

  -- What a write has put into the file, a later read of as many bytes at the same place of the
  -- file, which is as the write left it, brings back. Both are commands to a device that waits, of
  -- at least one byte, with a block size other than 0 and a buffer whose address is a multiple of
  -- 4 and that ends inside of the 32 bits of an address; the size and 4 are below 2 ^ 32, the
  -- numbers of the bus masters have 16 bits, and the bus master of the read copies at most 4 bytes
  -- of a response (the constructor leaves this number unset; a write sets it to 4). Every response
  -- of both is marked as one to a read, as `response_thread` marks all, reports no error and has,
  -- from its first lane on, the bytes that the master copies: with 4 copied bytes, no single byte
  -- behind the last word may lie in one of the lanes 5 to 7. Where the host reads what it has
  -- written, and the responses of the write were those of a memory, the read ends with success and
  -- has stored, behind its own buffer's address, the bytes that the memory had behind the buffer's
  -- address of the write.
  pub disk_roundtrip :
      (d d' e : BlockDevice H) (rs rs' : List Received) (requests : List (Option Request))
      (mem m : ℕ → ℕ)
      → ((h : H) (p : ℕ) (bytes : List ℕ)
          → host.read_at (host.write_at h p bytes) p (length bytes) ≡ some bytes)
      → Commanded d Op.write
      → d.bus.node_id < 65536
      → length rs ≡ rounds d.regs
      → All (Accepts 4) rs
      → run host d (control ∷ responses rs) ≡ returns (requests, d')
      → Served mem requests rs
      → e.host ≡ d'.host
      → Commanded e Op.read
      → Ready e.bus
      → position e.regs ≡ position d.regs
      → transfer_size e.regs ≡ transfer_size d.regs
      → length rs' ≡ transfer_size d.regs / 4 + transfer_size d.regs % 4
      → All (Accepts e.bus.tr_nbytes) rs'
      → (requests' : List (Option Request)) × (e' : BlockDevice H) × (run host e
            (control ∷ responses rs')
          ≡ returns (requests', e'))
        × (e'.regs.status ≡ Status.read_success)
        × ((j : ℕ)
            → j < transfer_size d.regs
            → store_requests m requests' (e.regs.buffer + j) ≡ mem (d.regs.buffer + j))
  disk_roundtrip d d' e rs rs' requests mem m law told node answers accepts ran served same told'
        ready place long answers' accepts' =
      let (sent, last, ends, w) = write_transfer d rs told node answers accepts in
      let requests_same : sent ≡ requests = ap requests_of (sym ends ∙ ran) in
      let host_same : last.host ≡ d'.host = ap (host_of d.host) (sym ends ∙ ran) in
      let disk : e.host ≡ host.write_at d.host (position d.regs) w.bytes =
        same ∙ sym host_same ∙ w.disk in
      let width = w.width in
      let fits = told'.fits in
      let reads : host.read_at e.host (position e.regs) (transfer_size e.regs) ≡ some w.bytes =
        rw (disk, place, long, sym width) (law d.host (position d.regs) w.bytes) in
      let (requests', e', ends', done) =
        read_transfer host e w.bytes rs' told'.waits told'.woken told'.op ready told'.blocks reads
          (omega arith) told'.whole told'.aligned (omega arith) (rw width answers') accepts' in
      (
        requests',
        e',
        ends',
        done.status,
        λ j low.
            done.memory m (e.regs.buffer + j)
            ∙ inside_patch m e.regs.buffer w.bytes j (omega arith)
            ∙ w.memory mem (rw requests_same served) j low,
      )
