-- ===== src/Devices/BlockDevice/Control/Tests.antt =====
-- A disk of blocks of 9 bytes over a file of two blocks, and one read of its second block.
use rabbits.Base.{
  length-take, length-append, length-replicate, replicate, ◌%◌, ◌<◌, ◌∙◌, ap, zero, suc, ℕ, ◌+◌,
  ◌≡◌, refl, true, false, List, [], ◌∷◌, ◌++◌, Option, some, Outcome, returns, exits, faults,
  length, take, drop, arith, load, store,
}
use rabbits.Move.{blit, move}
use rabbits.Bytes.{word32, set_word32}
use rabbits.Noc.Packet.{Request}
use rabbits.Noc.Routing.Decode.{All}
use rabbits.Master.{Received, copy_in, send_req, lanes, skip_zeros, count_ones}
use rabbits.Devices.BlockDevice.Op
use rabbits.Devices.BlockDevice.Status
use rabbits.Devices.BlockDevice.{Registers, write_reg, read_status, read_reg, answer, rcv_rqst}
use rabbits.Devices.BlockDevice.Control.{
  load_words, cmd_read, finish_loads, Host, BusMaster, waiting, BlockDevice, new, rcv_rsp,
  finish_stores, cmd_write, store_bytes, store_words, store_all, dispatch, run_control, resume,
  raise_irq, end_op, storing, respond, hear, access, Event, register, response, control, act,
  step_at, run,
}
use rabbits.Devices.BlockDevice.Control.Busy.{InStep, Shown}
use rabbits.Devices.BlockDevice.Control.Invariant.{busy_while_transferring}
use rabbits.Devices.BlockDevice.Control.Stores.{store_requests, patched}
use rabbits.Devices.BlockDevice.Control.Transfer.{Accepts, Ready, responses}
use rabbits.Devices.BlockDevice.Control.Reading.{Done, read_transfer}
use rabbits.Devices.BlockDevice.Control.Loads.{Served, Brings}
use rabbits.Devices.BlockDevice.Control.Disk.{Commanded, Written, write_transfer, disk_roundtrip}
use rabbits.Devices.BlockDevice.Control.Errors.{Fails, failed_word_goes_on}

-- Files that are lists of bytes.
abbrev files : Host (List ℕ)
files = record {
  read_at = λ f p n. some (take n (drop p f));
  write_at = λ f p bytes. take p (f ++ replicate p 0) ++ (bytes ++ drop (p + length bytes) f);
  file_size = λ f. length f;
  open_file = λ f name. ([], true);
}

abbrev disk : List ℕ
disk = 1 ∷ 2 ∷ 3 ∷ 4 ∷ 5 ∷ 6 ∷ 7 ∷ 8 ∷ 9 ∷ 10 ∷ 11 ∷ 12 ∷ 13 ∷ 14 ∷ 15 ∷ 16 ∷ 17 ∷ 18 ∷ []

abbrev zeros : List ℕ
zeros = 0 ∷ 0 ∷ 0 ∷ 0 ∷ 0 ∷ 0 ∷ 0 ∷ 0 ∷ []

abbrev word : ℕ → List ℕ
word v = v ∷ 0 ∷ 0 ∷ 0 ∷ 0 ∷ 0 ∷ 0 ∷ 0 ∷ []

abbrev good : Received
good = record { tid = 0; bytes = zeros; start = 0; error = false; write = false }

abbrev good_from : ℕ → Received
good_from lane = record good { start = lane }

abbrev bad : Received
bad = record good { error = true }

good-Accepts : Accepts 4 good
good-Accepts = record { error = refl; write = refl; room = omega arith }

upper-Accepts : Accepts 4 (good_from 4)
upper-Accepts = record { error = refl; write = refl; room = omega arith }

-- A response in any lane, where no bytes are copied.
none-Accepts : (lane : ℕ) → lane < 8 → Accepts 0 (good_from lane)
none-Accepts lane low = record { error = refl; write = refl; room = omega arith }

bad-Fails : Fails 0 bad
bad-Fails = record { error = refl; write = refl; room = omega arith }

abbrev regs : Registers
regs = record {
  status = Status.idle;
  buffer = 0x100;
  op = Op.read;
  lba = 1;
  count = 1;
  size = 2;
  block_size = 9;
  irqen = 1;
  irq = 0;
  op_start = true;
  irq_update = false;
}

abbrev bus : BusMaster
bus = record { node_id = 3; crt_tid = 0; status = 0; tr_rdata = 0 ∷ 0 ∷ 0 ∷ 0 ∷ []; tr_nbytes = 4 }

abbrev told : BlockDevice (List ℕ)
told = record { regs = regs; at = waiting; func_ret = false; host = disk; bus = bus; irq = false }

abbrev fresh : BlockDevice (List ℕ)
fresh = record told {
  regs = record regs { buffer = 0; op = Op.noop; lba = 0; count = 0; irqen = 0; op_start = false };
}

bus-Ready : Ready bus
bus-Ready = record { node = omega arith; width = refl; nbytes = omega arith }

-- The program asks for the second block, tries another operation meanwhile, and reads the status.
abbrev script : List Event
script =
    register 0 0x0F (word 0) true
    ∷ register 0 0xF0 (0 ∷ 0 ∷ 0 ∷ 0 ∷ 1 ∷ 0 ∷ 0 ∷ 0 ∷ []) true
    ∷ register 8 0x0F (word 1) true
    ∷ register 8 0xF0 (0 ∷ 0 ∷ 0 ∷ 0 ∷ 1 ∷ 0 ∷ 0 ∷ 0 ∷ []) true
    ∷ control
    ∷ register 8 0xF0 (0 ∷ 0 ∷ 0 ∷ 0 ∷ 2 ∷ 0 ∷ 0 ∷ 0 ∷ []) true
    ∷ response good
    ∷ register 16 0x0F zeros false
    ∷ []

abbrev Ended : Type 0
Ended = List (Option Request) × BlockDevice (List ℕ)

abbrev ended : Outcome Ended → Ended
ended (returns r) = r
ended exits = ([], fresh)
ended faults = ([], fresh)

abbrev finish : Ended
finish = ended (run files fresh script)

made : new files disk 3 9 false 0 4 ≡ returns fresh
unfolding new
made = refl

script-runs : run files fresh script ≡ returns finish
unfolding run step_at act access respond run_control rcv_rqst write_reg read_reg read_status answer
    hear dispatch store_all store_words store_bytes cmd_write resume rcv_rsp finish_stores send_req
    copy_in load store word32 set_word32 move blit
script-runs = refl

busy_while_transferring_example :
    InStep finish.1.at finish.1.regs × Shown finish.1.regs finish.1.irq
busy_while_transferring_example =
    busy_while_transferring files disk 3 9 false 0 4 script made script-runs

abbrev block : List ℕ
block = 10 ∷ 11 ∷ 12 ∷ 13 ∷ 14 ∷ 15 ∷ 16 ∷ 17 ∷ 18 ∷ []

-- The responses to two words and a byte, from an address that is a multiple of 8.
abbrev nine_stored : List Received
nine_stored = good ∷ good_from 4 ∷ good ∷ []

nine_stored-Accepts : All (Accepts 4) nine_stored
nine_stored-Accepts = (good-Accepts, (upper-Accepts, (good-Accepts, tt)))

read_transfer_example :
    (requests : List (Option Request)) × (d' : BlockDevice (List ℕ)) × (run files told
        (control ∷ responses nine_stored)
      ≡ returns (requests, d'))
    × Done files told d' block requests
read_transfer_example =
    read_transfer files told block nine_stored refl refl refl bus-Ready (omega arith) refl
      (omega arith) (omega arith) (omega arith) (omega arith) (omega arith) nine_stored-Accepts

-- The same disk in the read of its second block, with nothing stored yet, and a bus master that has not
-- loaded anything; the responses are to the nine single bytes.
abbrev fetched : List ℕ
fetched = block ++ (0 ∷ 0 ∷ 0 ∷ 0 ∷ [])

abbrev storing_first : BlockDevice (List ℕ)
storing_first = record told {
  regs = record regs { status = Status.busy; op_start = false };
  at = storing true 0x100 fetched 9 0;
  bus = record bus { tr_nbytes = 0 };
}

storing_first-reached :
    (ended (run files (record told { bus = record bus { tr_nbytes = 0 } }) (control ∷ []))).1
    ≡ storing_first
unfolding run step_at act run_control dispatch store_all store_words store_bytes cmd_write send_req
    copy_in load store
storing_first-reached = refl

storing_first-Ready : Ready storing_first.bus
storing_first-Ready = record { node = omega arith; width = refl; nbytes = omega arith }

abbrev nine_bytes : List Received
nine_bytes =
    good_from 0
    ∷ good_from 1
    ∷ good_from 2
    ∷ good_from 3
    ∷ good_from 4
    ∷ good_from 5
    ∷ good_from 6
    ∷ good_from 7
    ∷ good_from 0
    ∷ []

nine_bytes-Accepts : All (Accepts 0) nine_bytes
nine_bytes-Accepts = (
  none-Accepts 0 (omega arith),
  (
    none-Accepts 1 (omega arith),
    (
      none-Accepts 2 (omega arith),
      (
        none-Accepts 3 (omega arith),
        (
          none-Accepts 4 (omega arith),
          (
            none-Accepts 5 (omega arith),
            (
              none-Accepts 6 (omega arith),
              (none-Accepts 7 (omega arith), (none-Accepts 0 (omega arith), tt)),
            ),
          ),
        ),
      ),
    ),
  ),
)

failed_word_goes_on_example :
    (requests : List (Option Request)) × (d' : BlockDevice (List ℕ)) × (run files storing_first
        (response bad ∷ responses nine_bytes)
      ≡ returns (requests, d'))
    × (d'.at ≡ waiting)
    × (d'.regs ≡ end_op (raise_irq storing_first.regs) Status.read_success)
    × ((mem m : ℕ → ℕ)
        → ((a : ℕ) → m a ≡ patched mem 0x100 fetched 0 a)
        → (a : ℕ) → store_requests m requests a ≡ patched mem 0x100 fetched 9 a)
failed_word_goes_on_example =
    failed_word_goes_on files 0x100 fetched 9 storing_first 0 bad nine_bytes (omega arith)
      (omega arith) (omega arith) refl refl (omega arith) storing_first-Ready bad-Fails refl
      nine_bytes-Accepts

drop-append : (n : ℕ) (xs ys : List ℕ) → length xs ≡ n → drop n (xs ++ ys) ≡ ys
drop-append zero [] ys e = refl
drop-append zero (x ∷ xs) ys e = absurd (omega arith)
drop-append (suc n) [] ys e = absurd (omega arith)
drop-append (suc n) (x ∷ xs) ys e = drop-append n xs ys (omega arith)

take-append : (xs ys : List ℕ) → take (length xs) (xs ++ ys) ≡ xs
take-append [] ys = refl
take-append (x ∷ xs) ys = ap (λ zs. x ∷ zs) (take-append xs ys)

files_keep :
    (f : List ℕ) (p : ℕ) (bytes : List ℕ)
    → files.read_at (files.write_at f p bytes) p (length bytes) ≡ some bytes
files_keep f p bytes =
    let padded : List ℕ = f ++ replicate p 0 in
    let len = length-append f (replicate p 0) in
    let zeros_len = length-replicate {A = ℕ} p 0 in
    let front : length (take p padded) ≡ p = length-take p padded (omega (arith, len, zeros_len)) in
    let rest : List ℕ = drop (p + length bytes) f in
    ap (λ xs. some (take (length bytes) xs)) (drop-append p (take p padded) (bytes ++ rest) front)
    ∙ ap some (take-append bytes rest)

-- A write of one block from 0x200, and the read of it to 0x100.
abbrev writing : BlockDevice (List ℕ)
writing = record told { regs = record regs { op = Op.write; buffer = 0x200 } }

writing-Commanded : Commanded writing Op.write
writing-Commanded = record {
  waits = refl;
  woken = refl;
  op = refl;
  blocks = omega arith;
  some_bytes = omega arith;
  whole = omega arith;
  aligned = omega arith;
  fits = omega arith;
}

-- The memory has `a` at each address `a`, less its upper bits.
abbrev mem : ℕ → ℕ
mem a = a % 256

abbrev first : Received
first = record good { bytes = 0 ∷ 1 ∷ 2 ∷ 3 ∷ 4 ∷ 5 ∷ 6 ∷ 7 ∷ [] }

abbrev second : Received
second = record first { start = 4 }

abbrev third : Received
third = record good { bytes = 8 ∷ 9 ∷ 10 ∷ 11 ∷ 12 ∷ 13 ∷ 14 ∷ 15 ∷ [] }

first-Accepts : Accepts 4 first
first-Accepts = record { error = refl; write = refl; room = omega arith }

second-Accepts : Accepts 4 second
second-Accepts = record { error = refl; write = refl; room = omega arith }

third-Accepts : Accepts 4 third
third-Accepts = record { error = refl; write = refl; room = omega arith }

abbrev brought : List Received
brought = first ∷ second ∷ third ∷ []

write_transfer_example :
    (requests : List (Option Request)) × (d' : BlockDevice (List ℕ)) × (run files writing
        (control ∷ responses brought)
      ≡ returns (requests, d'))
    × Written files writing d' brought requests
write_transfer_example =
    write_transfer files writing brought writing-Commanded (omega arith) refl
      (first-Accepts, (second-Accepts, (third-Accepts, tt)))

abbrev written : Ended
written = ended (run files writing (control ∷ responses brought))

write_runs : run files writing (control ∷ responses brought) ≡ returns written
unfolding run step_at act respond run_control dispatch load_words cmd_read finish_loads resume
    rcv_rsp send_req copy_in load store move blit
write_runs = refl

abbrev reading : BlockDevice (List ℕ)
reading = record told { host = written.1.host }

reading-Commanded : Commanded reading Op.read
reading-Commanded = record {
  waits = refl;
  woken = refl;
  op = refl;
  blocks = omega arith;
  some_bytes = omega arith;
  whole = omega arith;
  aligned = omega arith;
  fits = omega arith;
}

first-Brings : Brings mem 0x200 (0, 4) first
first-Brings zero low = refl
first-Brings (suc zero) low = refl
first-Brings (suc (suc zero)) low = refl
first-Brings (suc (suc (suc zero))) low = refl
first-Brings (suc (suc (suc (suc k)))) low = absurd (omega arith)

second-Brings : Brings mem 0x200 (4, 4) second
second-Brings zero low = refl
second-Brings (suc zero) low = refl
second-Brings (suc (suc zero)) low = refl
second-Brings (suc (suc (suc zero))) low = refl
second-Brings (suc (suc (suc (suc k)))) low = absurd (omega arith)

third-Brings : Brings mem 0x208 (0, 4) third
third-Brings zero low = refl
third-Brings (suc zero) low = refl
third-Brings (suc (suc zero)) low = refl
third-Brings (suc (suc (suc zero))) low = refl
third-Brings (suc (suc (suc (suc k)))) low = absurd (omega arith)

brought-Served : Served mem written.0 brought
unfolding run step_at act respond run_control dispatch load_words cmd_read finish_loads resume
    rcv_rsp send_req copy_in load store move blit lanes skip_zeros count_ones
brought-Served = (first-Brings, (second-Brings, (third-Brings, tt)))

disk_roundtrip_example :
    (requests : List (Option Request)) × (e' : BlockDevice (List ℕ)) × (run files reading
        (control ∷ responses nine_stored)
      ≡ returns (requests, e'))
    × (e'.regs.status ≡ Status.read_success)
    × ((j : ℕ) → j < 9 → store_requests (λ a. 0) requests (0x100 + j) ≡ mem (0x200 + j))
disk_roundtrip_example =
    disk_roundtrip files writing written.1 reading brought nine_stored written.0 mem (λ a. 0)
      files_keep writing-Commanded (omega arith) refl
      (first-Accepts, (second-Accepts, (third-Accepts, tt))) write_runs brought-Served refl
      reading-Commanded bus-Ready refl refl refl nine_stored-Accepts
