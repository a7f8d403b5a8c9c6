-- ===== src/Devices/BlockDevice/Control/Invariant.antt =====
-- The registers and the interrupt line over any sequence of events.
use rabbits.Base.{
  Returns, Returns->>=, ℕ, ◌+◌, ◌%◌, ◌∙◌, ◌≡◌, ◌≢◌, refl, inl, inr, Bool, true, false, List, [],
  ◌∷◌, Option, ◌==◌, if◌then◌else◌, Outcome, returns, exits, faults, ◌>>=◌, arith, Bool-cases,
  ==_iff,
}
use rabbits.Move.{move}
use rabbits.Noc.Packet.{Request, word_mod}
use rabbits.Master.{Received}
use rabbits.Bytes.{word32, lane, reg_index}
use rabbits.Devices.BlockDevice.Op
use rabbits.Devices.BlockDevice.Status
use rabbits.Devices.BlockDevice.{Registers, write_reg, read_status, read_reg, answer, rcv_rqst}
use rabbits.Devices.BlockDevice.Control.{
  Host, Location, waiting, storing, loading, spinning, BlockDevice, Turn, divide, new, rcv_rsp,
  dispatch, run_control, resume, respond, run_irq, hear, access, Event, register, response, control,
  update, act, step_at, run,
}
use rabbits.Devices.BlockDevice.Control.Busy.{
  InStep, Shown, Good, Keeps, Runs, loads, finish_stores-Good, store_bytes-Good, store_words-Good,
  store_all-Good, finish_loads-Good, load_words-Good,
}

module _ {H : Type 0} (host : Host H) where
  starts :
      (d : BlockDevice H) (command : ℕ)
      → d.regs.op ≡ command
      → d.regs.op_start ≡ false
      → Shown d.regs d.irq
      → Runs host (record d { regs = record d.regs { status = Status.busy } }) command
  starts d command op heard line = record { busy = refl; op = op; heard = heard; line = line }

  dispatch-Good :
      (d : BlockDevice H) (op : ℕ)
      → d.regs.op ≡ op
      → d.regs.op_start ≡ false
      → d.regs.status ≢ Status.busy
      → Shown d.regs d.irq
      → Keeps host (dispatch host d op)
  unfolding dispatch
  dispatch-Good d op at heard ready line = elim (Bool-cases (op == 0)) [
    | inl zero ↦ rw zero ((ready, λ e. omega (arith, at, (==_iff op 0).0 zero)), line)
    | inr not_zero ↦ elim (Bool-cases (op == 1)) [
      | inl one ↦
          rw (not_zero, one)
            (store_all-Good host _ _ _ (starts d 1 (at ∙ (==_iff op 1).0 one) heard line))
      | inr not_one ↦ elim (Bool-cases (op == 2)) [
        | inl two ↦
            rw (not_zero, not_one, two)
              (load_words-Good host _ false _ _ _ _ _
                (starts d 2 (at ∙ (==_iff op 2).0 two) heard line))
        | inr not_two ↦ elim (Bool-cases (op == 3)) [
          | inl three ↦
              rw (not_zero, not_one, not_two, three)
                (load_words-Good host _ true _ _ _ _ _
                  (starts d 3 (at ∙ (==_iff op 3).0 three) heard line))
          | inr not_three ↦ rw (not_zero, not_one, not_two, not_three) ((ready, ground arith), line)
        ]
      ]
    ]
  ]

  run_control-Good :
      (d : BlockDevice H) (place : Location) (start : Bool)
      → d.at ≡ place
      → Good host d
      → Keeps host (run_control host d place start)
  unfolding run_control
  run_control-Good d waiting true at (said, line) =
      let said' : InStep waiting d.regs = rw at at said in
      dispatch-Good (record d { regs = record d.regs { op_start = false } }) d.regs.op refl refl
        said'.0 line
  run_control-Good d waiting false at good = good
  run_control-Good d (storing words addr buf size offset) start at good = good
  run_control-Good d (loading naming addr buf size offset) start at good = good
  run_control-Good d spinning start at good = good

  -- The thread behind a command, where the registers are as it left them.
  resume-Good :
      (d : BlockDevice H) (place : Location) (ok : Bool)
      → d.at ≡ place
      → Good host d
      → Keeps host (resume host d place ok)
  unfolding resume
  resume-Good d (storing words addr buf size offset) ok at (said, line) =
      let (busy, op, heard) : InStep (storing words addr buf size offset) d.regs = rw at at said in
      let runs : Runs host d Op.read = record {
        busy = busy;
        op = op;
        heard = heard;
        line = line;
      } in
      stored words ok runs
    where
      stored :
          (words ok : Bool)
          → Runs host d Op.read
          → Keeps host (resume host d (storing words addr buf size offset) ok)
      stored true true runs =
          store_words-Good host d addr buf size ((offset + 4) % word_mod) true runs
      stored true false runs = store_bytes-Good host d addr buf size offset false runs
      stored false true runs =
          store_bytes-Good host d addr buf size ((offset + 1) % word_mod) true runs
      stored false false runs = finish_stores-Good host d offset false runs
  resume-Good d (loading naming addr buf size offset) true at (said, line) =
      let (busy, op, heard) : InStep (loading naming addr buf size offset) d.regs = rw at at said in
      let runs : Runs host d (loads host naming) = record {
        busy = busy;
        op = op;
        heard = heard;
        line = line;
      } in
      Returns->>= (λ r. Good host r.1) (move 4 d.bus.tr_rdata 0 buf offset) _
        (λ buf'. load_words-Good host d naming addr buf' size ((offset + 4) % word_mod) true runs)
  resume-Good d (loading naming addr buf size offset) false at (said, line) =
      let (busy, op, heard) : InStep (loading naming addr buf size offset) d.regs = rw at at said in
      let runs : Runs host d (loads host naming) = record {
        busy = busy;
        op = op;
        heard = heard;
        line = line;
      } in
      Returns->>= (λ r. Good host r.1) (move 4 d.bus.tr_rdata 0 buf offset) _
        (λ buf'. finish_loads-Good host d naming buf' size false runs)
  resume-Good d waiting ok at good = good
  resume-Good d spinning ok at good = good

  respond-Good : (d : BlockDevice H) (r : Received) → Good host d → Keeps host (respond host d r)
  unfolding respond
  respond-Good d r good =
      Returns->>= (λ r. Good host r.1) (rcv_rsp d.bus r) _
        (λ bus'. resume-Good (record d { bus = bus' }) d.at _ refl good)

  run_irq-Good : (d : BlockDevice H) → Good host d → Keeps host (run_irq host d)
  unfolding run_irq
  run_irq-Good d (said, line) = elim (Bool-cases d.regs.irq_update) [
    | inl e ↦ rw e (updated d.at said, λ e. refl)
    | inr e ↦ simp e (said, λ still. line e)
  ]
    where
      updated : (p : Location) → InStep p d.regs → InStep p (record d.regs { irq_update = false })
      updated waiting h = h
      updated (storing words addr buf size offset) h = h
      updated (loading naming addr buf size offset) h = h
      updated spinning h = h

  read_status-Good :
      (place : Location) (r : Registers) (line : Bool)
      → InStep place r
      → Shown r line
      → InStep place (read_status r) × Shown (read_status r) line
  unfolding read_status
  read_status-Good waiting r line said shown = ground arith
  read_status-Good (storing words addr buf size offset) r line said shown = ground arith
  read_status-Good (loading naming addr buf size offset) r line said shown = ground arith
  read_status-Good spinning r line said shown = ground arith

  write_reg-Good :
      (place : Location) (r : Registers) (line : Bool) (reg value : ℕ)
      → place ≢ spinning
      → InStep place r
      → Shown r line
      → InStep place (hear host place (write_reg r reg value))
        × Shown (hear host place (write_reg r reg value)) line
  unfolding write_reg hear
  write_reg-Good waiting r line reg value lives said shown = ground arith
  write_reg-Good (storing words addr buf size offset) r line reg value lives said shown =
      ground arith
  write_reg-Good (loading naming addr buf size offset) r line reg value lives said shown =
      ground arith
  write_reg-Good spinning r line reg value lives said shown = absurd (lives refl)

  answered :
      (r : Registers) (bytes : List ℕ) (i reg : ℕ)
      → (answer r bytes i (read_reg r reg)).state ≡ (if reg == 4 then read_status r else r)
  unfolding answer read_reg
  answered r bytes i reg = ground arith

  hear-Good :
      (place : Location) (r : Registers) (line : Bool)
      → place ≢ spinning
      → InStep place r
      → Shown r line
      → InStep place (hear host place r) × Shown (hear host place r) line
  unfolding hear
  hear-Good waiting r line lives said shown = (said, shown)
  hear-Good (storing words addr buf size offset) r line lives said shown =
      let (busy, op, heard) = said in ((busy, op, refl), shown)
  hear-Good (loading naming addr buf size offset) r line lives said shown =
      let (busy, op, heard) = said in ((busy, op, refl), shown)
  hear-Good spinning r line lives said shown = absurd (lives refl)

  access-Good :
      (d : BlockDevice H) (ofs be : ℕ) (bytes : List ℕ) (write : Bool)
      → d.at ≢ spinning
      → Good host d
      → Keeps host (access host d ofs be bytes write)
  unfolding access rcv_rqst
  access-Good d ofs be bytes true lives (said, line) =
      write_reg-Good d.at d.regs d.irq (reg_index ofs be) (word32 bytes (lane be)) lives said line
  access-Good d ofs be bytes false lives (said, line) =
      rw (answered d.regs bytes (lane be) (reg_index ofs be))
        (elim (Bool-cases (reg_index ofs be == 4)) [
          | inl e ↦
              let (said', line') = read_status-Good d.at d.regs d.irq said line in
              rw e (hear-Good d.at (read_status d.regs) d.irq lives said' line')
          | inr e ↦ rw e (hear-Good d.at d.regs d.irq lives said line)
        ])

  act-Good :
      (d : BlockDevice H) (e : Event) → d.at ≢ spinning → Good host d → Keeps host (act host d e)
  unfolding act
  act-Good d (register ofs be bytes write) lives good = access-Good d ofs be bytes write lives good
  act-Good d (response r) lives good = respond-Good d r good
  act-Good d control lives good = run_control-Good d d.at d.regs.op_start refl good
  act-Good d update lives good = run_irq-Good d good

  pub step-Good :
      (place : Location) (d : BlockDevice H) (e : Event)
      → d.at ≡ place
      → Good host d
      → Keeps host (step_at host place d e)
  unfolding step_at
  step-Good waiting d e at good = act-Good d e (λ s. ground arith) good
  step-Good (storing words addr buf size offset) d e at good = act-Good d e (λ s. ground arith) good
  step-Good (loading naming addr buf size offset) d e at good =
      act-Good d e (λ s. ground arith) good
  step-Good spinning d e at good = tt

  abbrev Leaves : Outcome (List (Option Request) × BlockDevice H) → Type 0
  Leaves = Returns (λ r. Good host r.1)

  after_later :
      (q : Option Request) (o : Outcome (List (Option Request) × BlockDevice H))
      → Leaves o
      → Leaves (o >>= λ r. returns (q ∷ r.0, r.1))
  after_later q (returns x) h = h
  after_later q exits h = tt
  after_later q faults h = tt

  after_step :
      (es : List Event) (o : Turn H)
      → Keeps host o
      → ((d : BlockDevice H) → Good host d → Leaves (run host d es))
      → Leaves (o >>= λ s. run host s.1 es >>= λ r. returns (s.0 ∷ r.0, r.1))
  after_step es (returns (q, d)) h later = after_later q (run host d es) (later d h)
  after_step es exits h later = tt
  after_step es faults h later = tt

  run-Good : (es : List Event) (d : BlockDevice H) → Good host d → Leaves (run host d es)
  unfolding run
  run-Good [] d good = good
  run-Good (e ∷ es) d good =
      after_step es (step_at host d.at d e) (step-Good d.at d e refl good)
        (λ d' h. run-Good es d' h)

  new-Good :
      (h : H) (node_id block_size : ℕ) (ret : Bool) (word bytes : ℕ)
      → Returns (Good host) (new host h node_id block_size ret word bytes)
  unfolding new
  new-Good h node_id block_size ret word bytes =
      Returns->>= (Good host) (divide (host.file_size h) block_size) _
        (λ size. ((λ e. absurd (omega arith), λ e. refl), λ e. refl))

  -- From its construction, over any accesses, responses and runs of its threads that return: the status
  -- is busy exactly while the control thread is inside of a transfer, and the operation register then
  -- names that transfer, whatever the program writes meanwhile; a thread that waits has no operation
  -- left but one that it has just been woken for; and once the interrupt thread has run, the line is
  -- up exactly when the interrupt register is 1.
  pub busy_while_transferring :
      (h : H) (node_id block_size : ℕ) (ret : Bool) (word bytes : ℕ) (es : List Event)
      {d d' : BlockDevice H} {qs : List (Option Request)}
      → new host h node_id block_size ret word bytes ≡ returns d
      → run host d es ≡ returns (qs, d')
      → InStep d'.at d'.regs × Shown d'.regs d'.irq
  busy_while_transferring h node_id block_size ret word bytes es {d} {d'} {qs} made ran =
      let start : Good host d = rw made at (new-Good h node_id block_size ret word bytes) in
      rw ran at (run-Good es d start)
