-- ===== src/Devices/Aicu.antt =====
-- aicu_device.{h,cpp}: the interrupt controller. Each output has a status, a mask and a current
-- interrupt, and each interrupt has a handler.
pub mod Update
pub mod Edges
pub mod Access
pub mod Contract
mod Tests
use rabbits.Base.{
  ℕ, zero, suc, ◌+◌, ◌-◌, ◌*◌, ◌/◌, ◌%◌, ◌^◌, Bool, true, false, not, ◌&&◌, List, [], ◌∷◌, ltb, leb,
  ◌==◌, if◌then◌else◌, Outcome, returns, exits, faults, ◌>>=◌, load, store, replicate, bit_and,
  bit_or, bit_xor,
}
use rabbits.Bits.{complement}
use rabbits.Bytes.{word32, set_word32, lane, reg_index}
use rabbits.Slave.{Served, Device}

abbrev pub aicu_local : ℕ
aicu_local = 0x100 / 4

abbrev pub aicu_handler0 : ℕ
aicu_handler0 = 4

abbrev pub aicu_handler31 : ℕ
aicu_handler31 = 35

abbrev pub aicu_span : ℕ
aicu_span = 4

-- `m_stat[i]`, `m_mask[i]`, `m_crt_irq[i]` and `irq_out[i]` of one output.
pub record Output : Type 0 where
  pub stat : ℕ
  pub mask : ℕ
  pub crt_irq : ℕ
  pub line : Bool

-- `aicu_device`; `O` is the number of outputs in the list.
pub record Aicu : Type 0 where
  pub nb_global : ℕ
  pub nb_local : ℕ
  pub control : ℕ
  pub handlers : List ℕ
  pub outputs : List Output

-- The interrupts of each output: `L + G`.
abbrev pub nb_irqs : Aicu → ℕ
nb_irqs s = s.nb_local + s.nb_global

-- `reset_registers` leaves the lines alone.
pub reset_outputs : List Output → List Output
reset_outputs [] = []
reset_outputs (o ∷ rest) =
    record { stat = 0; mask = 0; crt_irq = 0; line = o.line } ∷ reset_outputs rest

pub reset_registers : Aicu → Aicu
unfolding reset_outputs
reset_registers s = record s {
  handlers = replicate (nb_irqs s) 0;
  outputs = reset_outputs s.outputs;
}

pub new : ℕ → ℕ → ℕ → Outcome Aicu
new nb_out nb_global nb_local =
    if ltb 32 (nb_global + nb_local)
    then exits
    else returns (record {
      nb_global = nb_global;
      nb_local = nb_local;
      control = 0;
      handlers = replicate (nb_local + nb_global) 0;
      outputs = replicate nb_out (record { stat = 0; mask = 0; crt_irq = 0; line = false });
    })

-- `write` on the control register: a change of its lowest bit resets the others.
pub write_control : Aicu → ℕ → Aicu
write_control s value =
    let toggled = not (bit_and (bit_xor s.control value) 1 == 0) in
    if toggled then record (reset_registers s) { control = value } else record s { control = value }

-- `write` on a global register.
pub write_global : Aicu → ℕ → ℕ → Outcome Aicu
write_global s idx value =
    if idx == 0
    then returns (write_control s value)
    else if leb aicu_handler0 idx && leb idx aicu_handler31 && ltb (idx - aicu_handler0) (nb_irqs s)
    then (do
      handlers' ← store s.handlers (idx - aicu_handler0) value
      returns (record s { handlers = handlers' }))
    else exits

-- The output that a local register belongs to; out of range the simulation ends.
pub output_at : List Output → ℕ → Outcome Output
output_at [] i = exits
output_at (o ∷ rest) zero = returns o
output_at (o ∷ rest) (suc i) = output_at rest i

-- `write` on register `reg` of an output.
pub write_local : Output → ℕ → ℕ → Outcome Output
write_local o reg value =
    if reg == 0
    then returns (record o { stat = bit_and o.stat (complement 32 value) })
    else if reg == 1
    then returns (record o { mask = value })
    else exits

pub write : Aicu → ℕ → ℕ → List ℕ → Outcome Aicu
write s ofs be bytes =
    let idx = reg_index ofs be in
    let value = word32 bytes (lane be) in
    if ltb idx aicu_local then write_global s idx value else (do
      o ← output_at s.outputs ((idx - aicu_local) / aicu_span)
      o' ← write_local o ((idx - aicu_local) % aicu_span) value
      outputs' ← store s.outputs ((idx - aicu_local) / aicu_span) o'
      returns (record s { outputs = outputs' }))

pub read_global : Aicu → ℕ → Outcome ℕ
read_global s idx =
    if idx == 0
    then returns s.control
    else if leb aicu_handler0 idx && leb idx aicu_handler31 && ltb (idx - aicu_handler0) (nb_irqs s)
    then load s.handlers (idx - aicu_handler0)
    else exits

-- `read` on register `reg` of an output: the value, and the output it leaves.
pub read_local : List ℕ → Output → ℕ → Outcome (ℕ × Output)
read_local handlers o reg =
    if reg == 0
    then returns (o.stat, o)
    else if reg == 1
    then returns (o.mask, o)
    else if reg == 2
    then (do
      v ← load handlers o.crt_irq
      returns (v, record o { stat = bit_and o.stat (complement 32 (2 ^ o.crt_irq)) }))
    else returns (o.crt_irq, o)

pub read : Aicu → ℕ → ℕ → Outcome (ℕ × Aicu)
read s ofs be =
    let idx = reg_index ofs be in
    if ltb idx aicu_local then (do v ← read_global s idx; returns (v, s)) else (do
      o ← output_at s.outputs ((idx - aicu_local) / aicu_span)
      (v, o') ← read_local s.handlers o ((idx - aicu_local) % aicu_span)
      outputs' ← store s.outputs ((idx - aicu_local) / aicu_span) o'
      returns (v, record s { outputs = outputs' }))

pub rcv_rqst : Device Aicu
rcv_rqst s ofs be bytes true = do
  s' ← write s ofs be bytes
  returns (record { state = s'; bytes = bytes; error = false })
rcv_rqst s ofs be bytes false = do
  (v, s') ← read s ofs be
  returns (record { state = s'; bytes = set_word32 bytes (lane be) v; error = false })

-- What an input did since the last delta cycle.
pub data Edge : Type 0 where
  rose fell steady : Edge

-- The input that interrupt `j` of output `i` looks at.
pub input_of : Aicu → ℕ → ℕ → ℕ → ℕ
input_of s nb_out i j =
    if ltb j s.nb_local then nb_out * j + i else nb_out * s.nb_local + (j - s.nb_local)

pub apply_edge : Edge → ℕ → ℕ → ℕ
apply_edge rose j stat = bit_or stat (2 ^ j)
apply_edge fell j stat = bit_and stat (complement 32 (2 ^ j))
apply_edge steady j stat = stat

-- `for (j = 0; j < L + G; j++)` over the edges of the inputs, with `n` rounds left.
pub scan_edges : (ℕ → Edge) → ℕ → ℕ → ℕ → ℕ
scan_edges edge zero j stat = stat
scan_edges edge (suc n) j stat = scan_edges edge n (j + 1) (apply_edge (edge j) j stat)

-- The search for the first pending interrupt.
pub find_irq : ℕ → ℕ → ℕ → ℕ → ℕ
find_irq zero j pending crt = crt
find_irq (suc n) j pending crt =
    let on = find_irq n (j + 1) pending crt in if bit_and pending (2 ^ j) == 0 then on else j

-- The body of the loop over the outputs.
pub update_output : ℕ → (ℕ → Edge) → Output → Output
update_output n edge o =
    let stat' = scan_edges edge n 0 o.stat in
    let pending = bit_and stat' o.mask in
    record {
      stat = stat';
      mask = o.mask;
      crt_irq = find_irq n 0 pending o.crt_irq;
      line = not (pending == 0);
    }

pub update_outputs : Aicu → ℕ → (ℕ → Edge) → ℕ → List Output → List Output
update_outputs s nb_out edge i [] = []
update_outputs s nb_out edge i (o ∷ rest) =
    update_output (nb_irqs s) (λ j. edge (input_of s nb_out i j)) o
    ∷ update_outputs s nb_out edge (i + 1) rest

-- One round of `irq_update_thread`; without the control bit it only waits again.
pub irq_update : Aicu → ℕ → (ℕ → Edge) → Aicu
irq_update s nb_out edge =
    if bit_and s.control 1 == 0
    then s
    else record s { outputs = update_outputs s nb_out edge 0 s.outputs }
