-- ===== src/Noc/Routing.antt =====
-- interconnect_master.{h,cpp}: the address map of a master and the ways it is read.
-- Addresses are `unsigned long` words of 32 bits; a slave's number is not negative in a map file.
pub mod Decode
mod Tests
use rabbits.Base.{
  ℕ, suc, ◌+◌, ◌-◌, ◌%◌, Bool, true, false, ◌&&◌, List, [], ◌∷◌, ◌++◌, Option, none, some, ltb, leb,
  ◌==◌, if◌then◌else◌, Outcome, returns, exits, faults, ◌>>=◌, length,
}
use rabbits.Noc.Packet.{Request, word_mod}

-- `interconnect_master_map_el`.
pub record MapEl : Type 0 where
  pub slave_id : ℕ
  pub begin_address : ℕ
  pub end_address : ℕ
  pub intern_offset : ℕ

-- One call of `fscanf`: how many of the four fields it read, and the element they make.
pub record Scan : Type 0 where
  pub fields : ℕ
  pub element : MapEl

-- The number of elements that the constructor allocates.
abbrev pub map_capacity : ℕ
map_capacity = 50

-- The loop of the constructor over what `fscanf` returns until the end of the file (0 or EOF is
-- the end of the list). `fscanf` stores into `m_map[i]` before anything is tested.
pub read_map : ℕ → List Scan → Outcome (List MapEl)
read_map i [] = returns []
read_map i (s ∷ rest) =
    let more = read_map (i + 1) rest in
    if s.fields == 0
    then returns []
    else if ltb i map_capacity
    then (if ltb s.fields 4 then exits else (do els ← more; returns (s.element ∷ els)))
    else faults

-- The test of `dispatch_requests_thread`.
unfoldable pub maps : MapEl → ℕ → Bool
maps m addr = leb m.begin_address addr && ltb addr m.end_address

-- Its loop: the first element whose range holds the address.
unfoldable pub decode : List MapEl → ℕ → Option MapEl
decode [] addr = none
decode (m ∷ rest) addr = if maps m addr then some m else decode rest addr

-- `addr - begin_address + intern_offset` in unsigned arithmetic.
unfoldable pub to_internal : MapEl → ℕ → ℕ
to_internal m addr = (addr + word_mod - m.begin_address + m.intern_offset) % word_mod

-- The request as it is sent on to its slave; `none` of the loop ends the simulation.
unfoldable pub translate : List MapEl → Request → Outcome Request
translate map req = elim (decode map req.address) [
  | none ↦ exits
  | some m ↦ returns (record req {
    initial_address = req.address;
    slave_id = m.slave_id;
    address = to_internal m req.address;
  })
]

-- `begin_address + offset_slave - intern_offset`.
pub to_linear : MapEl → ℕ → ℕ
to_linear m offset = (m.begin_address + offset + word_mod - m.intern_offset) % word_mod

-- `get_liniar_address`: the return value, and what `addr` holds afterwards.
pub get_liniar_address : List MapEl → ℕ → ℕ → ℕ → Bool × ℕ
get_liniar_address [] slave_id offset addr = (false, addr)
get_liniar_address (m ∷ rest) slave_id offset addr =
    let here = to_linear m offset in
    let on = get_liniar_address rest slave_id offset in
    if m.slave_id == slave_id then (if maps m here then (true, here) else on here) else on addr

-- `get_slave_id_for_mem_addr`: `none` for -1, else the slave and the new value of `addr`.
pub get_slave_id_for_mem_addr : List MapEl → ℕ → Option (ℕ × ℕ)
get_slave_id_for_mem_addr [] addr = none
get_slave_id_for_mem_addr (m ∷ rest) addr =
    if leb m.begin_address addr && leb addr m.end_address
    then some (m.slave_id, to_internal m addr)
    else get_slave_id_for_mem_addr rest addr
