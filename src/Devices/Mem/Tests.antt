-- ===== src/Devices/Mem/Tests.antt =====
-- The main memory at concrete inputs.
use rabbits.Base.{
  ℕ, ◌+◌, ◌<◌, ◌≡◌, refl, inl, inr, true, false, List, [], ◌∷◌, some, returns, arith, load, store,
  get_or,
}
use rabbits.Noc.Packet.{Request, Response, cmd_read, cmd_write}
use rabbits.Master.{send_req, copy_in, Received, receive}
use rabbits.Slave.{Slave, Sent, serve}
use rabbits.Slave.Protocol.{Contract}
use rabbits.Devices.Lanes.{switch_be}
use rabbits.Devices.Lanes.Agree.{selected}
use rabbits.Devices.Mem.{Mem, rcv_rqst}
use rabbits.Devices.Mem.Contract.{Mem-Contract}
use rabbits.Devices.Mem.Access.{Inv, Legal}
use rabbits.Devices.Mem.Transfer.{write_then_read}

abbrev packet : List ℕ
packet = 11 ∷ 12 ∷ 13 ∷ 14 ∷ 15 ∷ 16 ∷ 17 ∷ 18 ∷ []

abbrev ram : Mem
ram = record {
  size = 16;
  base = 0x1000;
  mem = 0 ∷ 1 ∷ 2 ∷ 3 ∷ 4 ∷ 5 ∷ 6 ∷ 7 ∷ 8 ∷ 9 ∷ 10 ∷ 11 ∷ 12 ∷ 13 ∷ 14 ∷ 15 ∷ [];
}

-- Three lanes, which are no case of the `switch`.

abbrev half : ℕ
half = 0x30

upper_half : selected 0x30 ≡ some (4, 2)
unfolding selected switch_be
upper_half = refl

Mem-Contract_example : Contract (rcv_rqst 4) (Inv 16) (Legal 16)
Mem-Contract_example = Mem-Contract 4 16

abbrev value : List ℕ
value = 21 ∷ 22 ∷ []

abbrev stored : Request
stored = record {
  address = 0x2008;
  be = 0x30;
  cmd = cmd_write;
  wdata = 0 ∷ 0 ∷ 0 ∷ 0 ∷ 21 ∷ 22 ∷ 0 ∷ 0 ∷ [];
  eop = true;
  plen = 1;
  srcid = 5;
  trdid = 7;
  initial_address = 0;
  slave_id = 0;
}

abbrev fetched : Request
fetched = record {
  address = 0x2008;
  be = 0x30;
  cmd = cmd_read;
  wdata = 0 ∷ 0 ∷ 0 ∷ 0 ∷ 0 ∷ 0 ∷ 0 ∷ 0 ∷ [];
  eop = true;
  plen = 1;
  srcid = 6;
  trdid = 9;
  initial_address = 0;
  slave_id = 0;
}

stores : send_req 5 7 0x200C value 2 true ≡ returns stored
unfolding send_req copy_in load store
stores = refl

fetches : send_req 6 9 0x200C value 2 false ≡ returns fetched
unfolding send_req copy_in load store
fetches = refl

abbrev idle : Slave Mem
idle = record {
  dev = ram;
  req = stored;
  rsp = record { rdata = packet; reop = false; rerror = false; rsrcid = 0; rtrdid = 0; rbe = 0 };
  processing = false;
  write_invalidate = false;
}

write_then_read_example :
    (t : Slave Mem) × (u : Slave Mem) × (m : Sent) × (m' : Sent) × (p : Response) × (got : Received)
    × (serve (rcv_rqst 1) idle (record stored { address = 8 }) ≡ returns (t, m))
    × (serve (rcv_rqst 1) t (record fetched { address = 8 }) ≡ returns (u, m'))
    × (m'.response ≡ some p)
    × (receive 6 p ≡ some got)
    × (got.tid ≡ 9)
    × (got.error ≡ false)
    × ((i : ℕ) → i < 2 → get_or got.bytes (got.start + i) 0 ≡ get_or value i 0)
write_then_read_example =
    write_then_read 16 8 2 5 7 6 9 0x200C value value idle {q = stored} {r = fetched}
      (record { ready = refl; device = (refl, refl); width = refl }) (omega arith) (inr (inl refl))
      (omega arith, omega arith) (omega arith) (omega arith) (omega arith, omega arith) stores
      fetches
