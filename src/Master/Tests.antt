-- ===== src/Master/Tests.antt =====
-- A master's accesses at concrete inputs.
use rabbits.Base.{
  ℕ, ◌+◌, ◌<◌, ◌≡◌, refl, inl, inr, true, false, List, [], ◌∷◌, some, returns, arith, length,
  get_or, load, store,
}
use rabbits.Noc.Packet.{Request, Response, cmd_write}
use rabbits.Master.{send_req, copy_in, lanes, receive}
use rabbits.Master.Lanes.{send_req_lem, receive_lem}

abbrev bytes : List ℕ
bytes = 0x34 ∷ 0x12 ∷ 0 ∷ 0 ∷ []

abbrev sent : Request
sent = record {
  address = 0x2008;
  be = 0x30;
  cmd = 2;
  wdata = 0 ∷ 0 ∷ 0 ∷ 0 ∷ 0x34 ∷ 0x12 ∷ 0 ∷ 0 ∷ [];
  eop = true;
  plen = 1;
  srcid = 5;
  trdid = 7;
  initial_address = 0;
  slave_id = 0;
}

abbrev answer : Response
answer = record {
  rdata = 1 ∷ 2 ∷ 3 ∷ 4 ∷ 5 ∷ 6 ∷ 7 ∷ 8 ∷ [];
  reop = true;
  rerror = false;
  rsrcid = 5;
  rtrdid = 7;
  rbe = 0x30;
}

sends : send_req 5 7 0x200C bytes 2 true ≡ returns sent
unfolding send_req copy_in load store
sends = refl

send_req_lem_example :
    (req : Request) × (send_req 5 7 0x200C bytes 2 true ≡ returns req)
    × (req.address ≡ 0x2008)
    × (req.srcid ≡ 5)
    × (req.trdid ≡ 7)
    × (req.cmd ≡ cmd_write)
    × (lanes req.be ≡ (4, 2))
    × (req.be ≡ 0x30)
    × (req.plen ≡ 1)
    × (length req.wdata ≡ 8)
    × (true ≡ true → (k : ℕ) → k < 2 → get_or req.wdata (k + 4) 0 ≡ get_or bytes k 0)
send_req_lem_example =
    send_req_lem 5 7 0x200C 2 bytes true (inr (inl refl)) (omega arith) (omega arith) (omega arith)
      (omega arith)

receive_lem_example :
    receive 5 answer
    ≡ some (record { tid = 7; bytes = answer.rdata; start = 4; error = false; write = false })
receive_lem_example =
    receive_lem 5 7 0x200C 2 bytes true {req = sent} answer (inr (inl refl)) (omega arith)
      (omega arith) (omega arith) (omega arith) sends refl refl refl refl
