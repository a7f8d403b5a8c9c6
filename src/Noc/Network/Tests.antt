-- ===== src/Noc/Network/Tests.antt =====
-- A network of two masters and two slaves, with one request under way in each direction of the map.
use rabbits.Base.{
  ℕ, ◌≡◌, refl, true, false, List, [], ◌∷◌, ◌++◌, Outcome, returns, exits, faults, load, store,
}
use rabbits.Noc.Packet.{Request, Response}
use rabbits.Noc.Fifo
use rabbits.Noc.Fifo.{Fifo}
use rabbits.Noc.Routing
use rabbits.Noc.Routing.{MapEl}
use rabbits.Noc.Network.{
  Network, queue_depth, internal_init, Event, master_put, master_get, slave_put, slave_get,
  fetch_request, pass_request, fetch_response, pass_response, Note, blocked, moved, request,
  response, put_request, get_response, put_response, get_request, fetch_request_with,
  fetch_request_at, add_request, pass_request_with, pass_request_at, fetch_response_with,
  fetch_response_at, add_response, pass_response_with, pass_response_at, step, run,
}
use rabbits.Noc.Network.Simulate.{Agree}
use rabbits.Noc.Network.Buffers.{bounded, Same, network_run}
use rabbits.Noc.Network.Order.{Net, in_flight}
use rabbits.Noc.Network.Transport.{takens, sents, in_order_delivery}

abbrev low : MapEl
low = record { slave_id = 0; begin_address = 0; end_address = 0x1000; intern_offset = 0 }

abbrev high : MapEl
high = record { slave_id = 1; begin_address = 0x1000; end_address = 0x3000; intern_offset = 0x100 }

abbrev maps : ℕ → List MapEl
maps i = low ∷ high ∷ []

abbrev ask : ℕ → ℕ → Request
ask srcid address = record {
  address = address;
  be = 0x0F;
  cmd = 1;
  wdata = 0 ∷ 0 ∷ 0 ∷ 0 ∷ 0 ∷ 0 ∷ 0 ∷ 0 ∷ [];
  eop = true;
  plen = 1;
  srcid = srcid;
  trdid = 9;
  initial_address = 0;
  slave_id = 0;
}

-- `ask srcid address` as the slave `slave_id` is to see it.
abbrev asked : ℕ → ℕ → ℕ → ℕ → Request
asked srcid address slave_id internal = record (ask srcid address) {
  initial_address = address;
  slave_id = slave_id;
  address = internal;
}

abbrev answer : ℕ → Response
answer rsrcid = record {
  rdata = 1 ∷ 2 ∷ 3 ∷ 4 ∷ 0 ∷ 0 ∷ 0 ∷ 0 ∷ [];
  reop = true;
  rerror = false;
  rsrcid = rsrcid;
  rtrdid = 9;
  rbe = 0x0F;
}

-- Master 1 asks slave 1 twice, the second time while the first one is still there.
abbrev script : List Event
script =
    slave_get 1
    ∷ master_put 1 (ask 1 0x1010)
    ∷ fetch_request 1
    ∷ master_put 1 (ask 1 0x2000)
    ∷ pass_request 1
    ∷ slave_get 1
    ∷ slave_put 1 (answer 1)
    ∷ fetch_response 1
    ∷ pass_response 1
    ∷ master_get 1
    ∷ fetch_request 1
    ∷ []

abbrev notes : List Note
notes =
    blocked
    ∷ moved
    ∷ moved
    ∷ moved
    ∷ moved
    ∷ request (asked 1 0x1010 1 0x110)
    ∷ moved
    ∷ moved
    ∷ moved
    ∷ response (answer 1)
    ∷ moved
    ∷ []

abbrev start : Network (Fifo Request) (Fifo Response)
start = internal_init maps 2 2 (Fifo.new queue_depth (ask 0 0)) (Fifo.new queue_depth (answer 0))

abbrev left_by :
    Outcome (List Note × Network (Fifo Request) (Fifo Response))
    → Network (Fifo Request) (Fifo Response)
left_by (returns (said, n)) = n
left_by exits = start
left_by faults = start

abbrev finish : Network (Fifo Request) (Fifo Response)
finish = left_by (run Fifo.apply Fifo.apply start script)

script-runs : run Fifo.apply Fifo.apply start script ≡ returns (notes, finish)
unfolding run step put_request get_response put_response get_request fetch_request_with
    fetch_request_at add_request pass_request_with pass_request_at fetch_response_with
    fetch_response_at add_response pass_response_with pass_response_at internal_init Fifo.apply
    Fifo.read Fifo.write Fifo.is_empty Fifo.is_full Fifo.new load store Routing.translate
    Routing.decode Routing.maps Routing.to_internal
script-runs = refl

network_run_example :
    Agree Same
      (run Fifo.apply Fifo.apply start script)
      (run bounded bounded (internal_init maps 2 2 [] []) script)
network_run_example = network_run maps 2 2 (ask 0 0) (answer 0) script

in_order_delivery_example :
    (m : Net) × Same finish m
    × ((i j : ℕ) → takens i j script notes ++ in_flight m i j ≡ sents i j (maps i) script notes)
in_order_delivery_example =
    in_order_delivery maps 2 2 (ask 0 0) (answer 0) script notes finish
      (tt, (refl, (tt, (refl, (tt, (tt, (tt, (tt, (tt, (tt, (tt, tt))))))))))) script-runs
