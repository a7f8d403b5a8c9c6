-- ===== src/Noc/Network.antt =====
-- interconnect.{h,cpp}, interconnect_master.cpp and interconnect_slave.{h,cpp}: the nodes of the
-- network and their threads. What the nodes need of a queue is one operation on it, so that the same
-- steps run on the ring buffers of the code and on bounded queues.
pub mod Simulate
pub mod Buffers
pub mod Order
pub mod Flow
pub mod Delivery
pub mod Transport
mod Tests
use rabbits.Base.{
  ℕ, Bool, true, false, List, [], ◌∷◌, Option, none, some, ltb, ◌==◌, if◌then◌else◌, Outcome,
  returns, exits, faults, ◌>>=◌,
}
use rabbits.Noc.Packet.{Request, Response}
use rabbits.Noc.Queue.{Attempt, done, waits, Op, put, get, Reply}
use rabbits.Noc.Routing.{MapEl, translate}

-- The entry `i` of an array of nodes is replaced.
abbrev pub update {ℓ} : {A : Type ℓ} → (ℕ → A) → ℕ → A → ℕ → A
update f i a k = if i == k then a else f k

-- `interconnect_master`: its map, its two queues, and the request that its thread has read and not
-- yet passed on.
pub record MasterNode (Rq Rs : Type 0) : Type 0 where
  pub map : List MapEl
  pub requests : Rq
  pub responses : Rs
  pub held : Option Request

-- `interconnect_slave`, with the response that its thread holds.
pub record SlaveNode (Rq Rs : Type 0) : Type 0 where
  pub requests : Rq
  pub responses : Rs
  pub held : Option Response

-- `interconnect`: the two arrays and their lengths.
pub record Network (Rq Rs : Type 0) : Type 0 where
  pub nb_masters : ℕ
  pub masters : ℕ → MasterNode Rq Rs
  pub nb_slaves : ℕ
  pub slaves : ℕ → SlaveNode Rq Rs

-- The depth that each node gives to its queues.
abbrev pub queue_depth : ℕ
queue_depth = 8

-- `internal_init`, with the maps that the masters' nodes read and two fresh queues.
unfoldable pub internal_init : {Rq Rs : Type 0} → (ℕ → List MapEl) → ℕ → ℕ → Rq → Rs → Network Rq Rs
internal_init maps nb_masters nb_slaves rq rs = record {
  nb_masters = nb_masters;
  masters = λ i. record { map = maps i; requests = rq; responses = rs; held = none };
  nb_slaves = nb_slaves;
  slaves = λ j. record { requests = rq; responses = rs; held = none };
}

-- What happens: a device calls `put` or `get` on its node, or the thread of a node goes on.
pub data Event : Type 0 where
  master_put : ℕ → Request → Event
  master_get : ℕ → Event
  slave_put : ℕ → Response → Event
  slave_get : ℕ → Event
  fetch_request : ℕ → Event
  pass_request : ℕ → Event
  fetch_response : ℕ → Event
  pass_response : ℕ → Event

-- What comes of it: it has to wait, it goes on, or it hands a packet to a device.
pub data Note : Type 0 where
  blocked : Note
  moved : Note
  request : Request → Note
  response : Response → Note

-- What a device sees of a call on a queue.
abbrev pub note_request : Reply Request → Note
note_request waits = blocked
note_request (done none) = moved
note_request (done (some q)) = request q

abbrev pub note_response : Reply Response → Note
note_response waits = blocked
note_response (done none) = moved
note_response (done (some p)) = response p

-- What a thread that reads a queue holds afterwards.
abbrev pub fetched {ℓ} : {A : Type ℓ} → Reply A → Option A
fetched waits = none
fetched (done o) = o

-- Whether a call has returned.
abbrev pub has_returned {ℓ} : {A : Type ℓ} → Reply A → Bool
has_returned waits = false
has_returned (done o) = true

abbrev pub note : Bool → Note
note true = moved
note false = blocked

module _ {Rq Rs : Type 0} (on_requests : Rq → Op Request → Outcome (Reply Request × Rq))
    (on_responses : Rs → Op Response → Outcome (Reply Response × Rs)) where
  abbrev Net : Type 0
  Net = Network Rq Rs

  -- `interconnect_master::put` and `get`.
  pub put_request : Net → ℕ → Request → Outcome (Note × Net)
  put_request n i q = do
    (r, queue) ← on_requests (n.masters i).requests (put q)
    returns (
      note_request r,
      record n { masters = update n.masters i (record (n.masters i) { requests = queue }) },
    )

  pub get_response : Net → ℕ → Outcome (Note × Net)
  get_response n i = do
    (r, queue) ← on_responses (n.masters i).responses get
    returns (
      note_response r,
      record n { masters = update n.masters i (record (n.masters i) { responses = queue }) },
    )

  -- `interconnect_slave::put` and `get`.
  pub put_response : Net → ℕ → Response → Outcome (Note × Net)
  put_response n j p = do
    (r, queue) ← on_responses (n.slaves j).responses (put p)
    returns (
      note_response r,
      record n { slaves = update n.slaves j (record (n.slaves j) { responses = queue }) },
    )

  pub get_request : Net → ℕ → Outcome (Note × Net)
  get_request n j = do
    (r, queue) ← on_requests (n.slaves j).requests get
    returns (
      note_request r,
      record n { slaves = update n.slaves j (record (n.slaves j) { requests = queue }) },
    )

  -- `dispatch_requests_thread` up to its `wait`: it reads a request when it holds none.
  pub fetch_request_with : Net → ℕ → Option Request → Outcome (Note × Net)
  fetch_request_with n i (some q) = returns (blocked, n)
  fetch_request_with n i none = do
    (r, queue) ← on_requests (n.masters i).requests get
    returns (
      note (has_returned r),
      record n {
        masters = update n.masters i (record (n.masters i) { requests = queue; held = fetched r });
      },
    )

  pub fetch_request_at : Net → ℕ → Outcome (Note × Net)
  fetch_request_at n i = fetch_request_with n i (n.masters i).held

  -- `add_request` on the slave node `j`. `get_slave` indexes its array and tests nothing.
  pub add_request : Net → ℕ → Request → Outcome (Reply Request × Net)
  add_request n j q =
      if ltb j n.nb_slaves
      then (do
        (r, queue) ← on_requests (n.slaves j).requests (put q)
        returns
            (r, record n { slaves = update n.slaves j (record (n.slaves j) { requests = queue }) }))
      else faults

  -- The thread after its `wait`: it translates the request and adds it to its slave's queue; where
  -- that queue is full it still holds it.
  pub pass_request_with : Net → ℕ → Option Request → Outcome (Note × Net)
  pass_request_with n i none = returns (blocked, n)
  pass_request_with n i (some q) = do
    out ← translate (n.masters i).map q
    (r, n') ← add_request n out.slave_id out
    returns (
      note (has_returned r),
      record n' {
        masters =
            update n'.masters i
              (record (n'.masters i) { held = if has_returned r then none else some q });
      },
    )

  pub pass_request_at : Net → ℕ → Outcome (Note × Net)
  pass_request_at n i = pass_request_with n i (n.masters i).held

  -- `dispatch_responses_thread`, likewise.
  pub fetch_response_with : Net → ℕ → Option Response → Outcome (Note × Net)
  fetch_response_with n j (some p) = returns (blocked, n)
  fetch_response_with n j none = do
    (r, queue) ← on_responses (n.slaves j).responses get
    returns (
      note (has_returned r),
      record n {
        slaves = update n.slaves j (record (n.slaves j) { responses = queue; held = fetched r });
      },
    )

  pub fetch_response_at : Net → ℕ → Outcome (Note × Net)
  fetch_response_at n j = fetch_response_with n j (n.slaves j).held

  pub add_response : Net → ℕ → Response → Outcome (Reply Response × Net)
  add_response n i p =
      if ltb i n.nb_masters
      then (do
        (r, queue) ← on_responses (n.masters i).responses (put p)
        returns (
          r,
          record n { masters = update n.masters i (record (n.masters i) { responses = queue }) },
        ))
      else faults

  pub pass_response_with : Net → ℕ → Option Response → Outcome (Note × Net)
  pass_response_with n j none = returns (blocked, n)
  pass_response_with n j (some p) = do
    (r, n') ← add_response n p.rsrcid p
    returns (
      note (has_returned r),
      record n' {
        slaves =
            update n'.slaves j
              (record (n'.slaves j) { held = if has_returned r then none else some p });
      },
    )

  pub pass_response_at : Net → ℕ → Outcome (Note × Net)
  pass_response_at n j = pass_response_with n j (n.slaves j).held

  unfoldable pub step : Net → Event → Outcome (Note × Net)
  step n (master_put i q) = put_request n i q
  step n (master_get i) = get_response n i
  step n (slave_put j p) = put_response n j p
  step n (slave_get j) = get_request n j
  step n (fetch_request i) = fetch_request_at n i
  step n (pass_request i) = pass_request_at n i
  step n (fetch_response j) = fetch_response_at n j
  step n (pass_response j) = pass_response_at n j

  -- Events in any order, with what comes of each.
  unfoldable pub run : Net → List Event → Outcome (List Note × Net)
  unfolding step
  run n [] = returns ([], n)
  run n (e ∷ es) = do (now, n') ← step n e; (later, n'') ← run n' es; returns (now ∷ later, n'')
