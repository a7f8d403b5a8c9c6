-- ===== src/Slave.antt =====
-- slave_device.{h,cpp}: the thread that serves the requests of one slave, over any device.
pub mod Protocol
pub mod Rounds
use rabbits.Base.{
  ℕ, Bool, true, false, ◌&&◌, ◌≡◌, List, [], ◌∷◌, Option, none, some, ◌==◌, if◌then◌else◌, Outcome,
  returns, exits, faults, ◌>>=◌, length,
}
use rabbits.Noc.Packet.{Request, Response, cmd_read, cmd_write}

-- What `rcv_rqst` leaves: the device, the bytes behind `data`, and the `bErr` given to `send_rsp`.
pub record Served (S : Type 0) : Type 0 where
  pub state : S
  pub bytes : List ℕ
  pub error : Bool

-- `rcv_rqst (ofs, be, data, bWrite)`, which each device implements.
abbrev pub Device : Type 0 → Type 0
Device S = S → ℕ → ℕ → List ℕ → Bool → Outcome (Served S)

-- The class that the devices extend. `dev` stands for the fields of the device.
pub record Slave (S : Type 0) : Type 0 where
  pub dev : S
  pub req : Request
  pub rsp : Response
  pub processing : Bool
  pub write_invalidate : Bool

-- The call of `invalidate_address` that `send_rsp` may make.
pub record Invalidation : Type 0 where
  pub addr : ℕ
  pub target : ℕ
  pub src : ℕ

-- What leaves the slave while it serves one request.
pub record Sent : Type 0 where
  pub response : Option Response
  pub invalidation : Option Invalidation

abbrev pub quiet : Sent
quiet = record { response = none; invalidation = none }

module _ {S : Type 0} where
  pub send_rsp : Slave S → Bool → Slave S × Sent
  send_rsp s err =
      let rsp' = record s.rsp { rerror = err } in
      (
        record s { rsp = rsp'; processing = false },
        record {
          response = some rsp';
          invalidation =
              if s.write_invalidate && s.req.cmd == cmd_write
              then some (record {
                addr = s.req.initial_address;
                target = s.req.slave_id;
                src = s.req.srcid;
              })
              else none;
        },
      )

  -- The lines of `request_thread` before the `switch`.
  pub accept : Slave S → Request → Slave S
  accept s q = record s {
    req = q;
    processing = true;
    rsp = record s.rsp { rsrcid = q.srcid; rtrdid = q.trdid; reop = true; rbe = q.be };
  }

  -- What `send_rsp` does after the two calls of the `switch`, which work on `m_req.wdata` and on
  -- `m_rsp.rdata`.
  pub finish_write : Slave S → Served S → Slave S × Sent
  unfolding send_rsp
  finish_write t r =
      send_rsp (record t { dev = r.state; req = record t.req { wdata = r.bytes } }) r.error

  pub finish_read : Slave S → Served S → Slave S × Sent
  unfolding send_rsp
  finish_read t r =
      send_rsp (record t { dev = r.state; rsp = record t.rsp { rdata = r.bytes } }) r.error

  pub serve_write : Device S → Slave S → Outcome (Slave S × Sent)
  serve_write rcv_rqst t = do
    r ← rcv_rqst t.dev t.req.address t.req.be t.req.wdata true
    returns (finish_write t r)

  pub serve_read : Device S → Slave S → Outcome (Slave S × Sent)
  serve_read rcv_rqst t = do
    r ← rcv_rqst t.dev t.req.address t.req.be t.rsp.rdata false
    returns (finish_read t r)

  -- One round of `request_thread`, with the request that `get` returned.
  pub serve : Device S → Slave S → Request → Outcome (Slave S × Sent)
  serve rcv_rqst s q =
      if s.processing
      then returns (record s { req = q }, quiet)
      else if q.cmd == cmd_write
      then serve_write rcv_rqst (accept s q)
      else if q.cmd == cmd_read
      then serve_read rcv_rqst (accept s q)
      else returns (accept s q, quiet)

  -- The rounds over a list of requests, with all that is sent.
  pub serve_all : Device S → Slave S → List Request → Outcome (Slave S × List Sent)
  serve_all rcv_rqst s [] = returns (s, [])
  serve_all rcv_rqst s (q ∷ qs) = do
    (s', sent) ← serve rcv_rqst s q
    (s'', rest) ← serve_all rcv_rqst s' qs
    returns (s'', sent ∷ rest)
