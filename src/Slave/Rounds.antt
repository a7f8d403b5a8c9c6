-- ===== src/Slave/Rounds.antt =====
-- What one round of an idle slave leaves, by what its device returns.
use rabbits.Base.{◌≡◌, refl, true, false, some, returns}
use rabbits.Noc.Packet.{Request, Response, cmd_read, cmd_write}
use rabbits.Slave.{
  Served, Device, Slave, Sent, accept, serve_write, serve_read, finish_write, finish_read, serve,
}
use rabbits.Slave.Protocol.{serve_of_read, serve_of_write}

-- The response to a read.
abbrev pub read_response : {S : Type 0} → Request → Served S → Response
read_response q r = record {
  rdata = r.bytes;
  reop = true;
  rerror = r.error;
  rsrcid = q.srcid;
  rtrdid = q.trdid;
  rbe = q.be;
}

module _ {S : Type 0} (rcv_rqst : Device S) (s : Slave S) (q : Request) {r : Served S}
    (ready : s.processing ≡ false) where
  pub serve_writes :
      q.cmd ≡ cmd_write
      → rcv_rqst s.dev q.address q.be q.wdata true ≡ returns r
      → (s' : Slave S) × (sent : Sent) × (serve rcv_rqst s q ≡ returns (s', sent))
        × (s'.dev ≡ r.state)
        × (s'.processing ≡ false)
        × (s'.rsp.rdata ≡ s.rsp.rdata)
  unfolding serve_write accept finish_write
  serve_writes writes runs = (
    (finish_write (accept s q) r).0,
    (finish_write (accept s q) r).1,
    rw (serve_of_write rcv_rqst s q ready writes, runs) refl,
    refl,
    refl,
    refl,
  )

  pub serve_reads :
      q.cmd ≡ cmd_read
      → rcv_rqst s.dev q.address q.be s.rsp.rdata false ≡ returns r
      → (s' : Slave S) × (sent : Sent) × (serve rcv_rqst s q ≡ returns (s', sent))
        × (s'.dev ≡ r.state)
        × (sent.response ≡ some (read_response q r))
  unfolding serve_read accept finish_read
  serve_reads reads runs = (
    (finish_read (accept s q) r).0,
    (finish_read (accept s q) r).1,
    rw (serve_of_read rcv_rqst s q ready reads, runs) refl,
    refl,
    refl,
  )
