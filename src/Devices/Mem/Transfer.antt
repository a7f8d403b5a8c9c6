-- ===== src/Devices/Mem/Transfer.antt =====
-- A word that one master writes to the memory and another one reads.
use rabbits.Base.{
  ℕ, ◌+◌, ◌-◌, ◌%◌, ◌<◌, ◌≤◌, ◌≡◌, inl, inr, refl, ap, ◌∙◌, Bool, true, false, List, some,
  if◌then◌else◌, returns, length, get_or, arith,
}
use rabbits.Noc.Packet.{Request, Response, cmd_read, cmd_write, word_mod}
use rabbits.Master.{send_req, Received, receive}
use rabbits.Master.Marks.{IsSize, lane_mask}
use rabbits.Master.Lanes.{send_req_lem, receive_lem}
use rabbits.Slave.{Served, Slave, Sent, serve}
use rabbits.Slave.Protocol.{Idle}
use rabbits.Slave.Rounds.{read_response, serve_writes, serve_reads}
use rabbits.Move.{blit, length-blit, get_or-blit}
use rabbits.Devices.Lanes.Agree.{is_set, IsRun, selected-IsRun}
use rabbits.Devices.Mem.{Mem, write, read_single, read, rcv_rqst}
use rabbits.Devices.Mem.Access.{Inv, write_run_lem, read-Fetched_single}
use rabbits.Devices.Mem.Picked.{Picked, aligned-Picked}

-- The memory between a write and a read of the same bytes of a line.
module _ (n : ℕ) (s : Mem) (ofs o k : ℕ) (bytes : List ℕ) (inv : Inv n s) (room : ofs + 8 ≤ n)
    (width : length bytes ≡ 8) (picked : Picked k o) where
  abbrev pub after : Mem
  after = record s { mem = blit k bytes o s.mem (ofs + o) }

  abbrev be : ℕ
  be = lane_mask k o

  run : IsRun be o k
  run = selected-IsRun be (omega (arith, picked)) picked.0

  after-Inv : Inv n after
  after-Inv = (inv.0, length-blit k bytes o s.mem (ofs + o) ∙ inv.1)

  fetched_back :
      (i : ℕ)
      → i < k
      → (c : ℕ) {b : ℕ} → b ≡ (if is_set be (o + i) then get_or after.mem (ofs + (o + i)) 0 else c)
      → b ≡ get_or bytes (o + i) 0
  fetched_back i below c {b} fetched =
      let place : o + (ofs + (o + i) - (ofs + o)) ≡ o + i = omega arith in
      ground (
        arith,
        run.bits (o + i) (omega (arith, run)),
        get_or-blit k bytes o s.mem (ofs + o) (ofs + (o + i)) (omega (arith, run)),
        ap (λ (j : ℕ). get_or bytes j 0) place,
      )

  write_stores : write s ofs be bytes ≡ returns after
  write_stores =
      write_run_lem n s ofs be bytes inv room (omega (arith, picked)) (omega (arith, picked)) width
      ∙ rw run.run refl

  read_fetches :
      (old : List ℕ)
      → length old ≡ 8
      → (new : List ℕ) × (read_single after ofs be old ≡ returns (new, false))
        × ((i : ℕ) → i < k → get_or new (o + i) 0 ≡ get_or bytes (o + i) 0)
  read_fetches old wide =
      let (line, part) =
        read-Fetched_single n after ofs be old after-Inv room (omega (arith, picked)) wide
          picked.0 in
      let (new, runs, len, fetched) = part (omega (arith, picked)) in
      (
        new,
        runs,
        λ i below.
            fetched_back i below (get_or old (o + i) 0) (fetched (o + i) (omega (arith, run))),
      )

in_line : (addr k : ℕ) → IsSize k → addr % k ≡ 0 → (addr % 8 % k ≡ 0) × (addr % 8 + k ≤ 8)
in_line addr k (inl one) aligned =
    let whole : addr % 1 ≡ 0 = rw one at aligned in rw one (omega arith, omega arith)
in_line addr k (inr (inl two)) aligned =
    let whole : addr % 2 ≡ 0 = rw two at aligned in rw two (omega arith, omega arith)
in_line addr k (inr (inr four)) aligned =
    let whole : addr % 4 ≡ 0 = rw four at aligned in rw four (omega arith, omega arith)

rcv_write :
    (plen : ℕ) (s : Mem) (ofs be : ℕ) (bytes : List ℕ) {s' : Mem}
    → write s ofs be bytes ≡ returns s'
    → rcv_rqst plen s ofs be bytes true
      ≡ returns (record { state = s'; bytes = bytes; error = false })
unfolding rcv_rqst
rcv_write plen s ofs be bytes runs = rw runs refl

rcv_read :
    (plen : ℕ) (s : Mem) (ofs be : ℕ) (old : List ℕ) {new : List ℕ}
    → plen ≡ 1
    → read_single s ofs be old ≡ returns (new, false)
    → rcv_rqst plen s ofs be old false ≡ returns (record { state = s; bytes = new; error = false })
unfolding rcv_rqst read
rcv_read plen s ofs be old one_word runs = rw (one_word, runs) refl

-- What the memory needs to know of a request that a master has made.
abbrev Made : ℕ → ℕ → List ℕ → Bool → Request → Type 0
Made addr k bytes write req =
    (req.cmd ≡ (if write then cmd_write else cmd_read))
    × (req.be ≡ lane_mask k (addr % 8))
    × (req.plen ≡ 1)
    × (length req.wdata ≡ 8)
    × (write ≡ true → (i : ℕ) → i < k → get_or req.wdata (i + addr % 8) 0 ≡ get_or bytes i 0)

send_req-Made :
    (node tid addr k : ℕ) (bytes : List ℕ) (write : Bool) {req : Request}
    → IsSize k
    → node < 65536
    → addr < word_mod
    → addr % 8 + k ≤ 8
    → k ≤ length bytes
    → send_req node tid addr bytes k write ≡ returns req
    → Made addr k bytes write req
send_req-Made node tid addr k bytes write {req} size small word line enough h =
    let (q, makes, at, source, transaction, cmd, back, marks, one_word, wide, stored) =
      send_req_lem node tid addr k bytes write size small word line enough in
    let same : req ≡ q = cc in rw same (cmd, marks, one_word, wide, stored)

module _ (n ofs k node tid node' tid' addr : ℕ) (bytes junk : List ℕ) (s : Slave Mem)
    {q r : Request} where
  -- A master writes 1, 2 or 4 bytes at an aligned address, and a master then reads as many at the
  -- same address: an idle memory that has the line serves both requests, and what the second master
  -- receives is its own transaction, without an error, with the bytes that the first has sent.
  pub write_then_read :
      Idle (Inv n) s
      → ofs + 8 ≤ n
      → IsSize k
      → (node < 65536) × (node' < 65536)
      → addr < word_mod
      → addr % k ≡ 0
      → (k ≤ length bytes) × (k ≤ length junk)
      → send_req node tid addr bytes k true ≡ returns q
      → send_req node' tid' addr junk k false ≡ returns r
      → (t : Slave Mem) × (u : Slave Mem) × (m : Sent) × (m' : Sent) × (p : Response)
        × (got : Received) × (serve (rcv_rqst q.plen) s (record q { address = ofs })
            ≡ returns (t, m))
        × (serve (rcv_rqst r.plen) t (record r { address = ofs }) ≡ returns (u, m'))
        × (m'.response ≡ some p)
        × (receive node' p ≡ some got)
        × (got.tid ≡ tid')
        × (got.error ≡ false)
        × ((i : ℕ) → i < k → get_or got.bytes (got.start + i) 0 ≡ get_or bytes i 0)
  write_then_read idle room size small word aligned enough sent_q sent_r =
      let o : ℕ = addr % 8 in
      let line = in_line addr k size aligned in
      let picked = aligned-Picked k o size (omega arith) line.0 line.1 in
      let (writes, be_q, one_q, wide_q, stored) =
        send_req-Made node tid addr k bytes true size small.0 word line.1 enough.0 sent_q in
      let (reads, be_r, one_r, wide_r, none_stored) =
        send_req-Made node' tid' addr k junk false size small.1 word line.1 enough.1 sent_r in
      let after' : Mem = after n s.dev ofs o k q.wdata idle.device room wide_q picked in
      let stores = write_stores n s.dev ofs o k q.wdata idle.device room wide_q picked in
      let kept : Served Mem = record { state = after'; bytes = q.wdata; error = false } in
      let calls_q : rcv_rqst q.plen s.dev ofs q.be q.wdata true ≡ returns kept =
        rw be_q (rcv_write q.plen s.dev ofs (lane_mask k o) q.wdata stores) in
      let (t, m, run_q, dev_t, ready_t, rdata_t) =
        serve_writes (rcv_rqst q.plen) s (record q { address = ofs }) {r = kept} idle.ready writes
          calls_q in
      let (new, fetches, back) =
        read_fetches n s.dev ofs o k q.wdata idle.device room wide_q picked s.rsp.rdata
          idle.width in
      let found : Served Mem = record { state = after'; bytes = new; error = false } in
      let calls_r : rcv_rqst r.plen t.dev ofs r.be t.rsp.rdata false ≡ returns found =
        rw (dev_t, rdata_t, be_r)
          (rcv_read r.plen after' ofs (lane_mask k o) s.rsp.rdata one_r fetches) in
      let (u, m', run_r, dev_u, answer) =
        serve_reads (rcv_rqst r.plen) t (record r { address = ofs }) {r = found} ready_t reads
          calls_r in
      let p : Response = read_response r found in
      let got : Received = record {
        tid = tid';
        bytes = new;
        start = addr % 8;
        error = false;
        write = false;
      } in
      (
        t,
        u,
        m,
        m',
        p,
        got,
        run_q,
        run_r,
        answer,
        receive_lem node' tid' addr k junk false p size small.1 word line.1 enough.1 sent_r refl
            refl refl refl,
        refl,
        refl,
        λ i below. back i below ∙ ap (λ j. get_or q.wdata j 0) (swap o i) ∙ stored refl i below,
      )
    where
      swap : (a b : ℕ) → a + b ≡ b + a
      swap a b = omega arith
