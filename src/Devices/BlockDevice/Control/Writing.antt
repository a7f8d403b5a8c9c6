-- ===== src/Devices/BlockDevice/Control/Writing.antt =====
-- A write of the disk, from the operation that the program writes to the interrupt.
use rabbits.Base.{
  ℕ, zero, suc, ◌+◌, ◌-◌, ◌*◌, ◌/◌, ◌%◌, ◌≤◌, ◌<◌, ◌≡◌, ◌≢◌, refl, sym, ◌∙◌, true, false, List, [],
  ◌∷◌, Option, none, some, ltb, Outcome, returns, ◌>>=◌, length, get_or, arith, ap, replicate, take,
  ==_of_ne,
}
use native.Mathlib.Decide.{dec_lt}
use rabbits.Move.{move-eq, length-blit}
use rabbits.Noc.Packet.{Request, word_mod}
use rabbits.Noc.Routing.Decode.{All}
use rabbits.Master.{Received}
use rabbits.Devices.BlockDevice.Status
use rabbits.Devices.BlockDevice.{Registers}
use rabbits.Devices.BlockDevice.Control.{
  Host, BusMaster, waiting, loading, BlockDevice, Turn, position, raise_irq, end_op, finish_loads,
  cmd_read, load_words, resume, respond, Event, act, step_at, run,
}
use rabbits.Devices.BlockDevice.Control.Transfer.{Accepts, responses}
use rabbits.Devices.BlockDevice.Control.Loads.{
  Served, kept, send_req-Brings, rcv_rsp-kept, put_at, get_or-put_at,
}

module _ {H : Type 0} (host : Host H) where
  -- The rest of a run, behind what a thread did in its turn.
  abbrev pub after : Turn H → List Event → Outcome (List (Option Request) × BlockDevice H)
  after t es = t >>= λ s. run host s.1 es >>= λ r. returns (s.0 ∷ r.0, r.1)

  module _ (addr size top : ℕ) (covers : size ≤ top) (close : top < size + 4)
      (whole : top < word_mod) (fits : addr + size < word_mod + 1) (aligned : addr % 4 ≡ 0) where
    -- The loop comes to its end, with the bytes from `offset` on as the responses brought them.
    pub record Loaded (d : BlockDevice H) (buf : List ℕ) (offset : ℕ) (rs : List Received)
        (o : Outcome (List (Option Request) × BlockDevice H)) : Type 0 where
      pub requests : List (Option Request)
      pub last : BlockDevice H
      pub bytes : List ℕ
      pub ends : o ≡ returns (requests, last)
      pub waits : last.at ≡ waiting
      pub width : length bytes ≡ length buf
      pub disk : last.host ≡ host.write_at d.host (position d.regs) (take size bytes)
      pub regs :
          last.regs
          ≡ end_op
              (raise_irq (record d.regs { size = host.file_size last.host / d.regs.block_size }))
              Status.write_success
      pub before : (j : ℕ) → j < offset → get_or bytes j 0 ≡ get_or buf j 0
      pub behind :
          (mem : ℕ → ℕ)
          → Served mem requests rs
          → (j : ℕ) → offset ≤ j
          → j < size
          → get_or bytes j 0 ≡ mem (addr + j)

    finishes :
        (d : BlockDevice H) (buf : List ℕ) (offset : ℕ)
        → size ≤ offset
        → d.regs.block_size ≢ 0
        → Loaded d buf offset [] (after (finish_loads host d false buf size true) [])
    unfolding finish_loads run
    finishes d buf offset past blocks =
        let h' : H = host.write_at d.host (position d.regs) (take size buf) in
        let sized : Registers = record d.regs { size = host.file_size h' / d.regs.block_size } in
        record {
          requests = none ∷ [];
          last = record d {
            regs = end_op (raise_irq sized) Status.write_success;
            host = h';
            at = waiting;
            func_ret = true;
          };
          bytes = buf;
          ends = rw (==_of_ne d.regs.block_size 0 blocks) refl;
          waits = refl;
          width = refl;
          disk = refl;
          regs = refl;
          before = λ j h. refl;
          behind = λ mem served j low high. absurd (omega arith);
        }

    -- One command that is answered, before the loop that goes on.
    loads_on :
        (d : BlockDevice H) (buf : List ℕ) (offset : ℕ) (r : Received) (rs : List Received)
        → offset < size
        → offset % 4 ≡ 0
        → offset + 4 ≤ length buf
        → d.bus.node_id < 65536
        → Accepts 4 r
        → ((d' : BlockDevice H)
            → d'.regs ≡ d.regs
            → d'.host ≡ d.host
            → d'.bus.node_id ≡ d.bus.node_id
            → Loaded d' (put_at buf offset r) (offset + 4) rs (
                after
                  (load_words host d' false addr
                    (put_at buf offset r)
                    size
                    ((offset + 4) % word_mod)
                    true)
                  (responses rs)))
        → Loaded d buf offset
            (r ∷ rs)
            (after (cmd_read host d false addr buf size offset) (responses (r ∷ rs)))
    unfolding cmd_read run step_at act respond resume
    loads_on d buf offset r rs more multiple room node accepts next =
        let (q, made, asked) =
          send_req-Brings d.bus.node_id d.bus.crt_tid addr offset node (omega arith)
            (omega arith) in
        let b' : BusMaster = record d.bus {
          tr_nbytes = 4;
          tr_rdata = kept r;
          status = 1;
          crt_tid = (d.bus.crt_tid + 1) % 256;
        } in
        let d' : BlockDevice H = record d { at = loading false addr buf size offset; bus = b' } in
        let s = next d' refl refl refl in
        let len = length-blit 4 r.bytes r.start (replicate 4 0) 0 in
        record {
          requests = some q ∷ s.requests;
          last = s.last;
          bytes = s.bytes;
          ends =
              rw
                (
                  made,
                  rcv_rsp-kept d.bus r accepts,
                  move-eq 4 (kept r) 0 buf offset (omega (arith, len)) room,
                  s.ends,
                )
                refl;
          waits = s.waits;
          width = s.width ∙ length-blit 4 (kept r) 0 buf offset;
          disk = s.disk;
          regs = s.regs;
          before =
              λ j h. s.before j (omega arith) ∙ get_or-put_at buf offset r j room ∙ ground arith;
          behind = λ mem (now, later) j low high. elim (dec_lt j (offset + 4)) [
            | yes here ↦
                let at : addr + offset + (j - offset) ≡ addr + j = omega arith in
                s.before j here
                ∙ get_or-put_at buf offset r j room
                ∙ ground arith
                ∙ asked mem r now (j - offset) (omega arith)
                ∙ ap mem at
            | no there ↦ s.behind mem later j (omega arith) high
          ];
        }

    pub words_lem :
        (k : ℕ) (d : BlockDevice H) (buf : List ℕ) (offset : ℕ) (rs : List Received)
        → offset + 4 * k ≡ top
        → offset % 4 ≡ 0
        → length rs ≡ k
        → All (Accepts 4) rs
        → top ≤ length buf
        → d.bus.node_id < 65536
        → d.regs.block_size ≢ 0
        → Loaded d buf offset rs
            (after (load_words host d false addr buf size offset true) (responses rs))
    unfolding load_words
    words_lem zero d buf offset [] at multiple left accepts room node blocks =
        let past : ltb offset size ≡ false = ground arith in
        rw past (finishes d buf offset (omega arith) blocks)
    words_lem zero d buf offset (r ∷ rs) at multiple left accepts room node blocks =
        absurd (omega arith)
    words_lem (suc k) d buf offset [] at multiple left accepts room node blocks =
        absurd (omega arith)
    words_lem (suc k) d buf offset (r ∷ rs) at multiple left (first, others) room node blocks =
        let more : ltb offset size ≡ true = ground arith in
        let on : (offset + 4) % word_mod ≡ offset + 4 = omega arith in
        let len = length-blit 4 (kept r) 0 buf offset in
        rw more (
          loads_on d buf offset r rs (omega arith) multiple (omega arith) node first
            (λ d' regs disk same. rw on (
              words_lem k d' (put_at buf offset r) (offset + 4) rs (omega arith) (omega arith)
                (omega arith) others (omega (arith, len)) (omega (arith, same))
                (λ e. blocks (ap (λ (x : Registers). x.block_size) (sym regs) ∙ e)))))
