-- ===== src/Devices/BlockDevice/Control/Transfer.antt =====
-- A read of the disk, from the operation's start to its end.
use rabbits.Base.{
  ℕ, zero, suc, ◌+◌, ◌-◌, ◌*◌, ◌%◌, ◌≤◌, ◌<◌, ◌≡◌, refl, sym, ◌∙◌, inl, inr, Bool, true, false,
  List, [], ◌∷◌, Option, none, some, ltb, if◌then◌else◌, Outcome, returns, ◌>>=◌, length, arith,
}
use mathlib.Core.Path.{subst}
use rabbits.Bits.{bit_and_not_three}
use rabbits.Move.{blit, move-eq, length-blit}
use rabbits.Noc.Packet.{Request, word_mod}
use rabbits.Noc.Routing.Decode.{All}
use rabbits.Master.{Received}
use rabbits.Master.Marks.{IsSize}
use rabbits.Devices.BlockDevice.Status
use rabbits.Devices.BlockDevice.Control.{
  Host, BusMaster, waiting, storing, BlockDevice, Turn, raise_irq, end_op, rcv_rsp, finish_stores,
  cmd_write, store_bytes, store_words, resume, respond, Event, response, act, step_at, run,
}
use rabbits.Devices.BlockDevice.Control.Stores.{
  store_request, store_requests, patched, send_req-stored,
}

-- A response that says that all is well and has, from the byte on at which its lanes begin, the `n`
-- bytes that the master copies of every response, the one to a store included.
pub record Accepts (n : ℕ) (r : Received) : Type 0 where
  pub error : r.error ≡ false
  pub write : r.write ≡ false
  pub room : r.start + n ≤ length r.bytes

-- A bus master that copies `tr_nbytes` bytes of every response, at most the 4 that it has room for.
pub record Ready (b : BusMaster) : Type 0 where
  pub node : b.node_id < 65536
  pub width : length b.tr_rdata ≡ 4
  pub nbytes : b.tr_nbytes ≤ 4

rcv_rsp-Ready :
    (b : BusMaster) (r : Received)
    → Ready b
    → Accepts b.tr_nbytes r
    → (b' : BusMaster) × (rcv_rsp b r ≡ returns b')
      × (b'.status ≡ 1)
      × Ready b'
      × (b'.tr_nbytes ≡ b.tr_nbytes)
unfolding rcv_rsp
rcv_rsp-Ready b r ready accepts =
    let copied : List ℕ = blit b.tr_nbytes r.bytes r.start b.tr_rdata 0 in
    let room = accepts.room in
    let nbytes = ready.nbytes in
    let width = ready.width in
    (
      record b { status = 1; tr_rdata = copied; crt_tid = (b.crt_tid + 1) % 256 },
      rw
          (
            accepts.write,
            accepts.error,
            move-eq b.tr_nbytes r.bytes r.start b.tr_rdata 0 (omega arith) (omega arith),
          )
          refl,
      refl,
      record {
        node = ready.node;
        width = length-blit b.tr_nbytes r.bytes r.start b.tr_rdata 0 ∙ width;
        nbytes = nbytes;
      },
      refl,
    )

-- The bytes of one command.
abbrev wide : Bool → ℕ
wide words = if words then 4 else 1

wide-IsSize : (words : Bool) → IsSize (wide words)
wide-IsSize true = inr (inr refl)
wide-IsSize false = inl refl

abbrev pub responses : List Received → List Event
responses [] = []
responses (r ∷ rs) = response r ∷ responses rs

module _ {H : Type 0} (host : Host H) (addr : ℕ) (buf : List ℕ) (n : ℕ) (inside : n ≤ length buf)
    (small : n < word_mod) (fits : addr + n < word_mod + 1) (aligned : addr % 4 ≡ 0) where
  -- The rest of a run, behind what a thread did in its turn.
  abbrev pub after : Turn H → List Event → Outcome (List (Option Request) × BlockDevice H)
  after t es = t >>= λ s. run host s.1 es >>= λ r. returns (s.0 ∷ r.0, r.1)

  -- The loops of a read come to their end, with the bytes from `offset` on stored.
  pub record Stored (d : BlockDevice H) (offset : ℕ)
      (o : Outcome (List (Option Request) × BlockDevice H)) : Type 0 where
    pub requests : List (Option Request)
    pub last : BlockDevice H
    pub ends : o ≡ returns (requests, last)
    pub waits : last.at ≡ waiting
    pub regs : last.regs ≡ end_op (raise_irq d.regs) Status.read_success
    pub disk : last.host ≡ d.host
    pub memory :
        (mem m : ℕ → ℕ)
        → ((a : ℕ) → m a ≡ patched mem addr buf offset a)
        → (a : ℕ) → store_requests m requests a ≡ patched mem addr buf n a

  below : (words : Bool) (offset : ℕ) → offset + wide words ≤ n → addr + offset < word_mod
  below true offset room = omega arith
  below false offset room = omega arith

  -- One command that is answered, before the loops that go on.
  stores_on :
      (d : BlockDevice H) (words : Bool) (offset : ℕ) (r : Received) (rs : List Received)
      → offset + wide words ≤ n
      → (addr + offset) % 8 + wide words ≤ 8
      → Ready d.bus
      → Accepts d.bus.tr_nbytes r
      → ((d' : BlockDevice H)
          → d'.regs ≡ d.regs
          → d'.host ≡ d.host
          → Ready d'.bus
          → d'.bus.tr_nbytes ≡ d.bus.tr_nbytes
          → Stored d'
              (offset + wide words)
              (after (resume host d' (storing words addr buf n offset) true) (responses rs)))
      → Stored d offset (after (cmd_write host d words addr buf n offset) (responses (r ∷ rs)))
  unfolding cmd_write run step_at act respond
  stores_on d words offset r rs room line ready accepts next =
      let (q, made, stored) =
        send_req-stored d.bus.node_id d.bus.crt_tid addr buf offset (wide words) (wide-IsSize words)
          ready.node (below words offset room) line (omega arith) in
      let (b', answered, success, ready', copies) = rcv_rsp-Ready d.bus r ready accepts in
      let d' : BlockDevice H = record d { at = storing words addr buf n offset; bus = b' } in
      let s = next d' refl refl ready' copies in
      record {
        requests = some q ∷ s.requests;
        last = s.last;
        ends = rw (made, answered, success, s.ends) refl;
        waits = s.waits;
        regs = s.regs;
        disk = s.disk;
        memory = λ mem m before. s.memory mem (store_request m (some q)) (stored mem m before);
      }

  finishes : (d : BlockDevice H) → Stored d n (after (finish_stores host d n true) [])
  unfolding finish_stores run
  finishes d = record {
    requests = none ∷ [];
    last = record d {
      regs = end_op (raise_irq d.regs) Status.read_success;
      at = waiting;
      func_ret = true;
    };
    ends = refl;
    waits = refl;
    regs = refl;
    disk = refl;
    memory = λ mem m before. before;
  }

  -- The loop over single bytes, with `k` of them left.
  pub bytes_lem :
      (k : ℕ) (d : BlockDevice H) (offset : ℕ) (rs : List Received)
      → offset + k ≡ n
      → length rs ≡ k
      → All (Accepts d.bus.tr_nbytes) rs
      → Ready d.bus
      → Stored d offset (after (store_bytes host d addr buf n offset true) (responses rs))
  unfolding store_bytes resume
  bytes_lem zero d offset [] at none_left accepts ready =
      let here : offset ≡ n = omega arith in
      let past : ltb offset n ≡ false = ground arith in rw past (rw here (finishes d))
  bytes_lem zero d offset (r ∷ rs) at none_left accepts ready = absurd (omega arith)
  bytes_lem (suc k) d offset [] at left accepts ready = absurd (omega arith)
  bytes_lem (suc k) d offset (r ∷ rs) at left (first, others) ready =
      let before : ltb offset n ≡ true = ground arith in
      let on : (offset + 1) % word_mod ≡ offset + 1 = omega arith in
      rw before (
        stores_on d false offset r rs (omega arith) (omega arith) ready first
          (λ d' regs disk ready' copies. rw on (
            bytes_lem k d' (offset + 1) rs (omega arith) (omega arith)
              (subst (λ n. All (Accepts n) rs) (sym copies) others) ready')))

  -- The loop over words, with `k` of them left.
  pub words_lem :
      (k : ℕ) (d : BlockDevice H) (offset : ℕ) (rs : List Received)
      → offset + 4 * k ≡ n - n % 4
      → length rs ≡ k + n % 4
      → All (Accepts d.bus.tr_nbytes) rs
      → Ready d.bus
      → Stored d offset (after (store_words host d addr buf n offset true) (responses rs))
  unfolding store_words resume
  words_lem zero d offset rs at left accepts ready =
      let past : ltb offset (n - n % 4) ≡ false = ground arith in
      rw (bit_and_not_three n (omega arith), past)
        (bytes_lem (n % 4) d offset rs (omega arith) (omega arith) accepts ready)
  words_lem (suc k) d offset [] at left accepts ready = absurd (omega arith)
  words_lem (suc k) d offset (r ∷ rs) at left (first, others) ready =
      let before : ltb offset (n - n % 4) ≡ true = ground arith in
      let on : (offset + 4) % word_mod ≡ offset + 4 = omega arith in
      rw (bit_and_not_three n (omega arith), before)
        (stores_on d true offset r rs (omega arith) (omega arith) ready first
          (λ d' regs disk ready' copies. rw on (
            words_lem k d' (offset + 4) rs (omega arith) (omega arith)
              (subst (λ n. All (Accepts n) rs) (sym copies) others) ready')))
