-- ===== src/Devices/BlockDevice/Control/Errors.antt =====
-- Responses that report an error.
use rabbits.Base.{
  ℕ, ◌+◌, ◌-◌, ◌%◌, ◌≤◌, ◌<◌, ◌≡◌, refl, sym, ◌∙◌, true, false, List, ◌∷◌, Option, ltb, ◌==◌,
  Outcome, returns, ◌>>=◌, length, arith, ap,
}
use mathlib.Core.Path.{subst}
use rabbits.Move.{blit, move-eq, length-blit}
use rabbits.Noc.Packet.{Request, word_mod}
use rabbits.Noc.Routing.Decode.{All}
use rabbits.Master.{Received}
use rabbits.Devices.BlockDevice.Status
use rabbits.Devices.BlockDevice.Control.{
  Host, BusMaster, master_cmd_success, waiting, storing, BlockDevice, rcv_rsp, store_bytes, resume,
  respond, response, act, step_at, run, raise_irq, end_op,
}
use rabbits.Devices.BlockDevice.Control.Stores.{store_requests, patched}
use rabbits.Devices.BlockDevice.Control.Transfer.{Accepts, Ready, responses, bytes_lem}

-- A response that reports an error, and has the `n` bytes that the master copies of it all the same.
pub record Fails (n : ℕ) (r : Received) : Type 0 where
  pub error : r.error ≡ true
  pub write : r.write ≡ false
  pub room : r.start + n ≤ length r.bytes

rcv_rsp-Fails :
    (b : BusMaster) (r : Received)
    → Ready b
    → Fails b.tr_nbytes r
    → (b' : BusMaster) × (rcv_rsp b r ≡ returns b')
      × (b'.status ≡ 2)
      × Ready b'
      × (b'.tr_nbytes ≡ b.tr_nbytes)
unfolding rcv_rsp
rcv_rsp-Fails b r ready fails =
    let copied : List ℕ = blit b.tr_nbytes r.bytes r.start b.tr_rdata 0 in
    let room = fails.room in
    let nbytes = ready.nbytes in
    let width = ready.width in
    (
      record b { status = 2; tr_rdata = copied; crt_tid = (b.crt_tid + 1) % 256 },
      rw
          (
            fails.write,
            fails.error,
            move-eq b.tr_nbytes r.bytes r.start b.tr_rdata 0 (omega arith) (omega arith),
          )
          refl,
      refl,
      record {
        node = ready.node;
        width = length-blit b.tr_nbytes r.bytes r.start b.tr_rdata 0 ∙ width;
        nbytes = nbytes;
      },
      refl,
    )

module _ {H : Type 0} (host : Host H) where
  respond-fails :
      (addr : ℕ) (buf : List ℕ) (n : ℕ) (d : BlockDevice H) (offset : ℕ) (r : Received)
      (b' : BusMaster)
      → d.at ≡ storing true addr buf n offset
      → offset < n
      → rcv_rsp d.bus r ≡ returns b'
      → b'.status ≡ 2
      → step_at host d.at d (response r)
        ≡ store_bytes host (record d { bus = b' }) addr buf n offset true
  unfolding step_at act respond resume store_bytes
  respond-fails addr buf n d offset r b' at left answered failed =
      let d' : BlockDevice H = record d { bus = b' } in
      let more : ltb offset n ≡ true = ground arith in
      ap (λ p. step_at host p d (response r)) at
      ∙ ap
          (λ (o : Outcome BusMaster).
            o >>= λ b. resume host (record d { bus = b }) d.at (b.status == master_cmd_success))
          answered
      ∙ ap (λ p. resume host d' p (b'.status == master_cmd_success)) at
      ∙ ap (λ k. resume host d' (storing true addr buf n offset) (k == master_cmd_success)) failed
      ∙ rw more refl

  -- A device that waits, in the loop over words of a read of `n` bytes, for the response to the
  -- word at `offset`, which is below `n`; `n` is below 2 ^ 32 and within `data_buff`, the address
  -- is a multiple of 4 and the bytes end inside of the 32 bits of an address, the number of the
  -- bus master has 16 bits and it copies at most 4 bytes of a response. Where this response
  -- reports an error, the thread goes on from the failed word with single bytes; with a response
  -- that reports no error to each of these, and where every response is marked as one to a read,
  -- as `response_thread` marks all, and has, from its first lane on, the bytes that the master
  -- copies, the thread comes back to its wait with the registers of a read that succeeded. The
  -- failure is reported nowhere, and a memory that has the bytes before `offset` has then all of
  -- them.
  pub failed_word_goes_on :
      (addr : ℕ) (buf : List ℕ) (n : ℕ) (d : BlockDevice H) (offset : ℕ) (r : Received)
      (rs : List Received)
      → n ≤ length buf
      → n < word_mod
      → addr + n < word_mod + 1
      → addr % 4 ≡ 0
      → d.at ≡ storing true addr buf n offset
      → offset < n
      → Ready d.bus
      → Fails d.bus.tr_nbytes r
      → length rs ≡ n - offset
      → All (Accepts d.bus.tr_nbytes) rs
      → (requests : List (Option Request)) × (d' : BlockDevice H) × (run host d
            (response r ∷ responses rs)
          ≡ returns (requests, d'))
        × (d'.at ≡ waiting)
        × (d'.regs ≡ end_op (raise_irq d.regs) Status.read_success)
        × ((mem m : ℕ → ℕ)
            → ((a : ℕ) → m a ≡ patched mem addr buf offset a)
            → (a : ℕ) → store_requests m requests a ≡ patched mem addr buf n a)
  unfolding run
  failed_word_goes_on addr buf n d offset r rs inside small fits aligned at left ready fails len
        accepts =
      let (b', answered, failed, ready', copies) = rcv_rsp-Fails d.bus r ready fails in
      let d' : BlockDevice H = record d { bus = b' } in
      let s =
        bytes_lem host addr buf n inside small fits aligned (n - offset) d' offset rs (omega arith)
          len (subst (λ k. All (Accepts k) rs) (sym copies) accepts) ready' in
      (
        s.requests,
        s.last,
        rw (respond-fails addr buf n d offset r b' at left answered failed) s.ends,
        s.waits,
        s.regs,
        s.memory,
      )
