-- ===== src/Master.antt =====
-- master_device.{h,cpp}: how a master packs an access into a request, and unpacks a response.
pub mod Lanes
pub mod Marks
mod Tests
use rabbits.Base.{
  ℕ, zero, suc, ◌+◌, ◌-◌, ◌*◌, ◌/◌, ◌%◌, ◌^◌, Bool, true, false, not, List, [], ◌∷◌, Option, none,
  some, ltb, ◌==◌, if◌then◌else◌, Outcome, returns, exits, faults, ◌>>=◌, load, store, replicate,
  bit_and,
}
use rabbits.Noc.Packet.{Request, Response, cmd_read, cmd_write, word_mod}

-- `s_operation_mask_be`.
abbrev pub operation_mask_be : List ℕ
operation_mask_be = 0xDE ∷ 0x01 ∷ 0x03 ∷ 0xDE ∷ 0x0F ∷ 0xDE ∷ 0xDE ∷ 0xDE ∷ 0xFF ∷ []

-- `for (i = 0; i < nbytes; i++) req.wdata[i + ofs] = data[i]`, with `n` rounds left.
unfoldable pub copy_in : ℕ → ℕ → ℕ → List ℕ → List ℕ → Outcome (List ℕ)
copy_in zero i ofs bytes wdata = returns wdata
copy_in (suc n) i ofs bytes wdata = do
  b ← load bytes i
  wdata' ← store wdata (i + ofs) b
  copy_in n (i + 1) ofs bytes wdata'

-- `send_req`: the request that is put into the network. The fields that the function leaves
-- unset are 0 here; the network sets two of them.
unfoldable pub send_req : ℕ → ℕ → ℕ → List ℕ → ℕ → Bool → Outcome Request
send_req node_id tid addr bytes nbytes write = do
  let plen = (nbytes + 3) % word_mod / 4 % 256
  let count = if ltb 4 nbytes then 4 else nbytes
  let ofs = bit_and addr 7
  mask ← load operation_mask_be count
  wdata ← (if write then copy_in count 0 ofs bytes (replicate 8 0) else returns (replicate 8 0))
  returns (record {
    address = bit_and addr 0xFFFFFFF8;
    be = mask * 2 ^ ofs % 256;
    cmd = if write then cmd_write else cmd_read;
    wdata = wdata;
    eop = true;
    plen = plen;
    srcid = node_id % 65536;
    trdid = tid;
    initial_address = 0;
    slave_id = 0;
  })

-- `while (!(be & 1)) { ofs++; be >>= 1; }`, for a byte that is not 0: at most 7 rounds.
unfoldable pub skip_zeros : ℕ → ℕ → ℕ → ℕ × ℕ
skip_zeros zero be ofs = (be, ofs)
skip_zeros (suc fuel) be ofs =
    let on = skip_zeros fuel (be / 2) (ofs + 1) in if be % 2 == 0 then on else (be, ofs)

-- `while (be & 1) { nbytes++; be >>= 1; }`: at most 8 rounds.
unfoldable pub count_ones : ℕ → ℕ → ℕ → ℕ
count_ones zero be n = n
count_ones (suc fuel) be n =
    let on = count_ones fuel (be / 2) (n + 1) in if be % 2 == 0 then n else on

-- The `ofs` and `nbytes` of `response_thread`.
unfoldable pub lanes : ℕ → ℕ × ℕ
unfolding skip_zeros count_ones
lanes be =
    if be == 0 then (0, 0) else (let (rest, ofs) = skip_zeros 8 be 0 in (ofs, count_ones 8 rest 0))

-- The arguments of `rcv_rsp`: `start` is the index of the byte that `data` points at.
pub record Received : Type 0 where
  pub tid : ℕ
  pub bytes : List ℕ
  pub start : ℕ
  pub error : Bool
  pub write : Bool

-- One round of `response_thread`: `none` for a response that it reports and passes over.
pub receive : ℕ → Response → Option Received
receive node_id resp =
    if not (resp.rsrcid == node_id)
    then none
    else if not resp.reop
    then none
    else some (record {
      tid = resp.rtrdid;
      bytes = resp.rdata;
      start = (lanes resp.rbe).0;
      error = resp.rerror;
      write = false;
    })
