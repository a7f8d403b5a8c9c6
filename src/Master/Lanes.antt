-- ===== src/Master/Lanes.antt =====
-- The byte lanes of an access: what a master packs is what it unpacks.
use rabbits.Base.{
  ℕ, zero, suc, ◌+◌, ◌-◌, ◌*◌, ◌/◌, ◌%◌, ◌^◌, ◌<◌, ◌≤◌, ◌≡◌, refl, Bool, true, false, List, some,
  if◌then◌else◌, returns, faults, replicate, arith, length, get_or, set, ◌∙◌, load-eq, store-eq,
  store-past, ltb_of_le, length-set, get_or-set_self, get_or-set_ne,
}
use native.Mathlib.Decide.{dec_lt}
use rabbits.Bits.{bit_and_seven, bit_and_not_seven}
use rabbits.Noc.Packet.{Request, Response, cmd_read, cmd_write, word_mod}
use rabbits.Master.{operation_mask_be, copy_in, send_req, lanes, receive}
use rabbits.Master.Marks.{IsSize, lane_mask, operation_mask_lem}

-- What the loop of `send_req` has stored.
pub record Copied (n i ofs : ℕ) (bytes wdata out : List ℕ) : Type 0 where
  pub width : length out ≡ length wdata
  pub copied : (k : ℕ) → k < n → get_or out (i + k + ofs) 0 ≡ get_or bytes (i + k) 0
  pub below : (j : ℕ) → j < i + ofs → get_or out j 0 ≡ get_or wdata j 0

copy_in_lem :
    (n i ofs : ℕ) (bytes wdata : List ℕ)
    → i + n ≤ length bytes
    → i + n + ofs ≤ length wdata
    → (out : List ℕ) × (copy_in n i ofs bytes wdata ≡ returns out) × Copied n i ofs bytes wdata out
unfolding copy_in
copy_in_lem zero i ofs bytes wdata enough room = (
  wdata,
  refl,
  record { width = refl; copied = λ k h. absurd (omega arith); below = λ j h. refl },
)
copy_in_lem (suc n) i ofs bytes wdata enough room =
    let b = get_or bytes i 0 in
    let next = set wdata (i + ofs) b in
    let (out, runs, c) =
      copy_in_lem n (i + 1) ofs bytes next (omega arith)
        (omega (arith, length-set wdata (i + ofs) b)) in
    (
      out,
      rw (load-eq bytes i 0 (omega arith), store-eq wdata (i + ofs) b (omega arith)) runs,
      record {
        width = c.width ∙ length-set wdata (i + ofs) b;
        copied = copied_at out c;
        below = λ j h. c.below j (omega arith) ∙ get_or-set_ne wdata (i + ofs) j b 0 (omega arith);
      },
    )
  where
    copied_at :
        (out : List ℕ)
        → Copied n (i + 1) ofs bytes (set wdata (i + ofs) (get_or bytes i 0)) out
        → (k : ℕ) → k < suc n
        → get_or out (i + k + ofs) 0 ≡ get_or bytes (i + k) 0
    copied_at out c zero h =
        let at : i + 0 ≡ i = omega arith in
        rw at (
          c.below (i + ofs) (omega arith)
          ∙ get_or-set_self wdata (i + ofs) (get_or bytes i 0) 0 (omega arith))
    copied_at out c (suc k) h =
        let at : i + suc k ≡ i + 1 + k = omega arith in rw at (c.copied k (omega arith))

-- Past the end of `wdata` the loop writes outside the packet.
copy_in_past :
    (n i ofs : ℕ) (bytes wdata : List ℕ)
    → i + n ≤ length bytes
    → i + ofs ≤ length wdata
    → length wdata < i + n + ofs
    → copy_in n i ofs bytes wdata ≡ faults
unfolding copy_in
copy_in_past zero i ofs bytes wdata enough start past = absurd (omega arith)
copy_in_past (suc n) i ofs bytes wdata enough start past = elim (dec_lt (i + ofs) (length wdata)) [
  | yes inside ↦
      let b = get_or bytes i 0 in
      let len = length-set wdata (i + ofs) b in
      rw (load-eq bytes i 0 (omega arith), store-eq wdata (i + ofs) b inside)
        (copy_in_past n (i + 1) ofs bytes (set wdata (i + ofs) b) (omega arith) (omega (arith, len))
          (omega (arith, len)))
  | no outside ↦
      rw (
        load-eq bytes i 0 (omega arith),
        store-past wdata (i + ofs) (get_or bytes i 0) (omega arith),
      )
]

module _ (node tid addr n : ℕ) (bytes : List ℕ) where
  -- The request for an access of 1, 2 or 4 bytes that does not cross an 8-byte line is made
  -- without a fault: it carries the line's address, the source and the transaction, its lanes are
  -- the offset in the line and the size, it is one word long, and a write has put the caller's bytes behind the offset.
  pub send_req_lem :
      (write : Bool)
      → IsSize n
      → node < 65536
      → addr < word_mod
      → addr % 8 + n ≤ 8
      → n ≤ length bytes
      → (req : Request) × (send_req node tid addr bytes n write ≡ returns req)
        × (req.address ≡ addr - addr % 8)
        × (req.srcid ≡ node)
        × (req.trdid ≡ tid)
        × (req.cmd ≡ (if write then cmd_write else cmd_read))
        × (lanes req.be ≡ (addr % 8, n))
        × (req.be ≡ lane_mask n (addr % 8))
        × (req.plen ≡ 1)
        × (length req.wdata ≡ 8)
        × (write ≡ true → (k : ℕ) → k < n → get_or req.wdata (k + addr % 8) 0 ≡ get_or bytes k 0)
  unfolding send_req
  send_req_lem write size small word line enough =
      let (mask, (entry, back, marks)) = operation_mask_lem n (addr % 8) size line in
      let (out, runs, c) =
        copy_in_lem n 0 (addr % 8) bytes (replicate 8 0) (omega arith) (omega arith) in
      let wdata : List ℕ = if write then out else replicate 8 0 in
      (
        request n write mask wdata,
        rw
            (
              ltb_of_le 4 n (omega arith),
              entry,
              bit_and_seven addr,
              bit_and_not_seven addr word,
              filled write out runs,
            )
            refl,
        refl,
        omega arith,
        refl,
        refl,
        back,
        marks,
        omega arith,
        width write out c,
        λ writes k h. stored write writes out c k h,
      )
    where
      request : ℕ → Bool → ℕ → List ℕ → Request
      request n write mask wdata = record {
        address = addr - addr % 8;
        be = mask * 2 ^ (addr % 8) % 256;
        cmd = if write then cmd_write else cmd_read;
        wdata = wdata;
        eop = true;
        plen = (n + 3) % word_mod / 4 % 256;
        srcid = node % 65536;
        trdid = tid;
        initial_address = 0;
        slave_id = 0;
      }

      filled :
          (write : Bool) (out : List ℕ)
          → copy_in n 0 (addr % 8) bytes (replicate 8 0) ≡ returns out
          → (if write
              then copy_in n 0 (addr % 8) bytes (replicate 8 0)
              else returns (replicate 8 0))
            ≡ returns (if write then out else replicate 8 0)
      filled true out runs = runs
      filled false out runs = refl

      width :
          (write : Bool) (out : List ℕ)
          → Copied n 0 (addr % 8) bytes (replicate 8 0) out
          → length (if write then out else replicate 8 0) ≡ 8
      width true out c = c.width
      width false out c = refl

      stored :
          (write : Bool)
          → write ≡ true
          → (out : List ℕ) → Copied n 0 (addr % 8) bytes (replicate 8 0) out
          → (k : ℕ) → k < n
          → get_or (if write then out else replicate 8 0) (k + addr % 8) 0 ≡ get_or bytes k 0
      stored true writes out c k h = let at : 0 + k ≡ k = omega arith in rw at at (c.copied k h)
      stored false writes out c k h = cc

  -- A write that crosses an 8-byte line stores past the end of `wdata`.
  send_req_crossing :
      IsSize n
      → addr < word_mod
      → 8 < addr % 8 + n
      → n ≤ length bytes
      → send_req node tid addr bytes n true ≡ faults
  unfolding send_req
  send_req_crossing size word line enough =
      let small : n < 9 = omega arith in
      rw
        (
          ltb_of_le 4 n (omega arith),
          load-eq operation_mask_be n 0 (omega arith),
          bit_and_seven addr,
          copy_in_past n 0 (addr % 8) bytes (replicate 8 0) (omega arith) (omega arith)
              (omega arith),
        )
        refl

-- A master whose number has 16 bits makes a request of 1, 2 or 4 bytes, at an address of 32 bits, that
-- stays inside a line of 8 bytes, with at least as many bytes of data. A response that carries the request's
-- source, transaction and lanes and has its end of packet set is taken by that master, as one to a read
-- of the request's transaction and with the response's error, and its data are read from the byte that
-- the request's address names.
pub receive_lem :
    (node tid addr n : ℕ) (bytes : List ℕ) (write : Bool) {req : Request} (rsp : Response)
    → IsSize n
    → node < 65536
    → addr < word_mod
    → addr % 8 + n ≤ 8
    → n ≤ length bytes
    → send_req node tid addr bytes n write ≡ returns req
    → rsp.rsrcid ≡ req.srcid
    → rsp.rtrdid ≡ req.trdid
    → rsp.rbe ≡ req.be
    → rsp.reop ≡ true
    → receive node rsp
      ≡ some (record {
        tid = tid;
        bytes = rsp.rdata;
        start = addr % 8;
        error = rsp.rerror;
        write = false;
      })
unfolding receive
receive_lem node tid addr n bytes write {req} rsp size small word line enough made src trd be eop =
    let (q, makes, at, source, transaction, cmd, back, marks, one_word, rest, wide) =
      send_req_lem node tid addr n bytes write size small word line enough in
    ground arith
