-- ===== src/Devices/BlockDevice/Control/Loads.antt =====
-- The loop that fetches from the memory behind the network what a write puts into the file.
use rabbits.Base.{
  ℕ, ◌+◌, ◌-◌, ◌%◌, ◌≤◌, ◌<◌, ◌≡◌, refl, ◌∙◌, inr, false, ◌&&◌, List, [], ◌∷◌, Option, none, some,
  ltb, leb, if◌then◌else◌, returns, length, get_or, arith, ap, replicate,
}
use rabbits.Move.{blit, move-eq, get_or-blit}
use rabbits.Noc.Packet.{Request, word_mod}
use rabbits.Master.{Received, send_req, lanes}
use rabbits.Master.Lanes.{send_req_lem}
use rabbits.Devices.BlockDevice.Control.{BusMaster, rcv_rsp}
use rabbits.Devices.BlockDevice.Control.Transfer.{Accepts}

-- A response brings the bytes of the memory that its request selects.
abbrev pub Brings : (ℕ → ℕ) → ℕ → ℕ × ℕ → Received → Type 0
Brings mem line (ofs, n) r = (k : ℕ) → k < n → get_or r.bytes (r.start + k) 0 ≡ mem (line + ofs + k)

-- The responses are those of a memory to the requests.
abbrev pub Served : (ℕ → ℕ) → List (Option Request) → List Received → Type 0
Served mem (some q ∷ qs) (r ∷ rs) = Brings mem q.address (lanes q.be) r × Served mem qs rs
Served mem (none ∷ qs) rs = Unit
Served mem [] rs = Unit
Served mem (some q ∷ qs) [] = Unit

-- The four bytes that the bus master keeps of a response.
abbrev pub kept : Received → List ℕ
kept r = blit 4 r.bytes r.start (replicate 4 0) 0

-- One command asks for the word behind the offset.
pub send_req-Brings :
    (node tid addr offset : ℕ)
    → node < 65536
    → addr + offset < word_mod
    → (addr + offset) % 4 ≡ 0
    → (q : Request) × (send_req node tid ((addr + offset) % word_mod) [] 4 false ≡ returns q)
      × ((mem : ℕ → ℕ) (r : Received)
          → Brings mem q.address (lanes q.be) r
          → (k : ℕ) → k < 4
          → get_or r.bytes (r.start + k) 0 ≡ mem (addr + offset + k))
unfolding send_req
send_req-Brings node tid addr offset small word aligned =
    let whole : (addr + offset) % word_mod ≡ addr + offset = omega arith in
    let (q, made, at, source, transaction, cmd, back, marks, one_word, wide, copied) =
      send_req_lem node tid (addr + offset) 4 (replicate 4 0) false (inr (inr refl)) small word
        (omega arith) (omega arith) in
    (
      q,
      ap (λ x. send_req node tid x [] 4 false) whole ∙ made,
      λ mem r brings k low. brought mem r q (rw (back, at) at brings) k low,
    )
  where
    brought :
        (mem : ℕ → ℕ) (r : Received) (q : Request)
        → Brings mem (addr + offset - (addr + offset) % 8) ((addr + offset) % 8, 4) r
        → (k : ℕ) → k < 4
        → get_or r.bytes (r.start + k) 0 ≡ mem (addr + offset + k)
    brought mem r q brings k low =
        let there : addr + offset - (addr + offset) % 8 + (addr + offset) % 8 + k
            ≡ addr + offset + k =
          omega arith in
        brings k low ∙ ap mem there

pub rcv_rsp-kept :
    (b : BusMaster) (r : Received)
    → Accepts 4 r
    → rcv_rsp (record b { tr_nbytes = 4; tr_rdata = replicate 4 0 }) r
      ≡ returns (record b {
        tr_nbytes = 4;
        tr_rdata = kept r;
        status = 1;
        crt_tid = (b.crt_tid + 1) % 256;
      })
unfolding rcv_rsp
rcv_rsp-kept b r accepts =
    let room = accepts.room in
    rw
      (
        accepts.write,
        accepts.error,
        move-eq 4 r.bytes r.start (replicate 4 0) 0 (omega arith) (omega arith),
      )
      refl

get_or-kept : (r : Received) (k : ℕ) → k < 4 → get_or (kept r) k 0 ≡ get_or r.bytes (r.start + k) 0
get_or-kept r k low = get_or-blit 4 r.bytes r.start (replicate 4 0) 0 k (omega arith) ∙ ground arith

-- The buffer with a response at `offset`.
abbrev pub put_at : List ℕ → ℕ → Received → List ℕ
put_at buf offset r = blit 4 (kept r) 0 buf offset

pub get_or-put_at :
    (buf : List ℕ) (offset : ℕ) (r : Received) (j : ℕ)
    → offset + 4 ≤ length buf
    → get_or (put_at buf offset r) j 0 ≡ (
        if leb offset j && ltb j (offset + 4)
        then get_or r.bytes (r.start + (j - offset)) 0
        else get_or buf j 0)
get_or-put_at buf offset r j room =
    get_or-blit 4 (kept r) 0 buf offset j room
    ∙ ground (
      arith,
      λ (low : j - offset < 4).
          let at : 0 + (j - offset) ≡ j - offset = omega arith in
          ap (λ i. get_or (kept r) i 0) at ∙ get_or-kept r (j - offset) low,
    )
