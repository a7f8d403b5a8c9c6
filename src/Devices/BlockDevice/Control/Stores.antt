-- ===== src/Devices/BlockDevice/Control/Stores.antt =====
-- What the requests of a read do to the memory behind the network.
use rabbits.Base.{
  ℕ, ◌+◌, ◌-◌, ◌%◌, ◌≤◌, ◌<◌, ◌≡◌, refl, ◌∙◌, true, ◌&&◌, List, [], ◌∷◌, Option, none, some, ltb,
  leb, if◌then◌else◌, returns, length, get_or, drop, get_or-drop, length-drop, arith, ap,
}
use rabbits.Noc.Packet.{Request, word_mod}
use rabbits.Master.{send_req, lanes}
use rabbits.Master.Marks.{IsSize}
use rabbits.Master.Lanes.{send_req_lem}

-- A memory that takes the bytes of a request that its lanes select.
abbrev pub stored : (ℕ → ℕ) → ℕ → ℕ × ℕ → List ℕ → ℕ → ℕ
stored mem line (ofs, n) wdata a =
    if leb (line + ofs) a && ltb a (line + ofs + n) then get_or wdata (a - line) 0 else mem a

abbrev pub store_request : (ℕ → ℕ) → Option Request → ℕ → ℕ
store_request mem none = mem
store_request mem (some q) = stored mem q.address (lanes q.be) q.wdata

abbrev pub store_requests : (ℕ → ℕ) → List (Option Request) → ℕ → ℕ
store_requests mem [] = mem
store_requests mem (q ∷ qs) = store_requests (store_request mem q) qs

-- A memory with the first `n` bytes of a buffer at `addr`.
abbrev pub patched : (ℕ → ℕ) → ℕ → List ℕ → ℕ → ℕ → ℕ
patched mem addr buf n a = if leb addr a && ltb a (addr + n) then get_or buf (a - addr) 0 else mem a

-- One command stores the next `w` bytes of the buffer.
pub send_req-stored :
    (node tid addr : ℕ) (buf : List ℕ) (offset w : ℕ)
    → IsSize w
    → node < 65536
    → addr + offset < word_mod
    → (addr + offset) % 8 + w ≤ 8
    → offset + w ≤ length buf
    → (q : Request) × (send_req node tid ((addr + offset) % word_mod) (drop offset buf) w true
        ≡ returns q)
      × ((mem m : ℕ → ℕ)
          → ((a : ℕ) → m a ≡ patched mem addr buf offset a)
          → (a : ℕ) → store_request m (some q) a ≡ patched mem addr buf (offset + w) a)
send_req-stored node tid addr buf offset w size small word line room =
    let whole : (addr + offset) % word_mod ≡ addr + offset = omega arith in
    let left = length-drop offset buf in
    let (q, made, at, source, transaction, cmd, back, marks, one_word, wide, copied) =
      send_req_lem node tid (addr + offset) w (drop offset buf) true size small word line
        (omega (arith, left)) in
    (
      q,
      ap (λ x. send_req node tid x (drop offset buf) w true) whole ∙ made,
      λ mem m before a.
          rw (back, at)
            (bytes mem m q.wdata before (λ k h. copied refl k h ∙ get_or-drop offset buf k 0) a),
    )
  where
    bytes :
        (mem m : ℕ → ℕ) (wdata : List ℕ)
        → ((a : ℕ) → m a ≡ patched mem addr buf offset a)
        → ((k : ℕ) → k < w → get_or wdata (k + (addr + offset) % 8) 0 ≡ get_or buf (offset + k) 0)
        → (a : ℕ)
        → stored m (addr + offset - (addr + offset) % 8) ((addr + offset) % 8, w) wdata a
          ≡ patched mem addr buf (offset + w) a
    bytes mem m wdata before copied a =
        let start = addr + offset in
        let line = start - start % 8 in
        let k = a - start in
        ground (
          arith,
          before a,
          λ (h : start ≤ a) (l : a < start + w).
              let index : a - line ≡ k + start % 8 = omega arith in
              let source : offset + k ≡ a - addr = omega arith in
              let inside : k < w = omega arith in
              ap (λ i. get_or wdata i 0) index ∙ copied k inside ∙ ap (λ i. get_or buf i 0) source,
        )
