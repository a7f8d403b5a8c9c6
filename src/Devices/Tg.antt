-- ===== src/Devices/Tg.antt =====
-- tg_device.{h,cpp}: a source of traffic that plays a file over and over. The file is the list of its
-- bytes, with the position of the stream.
pub mod Cycle
mod Tests
use rabbits.Base.{
  ℕ, zero, suc, ◌+◌, ◌-◌, ◌/◌, ◌%◌, ◌^◌, Bool, true, false, List, [], ◌∷◌, Option, none, some, ◌==◌,
  ltb, if◌then◌else◌, Outcome, returns, exits, faults, ◌>>=◌, length, get_elem?, set,
}
use rabbits.Bytes.{set_word32}
use rabbits.Slave.{Served, Device}

-- The modulus of `unsigned long`.
abbrev pub word_mod : ℕ
word_mod = 2 ^ 32

-- `tg_device`, with the position in `tg_file`.
pub record Tg : Type 0 where
  pub file : List ℕ
  pub pos : ℕ
  pub bytes_left : ℕ

-- `ftell` at the end of the file: a `long` of 32 bits, which is -1 where the length does not fit.
abbrev pub ftell : List ℕ → ℕ
ftell file = if ltb (length file) (2 ^ 31) then length file else word_mod - 1

unfoldable pub reset_input : Tg → Tg
reset_input t = record t { bytes_left = (t.bytes_left + ftell t.file) % word_mod; pos = 0 }

-- The constructor, by what `fopen` gives: `none` for NULL.
pub new : Option (List ℕ) → Outcome Tg
new none = exits
new (some file) = returns (reset_input (record { file = file; pos = 0; bytes_left = 0 }))

-- `reset_input ()` where nothing is left.
abbrev pub refill : Tg → Tg
refill t = if t.bytes_left == 0 then reset_input t else t

-- `fread` of one byte into `data + i`, which at the end of the file reads none.
abbrev pub fread : Option ℕ → Tg → ℕ → List ℕ → List ℕ × Tg
fread none t i bytes = (bytes, t)
fread (some b) t i bytes = (set bytes i b, record t { pos = t.pos + 1 })

-- One round of the loop over the four bytes.
pub read_byte : Tg → ℕ → List ℕ → List ℕ × Tg
read_byte t i bytes =
    let r = refill t in
    let (bytes', r') = fread (get_elem? r.file r.pos) r i bytes in
    (bytes', record r' { bytes_left = (r'.bytes_left + word_mod - 1) % word_mod })

-- `n` rounds from the byte `i` on.
pub read_bytes : ℕ → Tg → ℕ → List ℕ → List ℕ × Tg
read_bytes zero t i bytes = (bytes, t)
read_bytes (suc n) t i bytes = let r = read_byte t i bytes in read_bytes n r.1 (i + 1) r.0

pub write : Tg → ℕ → Outcome Tg
write t ofs = if ofs == 0x480 then returns t else exits

pub read : Tg → ℕ → List ℕ → Outcome (List ℕ × Tg)
read t ofs bytes =
    let zeroed = set_word32 (set_word32 bytes 0 0) 1 0 in
    if ofs == 0x00
    then returns (read_bytes 4 t 0 zeroed)
    else if ofs == 0x80
    then returns (set_word32 zeroed 0 (((refill t).bytes_left + 3) % word_mod / 4), refill t)
    else exits

pub rcv_rqst : Device Tg
rcv_rqst t ofs be bytes true = do
  t' ← write t ofs
  returns (record { state = t'; bytes = bytes; error = false })
rcv_rqst t ofs be bytes false = do
  (bytes', t') ← read t ofs bytes
  returns (record { state = t'; bytes = bytes'; error = false })
