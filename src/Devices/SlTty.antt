-- ===== src/Devices/SlTty.antt =====
-- sl_tty_device.{h,cpp} and tty_device.{h,cpp}: the writes to the terminals. A terminal, which is a
-- process behind a pipe, is the list of the bytes that it has been sent. The class of tty_device
-- leaves `rcv_rqst` to a subclass.
mod Output
mod Tests
use rabbits.Base.{
  ℕ, ◌+◌, ◌*◌, ◌/◌, ◌%◌, ◌^◌, Bool, true, false, Option, none, some, List, [], ◌∷◌, ◌++◌, Outcome,
  returns, exits, ◌>>=◌, length, load, store, replicate, leb, ◌==◌, if◌then◌else◌,
}
use rabbits.Bytes.{word32, lane, reg_index}
use rabbits.Slave.{Served, Device}

abbrev pub tty_span : ℕ
tty_span = 4

pub record SlTty : Type 0 where
  pub terminals : List (List ℕ)

unfoldable pub new : ℕ → SlTty
new ntty = record { terminals = replicate ntty [] }

-- `::write (pout[tty], &value, 1)`: the pipes are an array.
unfoldable pub put_char : SlTty → (tty value : ℕ) → Outcome SlTty
put_char s tty value = do
  sent ← load s.terminals tty
  terminals ← store s.terminals tty (sent ++ value % 256 ∷ [])
  returns (record s { terminals = terminals })

-- The number of the terminal is an `unsigned char`.
abbrev pub tty_of : (word : ℕ) → ℕ
tty_of word = word / tty_span % 256

unfoldable pub write : SlTty → (ofs be : ℕ) → List ℕ → Outcome SlTty
write s ofs be bytes =
    let word = reg_index ofs be % 2 ^ 32 in
    if leb (length s.terminals) (tty_of word)
    then exits
    else if word % tty_span == 0
    then put_char s (tty_of word) (word32 bytes (lane be))
    else exits

-- A read clears the data, and ends the simulation.
unfoldable pub rcv_rqst : Device SlTty
rcv_rqst s ofs be bytes true = do
  s' ← write s ofs be bytes
  returns (record { state = s'; bytes = bytes; error = false })
rcv_rqst s ofs be bytes false = exits

-- `tty_device::write` takes the terminal from the lane that is up, and never compares it with the
-- number of terminals.
unfoldable pub one_lane : ℕ → Option ℕ
one_lane be =
    if be == 0x01
    then some 0
    else if be == 0x02
    then some 1
    else if be == 0x04
    then some 2
    else if be == 0x08
    then some 3
    else if be == 0x10
    then some 4
    else if be == 0x20
    then some 5
    else if be == 0x40
    then some 6
    else if be == 0x80
    then some 7
    else none

abbrev pub put_lane : SlTty → List ℕ → Option ℕ → Outcome SlTty
put_lane s bytes none = exits
put_lane s bytes (some tty) = load bytes tty >>= λ value. put_char s tty value

unfoldable pub tty_write : SlTty → (ofs be : ℕ) → List ℕ → Outcome SlTty
tty_write s ofs be bytes = if ofs == 0 then put_lane s bytes (one_lane be) else exits

-- The `switch` of `tty_device::read` has its default case alone.
abbrev pub tty_read : SlTty → (ofs be : ℕ) → List ℕ → Outcome SlTty
tty_read s ofs be bytes = exits

-- A driver's writes, each to the write register of a terminal.
pub record Print : Type 0 where
  pub tty : ℕ
  pub packet : List ℕ

unfoldable pub print_all : SlTty → List Print → Outcome SlTty
print_all s [] = returns s
print_all s (p ∷ ps) = write s (16 * p.tty) 0x0F p.packet >>= λ t. print_all t ps
