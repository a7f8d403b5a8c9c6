-- ===== src/Noc/Packet.antt =====
-- abstract_noc.h: the VCI request and response packets and the commands.
use rabbits.Base.{ℕ, ◌^◌, Bool, List}

-- `vci_request`. A field of an unsigned type is the number that it holds; `wdata` holds 8 bytes.
pub record Request : Type 0 where
  pub address : ℕ
  pub be : ℕ
  pub cmd : ℕ
  pub wdata : List ℕ
  pub eop : Bool
  pub plen : ℕ
  pub srcid : ℕ
  pub trdid : ℕ
  pub initial_address : ℕ
  pub slave_id : ℕ

-- `vci_response`.
pub record Response : Type 0 where
  pub rdata : List ℕ
  pub reop : Bool
  pub rerror : Bool
  pub rsrcid : ℕ
  pub rtrdid : ℕ
  pub rbe : ℕ

-- The `CMD_*` enumeration.
abbrev pub cmd_nop : ℕ
cmd_nop = 0

abbrev pub cmd_read : ℕ
cmd_read = 1

abbrev pub cmd_write : ℕ
cmd_write = 2

abbrev pub cmd_locked_read : ℕ
cmd_locked_read = 3

-- The modulus of `unsigned long` and `uint32_t` on the simulator's 32-bit host.
abbrev pub word_mod : ℕ
word_mod = 2 ^ 32
