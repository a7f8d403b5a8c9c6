-- ===== src/Devices/Mailbox/Tests.antt =====
-- The mailboxes at concrete inputs: a bank of two, and a message through the first.
use rabbits.Base.{ℕ, ◌≡◌, refl, inl, inr, true, false, List, [], ◌∷◌, returns, arith, store}
use rabbits.Bytes.{word32}
use rabbits.Noc.Packet.{Request}
use rabbits.Slave.{Slave, Sent, serve_all}
use rabbits.Slave.Protocol.{Idle, Sound, Replies, tags, answers, serve_all_lem}
use rabbits.Devices.Mailbox.{Mailbox, new, write, write_local, rcv_rqst}
use rabbits.Devices.Mailbox.Contract.{Mailbox-Contract}
use rabbits.Devices.Mailbox.Irq.{Inv, Legal}

abbrev message : List ℕ
message = 0x2A ∷ 0 ∷ 0 ∷ 0 ∷ 7 ∷ 1 ∷ 0 ∷ 0 ∷ []

-- A command to mailbox 0, a read of its status, and a command that the slaves do not know.
abbrev ring : Request
ring = record {
  address = 0;
  be = 0x0F;
  cmd = 2;
  wdata = message;
  eop = true;
  plen = 1;
  srcid = 1;
  trdid = 4;
  initial_address = 0;
  slave_id = 0;
}

abbrev poll : Request
poll = record ring { address = 8; be = 0xF0; cmd = 1; trdid = 5 }

abbrev lock : Request
lock = record ring { cmd = 3 }

abbrev bank : Mailbox
bank = record {
  command = 0 ∷ 0 ∷ [];
  message = 0 ∷ 0 ∷ [];
  status = 0 ∷ 0 ∷ [];
  reserved = 0 ∷ 0 ∷ [];
  global_reg = 0 ∷ 0 ∷ 0 ∷ 0 ∷ 0 ∷ 0 ∷ 0 ∷ 0 ∷ 0 ∷ 0 ∷ [];
  irq = false ∷ false ∷ [];
}

bank-new : new 2 ≡ bank
unfolding new
bank-new = refl

-- A command to mailbox 1, at offset 0x10.
abbrev rung : Mailbox
rung = record bank { command = 0 ∷ 42 ∷ []; status = 0 ∷ 1 ∷ []; irq = false ∷ true ∷ [] }

rings : write bank 0x10 0x0F message ≡ returns rung
unfolding write write_local word32 store
rings = refl

upper_word : write bank 0x10 0xF0 message ≡ returns (record bank { message = 0 ∷ 263 ∷ [] })
unfolding write write_local word32 store
upper_word = refl

bank-Inv : Inv 2 bank
bank-Inv = record {
  commands = refl;
  messages = refl;
  statuses = refl;
  reserves = refl;
  globals = refl;
  lines = refl;
  shows = (refl, (refl, tt));
}

abbrev idle : Slave Mailbox
idle = record {
  dev = bank;
  req = ring;
  rsp = record { rdata = message; reop = false; rerror = false; rsrcid = 0; rtrdid = 0; rbe = 0 };
  processing = false;
  write_invalidate = false;
}

idle-Idle : Idle (Inv 2) idle
idle-Idle = record { ready = refl; device = bank-Inv; width = refl }

ring-Sound : Sound (Legal 2) ring
ring-Sound = record { known = inr refl; legal = inl (omega arith); width = refl }

poll-Sound : Sound (Legal 2) poll
poll-Sound = record { known = inl refl; legal = inl (omega arith); width = refl }

-- The first mailbox is rung and then polled.
serve_all_lem_example :
    (s' : Slave Mailbox) × (sent : List Sent) × (serve_all rcv_rqst idle (ring ∷ poll ∷ [])
      ≡ returns (s', sent))
    × Idle (Inv 2) s'
    × (answers sent ≡ tags (ring ∷ poll ∷ []))
    × Replies rcv_rqst idle.dev (ring ∷ poll ∷ []) sent s'.dev
serve_all_lem_example =
    serve_all_lem (Mailbox-Contract 2) (ring ∷ poll ∷ []) idle idle-Idle
      (ring-Sound, (poll-Sound, tt))

-- A locked read is a command that no slave knows.
