-- ===== src/Slave/Protocol.antt =====
-- What the network sees of a slave: one response to each request, in order.
use rabbits.Base.{
  ℕ, Bool, true, false, ◌≡◌, ◌⊎◌, inl, inr, refl, arith, List, [], ◌∷◌, Option, none, some, ◌==◌,
  Outcome, ap, sym, ap₂, ==_of_ne, returns, length,
}
use mathlib.Core.Bool.{true≢false}
use rabbits.Noc.Packet.{Request, Response, cmd_read, cmd_write}
use rabbits.Slave.{
  Served, Device, Slave, Sent, quiet, accept, serve_write, serve_read, finish_write, finish_read,
  serve, serve_all,
}

-- The interface of the devices: from a state that meets the invariant, a legal access to 8 bytes
-- returns to such a state and leaves 8 bytes.
pub record Contract {S : Type 0} (rcv_rqst : Device S) (Inv : S → Type 0)
    (Legal : ℕ → ℕ → Bool → Type 0) : Type 0 where
  pub serves :
      (s : S) (ofs be : ℕ) (bytes : List ℕ) (write : Bool)
      → Inv s
      → Legal ofs be write
      → length bytes ≡ 8
      → (r : Served S) × (rcv_rqst s ofs be bytes write ≡ returns r)
        × Inv r.state
        × (length r.bytes ≡ 8)

-- The part of a response by which the master knows its request.
pub record Tag : Type 0 where
  pub source : ℕ
  pub transaction : ℕ
  pub lanes : ℕ

abbrev pub tag_of_request : Request → Tag
tag_of_request q = record { source = q.srcid; transaction = q.trdid; lanes = q.be }

abbrev pub tag_of_response : Response → Tag
tag_of_response p = record { source = p.rsrcid; transaction = p.rtrdid; lanes = p.rbe }

abbrev pub tags : List Request → List (Option Tag)
tags [] = []
tags (q ∷ qs) = some (tag_of_request q) ∷ tags qs

abbrev tag_sent : Option Response → Option Tag
tag_sent none = none
tag_sent (some p) = some (tag_of_response p)

abbrev pub answers : List Sent → List (Option Tag)
answers [] = []
answers (m ∷ ms) = tag_sent m.response ∷ answers ms

-- The command is one that the `switch` knows.
abbrev pub Known : Request → Type 0
Known q = (q.cmd ≡ cmd_read) ⊎ (q.cmd ≡ cmd_write)

abbrev pub is_write : Request → Bool
is_write q = q.cmd == cmd_write

-- A request that the device may be sent.
pub record Sound (Legal : ℕ → ℕ → Bool → Type 0) (q : Request) : Type 0 where
  pub known : Known q
  pub legal : Legal q.address q.be (is_write q)
  pub width : length q.wdata ≡ 8

abbrev pub AllSound : (ℕ → ℕ → Bool → Type 0) → List Request → Type 0
AllSound Legal [] = Unit
AllSound Legal (q ∷ qs) = Sound Legal q × AllSound Legal qs

-- Nothing is sent for any of the requests.
abbrev pub silence : List Request → List Sent
silence [] = []
silence (q ∷ qs) = quiet ∷ silence qs

-- One request, which is a write or not, with what the slave sends for it: the device is called once,
-- with the data of a write, goes from `d` to `d'`, and the response has the error that the device
-- reports and, for a read, the bytes that it leaves.
pub record Reply {S : Type 0} (rcv_rqst : Device S) (d : S) (q : Request) (write : Bool) (m : Sent)
    (d' : S) : Type 0 where
  pub given : List ℕ
  pub served : Served S
  pub response : Response
  pub data_written : write ≡ true → given ≡ q.wdata
  pub calls : rcv_rqst d q.address q.be given write ≡ returns served
  pub state : served.state ≡ d'
  pub sent : m.response ≡ some response
  pub error : response.rerror ≡ served.error
  pub data_read : write ≡ false → response.rdata ≡ served.bytes

-- One reply for each request, each from the state of the device that the one before left.
abbrev pub Replies : {S : Type 0} → Device S → S → List Request → List Sent → S → Type 0
Replies {S} rcv_rqst d [] [] d'' = d ≡ d''
Replies {S} rcv_rqst d (q ∷ qs) (m ∷ ms) d'' =
    (d' : S) × Reply rcv_rqst d q (is_write q) m d' × Replies rcv_rqst d' qs ms d''
Replies {S} rcv_rqst d [] (m ∷ ms) d'' = ⊥
Replies {S} rcv_rqst d (q ∷ qs) [] d'' = ⊥

-- The slave is between two requests.
pub record Idle {S : Type 0} (Inv : S → Type 0) (s : Slave S) : Type 0 where
  pub ready : s.processing ≡ false
  pub device : Inv s.dev
  pub width : length s.rsp.rdata ≡ 8

module _ {S : Type 0} (rcv_rqst : Device S) (s : Slave S) (q : Request) where
  pub serve_of_read :
      s.processing ≡ false
      → q.cmd ≡ cmd_read
      → serve rcv_rqst s q ≡ serve_read rcv_rqst (accept s q)
  unfolding serve
  serve_of_read ready reads = ground arith

  pub serve_of_write :
      s.processing ≡ false
      → q.cmd ≡ cmd_write
      → serve rcv_rqst s q ≡ serve_write rcv_rqst (accept s q)
  unfolding serve
  serve_of_write ready writes = ground arith

module _ {S : Type 0} {rcv_rqst : Device S} {Inv : S → Type 0} {Legal : ℕ → ℕ → Bool → Type 0}
    (contract : Contract rcv_rqst Inv Legal) where
  -- How a round ends well.
  abbrev Answers : Outcome (Slave S × Sent) → S → Request → Bool → Type 0
  Answers round d q write =
      (s' : Slave S) × (sent : Sent) × (round ≡ returns (s', sent))
      × Idle Inv s'
      × (tag_sent sent.response ≡ some (tag_of_request q))
      × Reply rcv_rqst d q write sent s'.dev

  serve_write_lem :
      (s : Slave S) (q : Request)
      → Idle Inv s
      → Legal q.address q.be true
      → length q.wdata ≡ 8
      → Answers (serve_write rcv_rqst (accept s q)) s.dev q true
  unfolding serve_write accept finish_write
  serve_write_lem s q idle legal width =
      let (r, calls, inv, len) =
        contract.serves s.dev q.address q.be q.wdata true idle.device legal width in
      (
        (finish_write (accept s q) r).0,
        (finish_write (accept s q) r).1,
        rw calls,
        record { ready = refl; device = inv; width = idle.width },
        refl,
        record {
          given = q.wdata;
          served = r;
          response = record (accept s q).rsp { rerror = r.error };
          data_written = λ w. refl;
          calls = calls;
          state = refl;
          sent = refl;
          error = refl;
          data_read = λ w. absurd (true≢false w);
        },
      )

  serve_read_lem :
      (s : Slave S) (q : Request)
      → Idle Inv s
      → Legal q.address q.be false
      → Answers (serve_read rcv_rqst (accept s q)) s.dev q false
  unfolding serve_read accept finish_read
  serve_read_lem s q idle legal =
      let (r, calls, inv, len) =
        contract.serves s.dev q.address q.be s.rsp.rdata false idle.device legal idle.width in
      (
        (finish_read (accept s q) r).0,
        (finish_read (accept s q) r).1,
        rw calls,
        record { ready = refl; device = inv; width = len },
        refl,
        record {
          given = s.rsp.rdata;
          served = r;
          response = record (accept s q).rsp { rdata = r.bytes; rerror = r.error };
          data_written = λ w. absurd (true≢false (sym w));
          calls = calls;
          state = refl;
          sent = refl;
          error = refl;
          data_read = λ w. refl;
        },
      )

  serve_lem :
      (s : Slave S) (q : Request)
      → Idle Inv s
      → Sound Legal q
      → Answers (serve rcv_rqst s q) s.dev q (is_write q)
  serve_lem s q idle sound = elim sound.known [
    | inl reads ↦
        let legal : Legal q.address q.be false = rw reads at sound.legal in
        let reading : is_write q ≡ false = ap (λ c. c == cmd_write) reads in
        rw (serve_of_read rcv_rqst s q idle.ready reads, reading) (serve_read_lem s q idle legal)
    | inr writes ↦
        let legal : Legal q.address q.be true = rw writes at sound.legal in
        let writing : is_write q ≡ true = ap (λ c. c == cmd_write) writes in
        rw (serve_of_write rcv_rqst s q idle.ready writes, writing)
          (serve_write_lem s q idle legal sound.width)
  ]

  -- For a device with a `Contract` (a legal access to 8 bytes returns, keeps the invariant of the device
  -- and leaves 8 bytes): an idle slave, whose device has its invariant and whose response has 8 bytes
  -- of data, takes a list of requests that are reads or writes, legal for the device and with 8 bytes
  -- of data each. It answers all of them, in their order, with one response each, which carries the
  -- source, the transaction and the lanes of its request; for each the device is called once, on the
  -- state that the request before left and with the data of a write, and the response has the device's
  -- error and, for a read, the device's bytes. The slave is idle at the end.
  pub serve_all_lem :
      (qs : List Request) (s : Slave S)
      → Idle Inv s
      → AllSound Legal qs
      → (s' : Slave S) × (sent : List Sent) × (serve_all rcv_rqst s qs ≡ returns (s', sent))
        × Idle Inv s'
        × (answers sent ≡ tags qs)
        × Replies rcv_rqst s.dev qs sent s'.dev
  unfolding serve_all
  serve_all_lem [] s idle sound = (s, [], refl, idle, refl, refl)
  serve_all_lem (q ∷ qs) s idle sound =
      let (t, m, one, idle', tagged, reply) = serve_lem s q idle sound.0 in
      let (u, ms, rest, idle'', all_tagged, replies) = serve_all_lem qs t idle' sound.1 in
      (u, m ∷ ms, rw (one, rest), idle'', ap₂ ◌∷◌ tagged all_tagged, (t.dev, reply, replies))

module _ {S : Type 0} (rcv_rqst : Device S) where
  serve_busy :
      (s : Slave S) (q : Request)
      → s.processing ≡ true
      → serve rcv_rqst s q ≡ returns (record s { req = q }, quiet)
  unfolding serve
  serve_busy s q busy = rw busy

  busy_drops :
      (s : Slave S) (qs : List Request)
      → s.processing ≡ true
      → (s' : Slave S) × (serve_all rcv_rqst s qs ≡ returns (s', silence qs))
        × (s'.processing ≡ true)
        × (s'.dev ≡ s.dev)
  unfolding serve_all
  busy_drops s [] busy = (s, refl, busy, refl)
  busy_drops s (q ∷ qs) busy =
      let (t, drops, still, same) = busy_drops (record s { req = q }) qs busy in
      (t, rw (serve_busy s q busy, drops), still, same)

  -- A command that the `switch` does not know is never answered and blocks an idle slave: every
  -- request after it is dropped, whatever it is, and the device is not called again.
  unknown_blocks :
      (s : Slave S) (q : Request) (qs : List Request)
      → s.processing ≡ false
      → ¬ Known q
      → (s' : Slave S) × (serve_all rcv_rqst s (q ∷ qs) ≡ returns (s', silence (q ∷ qs)))
        × (s'.processing ≡ true)
        × (s'.dev ≡ s.dev)
  unfolding serve_all serve accept
  unknown_blocks s q qs ready unknown =
      let not_write = ==_of_ne q.cmd cmd_write (λ e. unknown (inr e)) in
      let not_read = ==_of_ne q.cmd cmd_read (λ e. unknown (inl e)) in
      let (t, drops, still, same) = busy_drops (accept s q) qs refl in
      (t, rw (ready, not_write, not_read, drops), still, same)
