-- ===== src/Noc/Network/Buffers.antt =====
-- The network over the ring buffers of the code, against the network over bounded queues.
use rabbits.Base.{ℕ, ◌+◌, ◌-◌, ◌≡◌, refl, ◌∙◌, List, [], Outcome, returns, arith}
use rabbits.Noc.Packet.{Request, Response}
use rabbits.Noc.Queue
use rabbits.Noc.Queue.{Op, Reply}
use rabbits.Noc.Fifo
use rabbits.Noc.Fifo.{Fifo}
use rabbits.Noc.Fifo.Refine.{Refines, new-Refines, apply-Refines}
use rabbits.Noc.Routing.{MapEl}
use rabbits.Noc.Network.{Network, Event, queue_depth, internal_init, run}
use rabbits.Noc.Network.Simulate.{Agree, As, run-Agree}

-- A bounded queue as the nodes use it.
abbrev pub bounded : {A : Type 0} → List A → Op A → Outcome (Reply A × List A)
bounded q op = returns (Queue.step queue_depth q op)

-- A ring buffer of the nodes' depth that holds a queue.
abbrev pub Buffers : {A : Type 0} → Fifo A → List A → Type 0
Buffers f q = Refines f q × (f.size ≡ queue_depth + 1)

pub apply-Agree :
    {A : Type 0} (f : Fifo A) (q : List A) (op : Op A)
    → Buffers f q
    → Agree Buffers (Fifo.apply f op) (bounded q op)
apply-Agree f q op (holds, sized) =
    let s = apply-Refines op holds in
    let depth : f.size - 1 ≡ queue_depth = omega arith in
    rw (s.runs, depth) (refl, (rw depth at s.holds, s.sized ∙ sized))

-- The two networks hold the same packets.
abbrev pub Same :
    Network (Fifo Request) (Fifo Response) → Network (List Request) (List Response) → Type 0
Same = As Fifo.apply Fifo.apply bounded bounded Buffers Buffers apply-Agree apply-Agree

new-Buffers : {A : Type 0} (junk : A) → Buffers (Fifo.new queue_depth junk) []
unfolding Fifo.new
new-Buffers junk = (new-Refines queue_depth junk, refl)

Same-start :
    (maps : ℕ → List MapEl) (nb_masters nb_slaves : ℕ) {rq : Fifo Request} {rs : Fifo Response}
    → Buffers rq []
    → Buffers rs []
    → Same
        (internal_init maps nb_masters nb_slaves rq rs)
        (internal_init maps nb_masters nb_slaves [] [])
unfolding internal_init
Same-start maps nb_masters nb_slaves requests responses = record {
  nb_masters = refl;
  masters = λ i. record { map = refl; requests = requests; responses = responses; held = refl };
  nb_slaves = refl;
  slaves = λ j. record { requests = requests; responses = responses; held = refl };
}

-- From its construction the network runs as one of queues of 8 packets runs: whatever its devices and
-- its threads do in whatever order, no ring buffer is left, and each call is answered alike, waits
-- alike, and ends the simulation or leaves the arrays of nodes alike.
pub network_run :
    (maps : ℕ → List MapEl) (nb_masters nb_slaves : ℕ) (q : Request) (p : Response)
    (es : List Event)
    → Agree Same
        (run Fifo.apply Fifo.apply
          (internal_init maps nb_masters nb_slaves
            (Fifo.new queue_depth q)
            (Fifo.new queue_depth p))
          es)
        (run bounded bounded (internal_init maps nb_masters nb_slaves [] []) es)
network_run maps nb_masters nb_slaves q p es =
    run-Agree Fifo.apply Fifo.apply bounded bounded Buffers Buffers apply-Agree apply-Agree es _ _
      (Same-start maps nb_masters nb_slaves (new-Buffers q) (new-Buffers p))
