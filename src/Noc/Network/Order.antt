-- ===== src/Noc/Network/Order.antt =====
-- The requests on their way from one master to one slave, in the network over queues.
use rabbits.Base.{
  ℕ, ◌≡◌, refl, ap, ◌∙◌, List, [], ◌∷◌, ◌++◌, Option, none, some, ◌==◌, if◌then◌else◌, Outcome,
  returns, exits, faults, arith,
}
use rabbits.Noc.Packet.{Request, Response}
use rabbits.Noc.Routing.{MapEl, translate}
use rabbits.Noc.Routing.Decode.{All}
use rabbits.Noc.Network.{Network, Event, master_put, slave_get, Note, moved, request, note}

abbrev pub Net : Type 0
Net = Network (List Request) (List Response)

-- The requests of a list that carry the source `i`.
abbrev pub keep_from : ℕ → Request → List Request → List Request
keep_from i q rest = if q.srcid == i then q ∷ rest else rest

abbrev pub select : ℕ → List Request → List Request
select i [] = []
select i (q ∷ qs) = keep_from i q (select i qs)

-- What a list of requests becomes at the slave `j`, by a master's map.
abbrev pub arrive : ℕ → Outcome Request → List Request → List Request
arrive j (returns out) rest = if out.slave_id == j then out ∷ rest else rest
arrive j exits rest = rest
arrive j faults rest = rest

abbrev pub routed : ℕ → List MapEl → List Request → List Request
routed j map [] = []
routed j map (q ∷ qs) = arrive j (translate map q) (routed j map qs)

abbrev pub holding : Option Request → List Request → List Request
holding none qs = qs
holding (some q) qs = q ∷ qs

-- The requests between the master `i` and the slave `j`, as they are to arrive.
abbrev pub flight : ℕ → ℕ → List Request → List MapEl → Option Request → List Request → List Request
flight i j at_slave map held at_master = select i at_slave ++ routed j map (holding held at_master)

abbrev pub in_flight : Net → ℕ → ℕ → List Request
in_flight n i j =
    flight i j (n.slaves j).requests (n.masters i).map (n.masters i).held (n.masters i).requests

-- What an event takes from the network for the slave `j`, of the source `i`.
abbrev pub taken : ℕ → ℕ → Event → Note → List Request
taken i j (slave_get k) (request q) = if k == j then keep_from i q [] else []
taken i j e note = []

-- What an event brings into it at the master `i`, as it is to arrive.
abbrev pub sent : ℕ → ℕ → List MapEl → Event → Note → List Request
sent i j map (master_put k q) moved = if k == i then routed j map (q ∷ []) else []
sent i j map e note = []

pub keep_from-append :
    (i : ℕ) (q : Request) (xs ys : List Request) → keep_from i q (xs ++ ys) ≡ keep_from i q xs ++ ys
keep_from-append i q xs ys = ground arith

pub arrive-append :
    (j : ℕ) (o : Outcome Request) (xs ys : List Request)
    → arrive j o (xs ++ ys) ≡ arrive j o xs ++ ys
arrive-append j (returns out) xs ys = ground arith
arrive-append j exits xs ys = refl
arrive-append j faults xs ys = refl

pub select-append :
    (i : ℕ) (xs ys : List Request) → select i (xs ++ ys) ≡ select i xs ++ select i ys
select-append i [] ys = refl
select-append i (x ∷ xs) ys =
    ap (keep_from i x) (select-append i xs ys) ∙ keep_from-append i x (select i xs) (select i ys)

pub routed-append :
    (j : ℕ) (map : List MapEl) (xs ys : List Request)
    → routed j map (xs ++ ys) ≡ routed j map xs ++ routed j map ys
routed-append j map [] ys = refl
routed-append j map (x ∷ xs) ys =
    ap (arrive j (translate map x)) (routed-append j map xs ys)
    ∙ arrive-append j (translate map x) (routed j map xs) (routed j map ys)

pub holding-append :
    (o : Option Request) (xs ys : List Request) → holding o (xs ++ ys) ≡ holding o xs ++ ys
holding-append none xs ys = refl
holding-append (some q) xs ys = refl

-- The requests of a master's node, the one that its thread holds first.
abbrev pub waiting : Net → ℕ → List Request
waiting n i = holding (n.masters i).held (n.masters i).requests

-- Every request that a master's node has stands under the master's own number.
abbrev pub Stamped : Net → Type 0
Stamped n = (i : ℕ) → All (λ q. q.srcid ≡ i) (waiting n i)

-- A device puts only requests under its node's number.
abbrev pub Stamps : Event → Type 0
Stamps (master_put k q) = q.srcid ≡ k
Stamps e = Unit
