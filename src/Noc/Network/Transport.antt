-- ===== src/Noc/Network/Transport.antt =====
-- What leaves the network is what came into it, over any sequence of events.
use rabbits.Base.{
  Returns, ℕ, ◌≡◌, sym, ap, ◌∙◌, List, [], ◌∷◌, ◌++◌, Outcome, returns, exits, faults, ◌>>=◌,
}
use mathlib.Core.List.{append_assoc, append-nil}
use mathlib.Core.Path.{subst}
use rabbits.Noc.Packet.{Request, Response}
use rabbits.Noc.Routing.{MapEl}
use rabbits.Noc.Routing.Decode.{All}
use rabbits.Noc.Network.{Network, Event, Note, queue_depth, internal_init, step, run}
use rabbits.Noc.Network.Simulate.{Agree}
use rabbits.Noc.Network.Buffers.{bounded, Same, network_run}
use rabbits.Noc.Network.Order.{Net, in_flight, taken, sent, Stamped, Stamps}
use rabbits.Noc.Network.Flow.{Ensures}
use rabbits.Noc.Network.Delivery.{Flows, step-Flows}
use rabbits.Noc.Fifo

-- The requests of the source `i` that the device behind the slave `j` was given, in order.
abbrev pub takens : ℕ → ℕ → List Event → List Note → List Request
takens i j (e ∷ es) (said ∷ notes) = taken i j e said ++ takens i j es notes
takens i j [] notes = []
takens i j (e ∷ es) [] = []

-- The requests that the master `i` accepted and that its map sends to the slave `j`, translated.
abbrev pub sents : ℕ → ℕ → List MapEl → List Event → List Note → List Request
sents i j map (e ∷ es) (said ∷ notes) = sent i j map e said ++ sents i j map es notes
sents i j map [] notes = []
sents i j map (e ∷ es) [] = []

-- What a run has done to the requests, by what was said of each event.
abbrev Carries : Net → List Event → List Note × Net → Type 0
Carries n es (notes, n') =
    (i j : ℕ)
    → takens i j es notes ++ in_flight n' i j
      ≡ in_flight n i j ++ sents i j (n.masters i).map es notes

step-Carries :
    (n n' n'' : Net) (e : Event) (es : List Event) (said : Note) (notes : List Note)
    → Flows n e said n'
    → Carries n' es (notes, n'')
    → Carries n (e ∷ es) (said ∷ notes, n'')
step-Carries n n' n'' e es said notes now later i j =
    let map : List MapEl = (n.masters i).map in
    append_assoc (taken i j e said) (takens i j es notes) (in_flight n'' i j)
    ∙ ap (λ qs. taken i j e said ++ qs) (later i j)
    ∙ ap (λ m. taken i j e said ++ (in_flight n' i j ++ sents i j m es notes)) (now.maps i)
    ∙ sym (append_assoc (taken i j e said) (in_flight n' i j) (sents i j map es notes))
    ∙ ap (λ qs. qs ++ sents i j map es notes) (now.order i j)
    ∙ append_assoc (in_flight n i j) (sent i j map e said) (sents i j map es notes)

after_step :
    (n n' : Net) (e : Event) (es : List Event) (said : Note) (o : Outcome (List Note × Net))
    → Flows n e said n'
    → Returns (Carries n' es) o
    → Returns (Carries n (e ∷ es)) (o >>= λ r. returns (said ∷ r.0, r.1))
after_step n n' e es said (returns (notes, n'')) now later =
    step-Carries n n' n'' e es said notes now later
after_step n n' e es said exits now later = tt
after_step n n' e es said faults now later = tt

after_steps :
    (n : Net) (e : Event) (es : List Event) (o : Outcome (Note × Net))
    (next : Net → Outcome (List Note × Net))
    → Ensures (λ said n'. Flows n e said n') o
    → ((n' : Net) → Stamped n' → Returns (Carries n' es) (next n'))
    → Returns (Carries n (e ∷ es)) (o >>= λ s. next s.1 >>= λ r. returns (s.0 ∷ r.0, r.1))
after_steps n e es (returns (said, n')) next now later =
    after_step n n' e es said (next n') now (later n' now.stamped)
after_steps n e es exits next now later = tt
after_steps n e es faults next now later = tt

run-Carries :
    (es : List Event) (n : Net)
    → Stamped n
    → All Stamps es
    → Returns (Carries n es) (run bounded bounded n es)
unfolding run
run-Carries [] n stamped own = λ i j. sym (append-nil (in_flight n i j))
run-Carries (e ∷ es) n stamped (own, rest) =
    after_steps n e es (step bounded bounded n e) (λ n'. run bounded bounded n' es)
      (step-Flows n e stamped own) (λ n' h. run-Carries es n' h rest)

-- What a call that returns agrees with returns as well.
returned :
    {X F Q : Type 0} (R : F → Q → Type 0) (x : X) (f : F) (P : X × Q → Type 0) (o : Outcome (X × Q))
    → Agree R (returns (x, f)) o
    → Returns P o
    → (q : Q) × R f q × P (x, q)
returned R x f P (returns (y, q)) (same, related) h =
    (q, related, subst (λ z. P (z, q)) (sym same) h)
returned R x f P exits agree h = absurd agree
returned R x f P faults agree h = absurd agree

starts-Stamped :
    (maps : ℕ → List MapEl) (nb_masters nb_slaves : ℕ)
    → Stamped (internal_init maps nb_masters nb_slaves [] [])
unfolding internal_init
starts-Stamped maps nb_masters nb_slaves i = tt

starts-Carries :
    (maps : ℕ → List MapEl) (nb_masters nb_slaves : ℕ) (es : List Event) (notes : List Note)
    (m : Net)
    → Carries (internal_init maps nb_masters nb_slaves [] []) es (notes, m)
    → (i j : ℕ) → takens i j es notes ++ in_flight m i j ≡ sents i j (maps i) es notes
unfolding internal_init
starts-Carries maps nb_masters nb_slaves es notes m carried = carried

-- The network over its ring buffers, from its construction, where each device puts its requests under
-- its own node's number: over any sequence of puts, gets and steps of the threads that returns, the
-- requests of the master `i` that the slave `j` has handed to its device, followed by the ones that
-- are still on their way, are exactly the requests that the master `i` accepted and that its map sends
-- to `j`, translated and in the order in which they were put. So none is lost, none comes twice, none
-- comes to another slave and none overtakes another.
pub in_order_delivery :
    (maps : ℕ → List MapEl) (nb_masters nb_slaves : ℕ) (q : Request) (p : Response)
    (es : List Event) (notes : List Note) (n' : Network (Fifo.Fifo Request) (Fifo.Fifo Response))
    → All Stamps es
    → run Fifo.apply Fifo.apply
        (internal_init maps nb_masters nb_slaves (Fifo.new queue_depth q) (Fifo.new queue_depth p))
        es
      ≡ returns (notes, n')
    → (m : Net) × Same n' m
      × ((i j : ℕ) → takens i j es notes ++ in_flight m i j ≡ sents i j (maps i) es notes)
in_order_delivery maps nb_masters nb_slaves q p es notes n' own runs =
    let start : Net = internal_init maps nb_masters nb_slaves [] [] in
    let (m, same, carried) =
      returned Same notes n' (Carries start es) (run bounded bounded start es)
        (subst (λ o. Agree Same o (run bounded bounded start es)) runs
          (network_run maps nb_masters nb_slaves q p es))
        (run-Carries es start (starts-Stamped maps nb_masters nb_slaves) own) in
    (m, same, starts-Carries maps nb_masters nb_slaves es notes m carried)
