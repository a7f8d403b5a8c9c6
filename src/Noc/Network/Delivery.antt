-- ===== src/Noc/Network/Delivery.antt =====
-- Requests reach their slaves in order, once each.
use rabbits.Base.{
  ℕ, ◌≡◌, inl, inr, refl, sym, ap, ◌∙◌, List, [], ◌∷◌, ◌++◌, ◌==◌, Outcome, returns, exits, faults,
  Bool-cases, ==_iff, length,
}
use mathlib.Core.List.{append-nil, append_assoc}
use rabbits.Noc.Packet.{Request}
use rabbits.Noc.Queue
use rabbits.Noc.Queue.{Attempt, done, waits, Op, put, get, Reply, step_full, step_free}
use rabbits.Noc.Routing.{MapEl}
use rabbits.Noc.Routing.Decode.{All}
use rabbits.Noc.Network.{
  update, queue_depth, Event, master_put, master_get, slave_put, slave_get, fetch_request,
  pass_request, fetch_response, pass_response, Note, blocked, moved, request, put_request,
  get_request, step,
}
use rabbits.Noc.Network.Buffers.{bounded}
use rabbits.Noc.Network.Order.{
  Net, keep_from, select, routed, in_flight, taken, sent, keep_from-append, routed-append,
  holding-append, waiting, Stamped, Stamps,
}
use rabbits.Noc.Network.Flow.{
  Ensures, Still, master-Still, slave-Still, get_response-Still, put_response-Still,
  fetch_request-Still, fetch_response-Still, pass_response-Still, pass_request-Still,
}

-- An event moves the requests on, none lost, none twice and none past another.
pub record Flows (n : Net) (e : Event) (said : Note) (n' : Net) : Type 0 where
  pub stamped : Stamped n'
  pub maps : (i : ℕ) → (n'.masters i).map ≡ (n.masters i).map
  pub order :
      (i j : ℕ)
      → taken i j e said ++ in_flight n' i j ≡ in_flight n i j ++ sent i j (n.masters i).map e said

-- Nothing is taken and nothing brought by an event of which a note is made.
abbrev IsSilent : Event → Note → Type 0
IsSilent e said =
    (i j : ℕ) (map : List MapEl) → (taken i j e said ≡ []) × (sent i j map e said ≡ [])

Still-Flows :
    (n : Net) (e : Event) (said : Note) (n' : Net)
    → IsSilent e said
    → Still n n'
    → Flows n e said n'
Still-Flows n e said n' silent still = record {
  stamped = still.stamped;
  maps = still.maps;
  order = λ i j.
      let quiet = silent i j (n.masters i).map in
      rw (quiet.0, quiet.1) (still.order i j ∙ sym (append-nil (in_flight n i j)));
}

silent-Flows :
    (n : Net) (e : Event) (o : Outcome (Note × Net))
    → ((said : Note) → IsSilent e said)
    → Ensures (λ said n'. Still n n') o
    → Ensures (λ said n'. Flows n e said n') o
silent-Flows n e (returns (said, n')) silent still = Still-Flows n e said n' (silent said) still
silent-Flows n e exits silent still = tt
silent-Flows n e faults silent still = tt

All-append : (P : Request → Type 0) (xs ys : List Request) → All P xs → All P ys → All P (xs ++ ys)
All-append P [] ys hx hy = hy
All-append P (x ∷ xs) ys hx hy = (hx.0, All-append P xs ys hx.1 hy)

module _ (n : Net) (stamped : Stamped n) (k : ℕ) where
  -- A device's request that finds room.
  brought-Flows :
      (q : Request)
      → q.srcid ≡ k
      → Flows n (master_put k q) moved (record n {
        masters =
            update n.masters k
              (record (n.masters k) { requests = (n.masters k).requests ++ (q ∷ []) });
      })
  brought-Flows q own = record {
    stamped = λ i. elim (Bool-cases (k == i)) [
      | inl e ↦
          let here : k ≡ i = (==_iff k i).0 e in
          rw (e, sym here, holding-append (n.masters k).held (n.masters k).requests (q ∷ []))
            (All-append (λ q. q.srcid ≡ k) (waiting n k) (q ∷ []) (stamped k) (own, tt))
      | inr e ↦ rw e (stamped i)
    ];
    maps = λ i. elim (Bool-cases (k == i)) [
      | inl e ↦ let here : k ≡ i = (==_iff k i).0 e in rw (e, here) refl
      | inr e ↦ rw e refl
    ];
    order = λ i j. elim (Bool-cases (k == i)) [
      | inl e ↦
          let here : k ≡ i = (==_iff k i).0 e in
          let map : List MapEl = (n.masters k).map in
          rw
            (
              e,
              sym here,
              holding-append (n.masters k).held (n.masters k).requests (q ∷ []),
              routed-append j map (waiting n k) (q ∷ []),
            )
            (sym (
              append_assoc (select k (n.slaves j).requests) (routed j map (waiting n k))
                (routed j map (q ∷ []))))
      | inr e ↦ rw e (sym (append-nil (in_flight n i j)))
    ];
  }

  put_request-Flows :
      (q : Request)
      → q.srcid ≡ k
      → Ensures (λ said n'. Flows n (master_put k q) said n') (put_request bounded bounded n k q)
  unfolding put_request
  put_request-Flows q own = elim (Bool-cases (length (n.masters k).requests == queue_depth)) [
    | inl full ↦ rw (step_full queue_depth (n.masters k).requests q full) (
        Still-Flows n (master_put k q) blocked _ (λ i j map. (refl, refl))
          (master-Still n k _ stamped refl refl))
    | inr free ↦ rw (step_free queue_depth (n.masters k).requests q free) (brought-Flows q own)
  ]

  -- A request that a device takes off its queue.
  took-Flows :
      (x : Request) (rest : List Request)
      → (n.slaves k).requests ≡ x ∷ rest
      → Flows n
          (slave_get k)
          (request x)
          (record n { slaves = update n.slaves k (record (n.slaves k) { requests = rest }) })
  took-Flows x rest queue = record {
    stamped = stamped;
    maps = λ i. refl;
    order = λ i j. elim (Bool-cases (k == j)) [
      | inl e ↦
          let here : k ≡ j = (==_iff k j).0 e in
          let coming : List Request = routed k (n.masters i).map (waiting n i) in
          rw (e, sym here, queue)
            (sym (append_assoc (keep_from i x []) (select i rest) coming)
              ∙ ap (λ qs. qs ++ coming) (sym (keep_from-append i x [] (select i rest)))
              ∙ sym (append-nil (keep_from i x (select i rest) ++ coming)))
      | inr e ↦ rw e (sym (append-nil (in_flight n i j)))
    ];
  }

  get_request-Flows :
      (queue : List Request)
      → (n.slaves k).requests ≡ queue
      → Ensures (λ said n'. Flows n (slave_get k) said n') (get_request bounded bounded n k)
  unfolding get_request Queue.step Queue.read
  get_request-Flows [] at = rw at (
      Still-Flows n (slave_get k) blocked _ (λ i j map. (refl, refl))
        (slave-Still n k (record (n.slaves k) { requests = [] }) stamped (sym at)))
  get_request-Flows (x ∷ rest) at = rw at (took-Flows x rest at)

pub step-Flows :
    (n : Net) (e : Event)
    → Stamped n
    → Stamps e
    → Ensures (λ said n'. Flows n e said n') (step bounded bounded n e)
unfolding step
step-Flows n (master_put k q) stamped own = put_request-Flows n stamped k q own
step-Flows n (slave_get k) stamped own = get_request-Flows n stamped k (n.slaves k).requests refl
step-Flows n (master_get k) stamped own =
    silent-Flows n (master_get k) _ (λ said i j map. (refl, refl)) (get_response-Still n stamped k)
step-Flows n (slave_put k p) stamped own =
    silent-Flows n (slave_put k p) _ (λ said i j map. (refl, refl))
      (put_response-Still n stamped k p)
step-Flows n (fetch_request k) stamped own =
    silent-Flows n (fetch_request k) _ (λ said i j map. (refl, refl))
      (fetch_request-Still n stamped k)
step-Flows n (pass_request k) stamped own =
    silent-Flows n (pass_request k) _ (λ said i j map. (refl, refl))
      (pass_request-Still n stamped k)
step-Flows n (fetch_response k) stamped own =
    silent-Flows n (fetch_response k) _ (λ said i j map. (refl, refl))
      (fetch_response-Still n stamped k)
step-Flows n (pass_response k) stamped own =
    silent-Flows n (pass_response k) _ (λ said i j map. (refl, refl))
      (pass_response-Still n stamped k)
