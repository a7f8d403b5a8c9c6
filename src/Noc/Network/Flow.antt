-- ===== src/Noc/Network/Flow.antt =====
-- What each event does to the requests on their way.
use rabbits.Base.{
  ℕ, ◌≡◌, inl, inr, refl, sym, ap, ◌∙◌, Bool, true, false, List, [], ◌∷◌, ◌++◌, none, some, ltb,
  ◌==◌, if◌then◌else◌, Outcome, returns, exits, faults, ◌>>=◌, Bool-cases, Option-cases, ==_iff,
  length,
}
use mathlib.Core.List.{append-nil, append_assoc}
use rabbits.Noc.Packet.{Request, Response}
use rabbits.Noc.Queue
use rabbits.Noc.Queue.{Attempt, done, waits, Op, put, get, Reply, step_full, step_free}
use rabbits.Noc.Routing.{translate}
use rabbits.Noc.Routing.Decode.{All, translate-srcid}
use rabbits.Noc.Network.{
  update, MasterNode, SlaveNode, queue_depth, Note, moved, fetched, has_returned, note,
  get_response, put_response, fetch_request_with, fetch_request_at, add_request, pass_request_with,
  pass_request_at, fetch_response_with, fetch_response_at, add_response, pass_response_with,
  pass_response_at,
}
use rabbits.Noc.Network.Buffers.{bounded}
use rabbits.Noc.Network.Order.{
  Net, select, routed, holding, in_flight, arrive-append, select-append, waiting, Stamped,
}

-- What holds after a call that returns.
abbrev pub Ensures : (Note → Net → Type 0) → Outcome (Note × Net) → Type 0
Ensures P (returns (note, n)) = P note n
Ensures P exits = Unit
Ensures P faults = Unit

-- Nothing enters the network and nothing leaves it, and each order stays.
pub record Still (n n' : Net) : Type 0 where
  pub stamped : Stamped n'
  pub maps : (i : ℕ) → (n'.masters i).map ≡ (n.masters i).map
  pub order : (i j : ℕ) → in_flight n' i j ≡ in_flight n i j

pub Still-refl : (n : Net) → Stamped n → Still n n
Still-refl n stamped = record { stamped = stamped; maps = λ i. refl; order = λ i j. refl }

Still-trans : (n m l : Net) → Still n m → Still m l → Still n l
Still-trans n m l s t = record {
  stamped = t.stamped;
  maps = λ i. t.maps i ∙ s.maps i;
  order = λ i j. t.order i j ∙ s.order i j;
}

-- A master's node is replaced by one with the same map and the same requests in the same order.
pub master-Still :
    (n : Net) (k : ℕ) (a : MasterNode (List Request) (List Response))
    → Stamped n
    → a.map ≡ (n.masters k).map
    → holding a.held a.requests ≡ waiting n k
    → Still n (record n { masters = update n.masters k a })
master-Still n k a stamped map kept = record {
  stamped = λ i. elim (Bool-cases (k == i)) [
    | inl e ↦ let here : k ≡ i = (==_iff k i).0 e in rw (e, kept, here) (stamped i)
    | inr e ↦ rw e (stamped i)
  ];
  maps = λ i. elim (Bool-cases (k == i)) [
    | inl e ↦ let here : k ≡ i = (==_iff k i).0 e in rw e (map ∙ ap (λ l. (n.masters l).map) here)
    | inr e ↦ rw e refl
  ];
  order = λ i j. elim (Bool-cases (k == i)) [
    | inl e ↦ let here : k ≡ i = (==_iff k i).0 e in rw (e, kept, map, here) refl
    | inr e ↦ rw e refl
  ];
}

-- A slave's node is replaced by one with the same requests.
pub slave-Still :
    (n : Net) (k : ℕ) (b : SlaveNode (List Request) (List Response))
    → Stamped n
    → b.requests ≡ (n.slaves k).requests
    → Still n (record n { slaves = update n.slaves k b })
slave-Still n k b stamped kept = record {
  stamped = stamped;
  maps = λ i. refl;
  order = λ i j. elim (Bool-cases (k == j)) [
    | inl e ↦ let here : k ≡ j = (==_iff k j).0 e in rw (e, kept, here) refl
    | inr e ↦ rw e refl
  ];
}

fetch_kept :
    (qs : List Request)
    → holding (fetched (Queue.step queue_depth qs get).0) (Queue.step queue_depth qs get).1 ≡ qs
unfolding Queue.step Queue.read
fetch_kept [] = refl
fetch_kept (q ∷ qs) = refl

module _ (n : Net) (stamped : Stamped n) (k : ℕ) where
  pub get_response-Still : Ensures (λ note n'. Still n n') (get_response bounded bounded n k)
  unfolding get_response
  get_response-Still = master-Still n k _ stamped refl refl

  pub put_response-Still :
      (p : Response) → Ensures (λ note n'. Still n n') (put_response bounded bounded n k p)
  unfolding put_response
  put_response-Still p = slave-Still n k _ stamped refl

  pub fetch_request-Still : Ensures (λ note n'. Still n n') (fetch_request_at bounded bounded n k)
  unfolding fetch_request_at fetch_request_with
  fetch_request-Still = elim (Option-cases (n.masters k).held) [
    | inl e ↦ rw e (master-Still n k _ stamped refl (fetch_kept (n.masters k).requests ∙ free e))
    | inr (q, e) ↦ rw e (Still-refl n stamped)
  ]
    where
      free : (n.masters k).held ≡ none → (n.masters k).requests ≡ waiting n k
      free e = rw e refl

  pub fetch_response-Still : Ensures (λ note n'. Still n n') (fetch_response_at bounded bounded n k)
  unfolding fetch_response_at fetch_response_with
  fetch_response-Still = elim (Option-cases (n.slaves k).held) [
    | inl e ↦ rw e (slave-Still n k _ stamped refl)
    | inr (p, e) ↦ rw e (Still-refl n stamped)
  ]

  add_response-Still :
      (p : Response)
      → Ensures
          (λ note n'. Still n n')
          (add_response bounded bounded n k p >>= λ r. returns (moved, r.1))
  unfolding add_response
  add_response-Still p = elim (Bool-cases (ltb k n.nb_masters)) [
    | inl e ↦ rw e (master-Still n k _ stamped refl refl)
    | inr e ↦ rw e tt
  ]

then_hold :
    (n : Net) (j : ℕ) (out : Outcome (Reply Response × Net)) (p : Response)
    → Ensures (λ note n'. Still n n') (out >>= λ r. returns (moved, r.1))
    → Ensures
        (λ note n'. Still n n')
        (out >>= λ r. returns (
          note (has_returned r.0),
          record r.1 {
            slaves =
                update r.1.slaves j
                  (record (r.1.slaves j) { held = if has_returned r.0 then none else some p });
          },
        ))
then_hold n j (returns (r, m)) p h = Still-trans n m _ h (slave-Still m j _ h.stamped refl)
then_hold n j exits p h = tt
then_hold n j faults p h = tt

pub pass_response-Still :
    (n : Net) (stamped : Stamped n) (j : ℕ)
    → Ensures (λ note n'. Still n n') (pass_response_at bounded bounded n j)
unfolding pass_response_at pass_response_with
pass_response-Still n stamped j = elim (Option-cases (n.slaves j).held) [
  | inl e ↦ rw e (Still-refl n stamped)
  | inr (p, e) ↦ rw e (
      then_hold n j (add_response bounded bounded n p.rsrcid p) p
        (add_response-Still n stamped p.rsrcid p))
]

-- A request that the thread of `k` adds to the queue of its slave.
module _ (n : Net) (stamped : Stamped n) (k : ℕ) (q out : Request)
    (held : (n.masters k).held ≡ some q) (goes : translate (n.masters k).map q ≡ returns out) where
  abbrev passed : Net
  passed = record n {
    slaves = update n.slaves out.slave_id (record (n.slaves out.slave_id) {
      requests = (n.slaves out.slave_id).requests ++ (out ∷ []);
    });
    masters = update n.masters k (record (n.masters k) { held = none });
  }

  own : q.srcid ≡ k
  own =
      let all : All (λ q. q.srcid ≡ k) (holding (some q) (n.masters k).requests) =
        rw held at (stamped k) in
      all.0

  rest-Stamped : All (λ q. q.srcid ≡ k) (n.masters k).requests
  rest-Stamped =
      let all : All (λ q. q.srcid ≡ k) (holding (some q) (n.masters k).requests) =
        rw held at (stamped k) in
      all.1

  selected_here : (i : ℕ) → select i (out ∷ []) ≡ (if k == i then out ∷ [] else [])
  selected_here i = rw (translate-srcid (n.masters k).map q goes, own) refl

  -- What arrives of it at `j`, seen from `i`.
  abbrev arrived : ℕ → ℕ → List Request
  arrived i j = if k == i then (if out.slave_id == j then out ∷ [] else []) else []

  leaves_master :
      (i j : ℕ)
      → routed j (n.masters i).map (waiting n i)
        ≡ arrived i j ++ routed j (passed.masters i).map (waiting passed i)
  leaves_master i j = elim (Bool-cases (k == i)) [
    | inl e ↦
        let here : k ≡ i = (==_iff k i).0 e in
        rw (e, sym here, held, goes)
          (arrive-append j (returns out) [] (routed j (n.masters k).map (n.masters k).requests))
    | inr e ↦ rw e refl
  ]

  reaches_slave :
      (i j : ℕ)
      → select i (passed.slaves j).requests ≡ select i (n.slaves j).requests ++ arrived i j
  reaches_slave i j = elim (Bool-cases (out.slave_id == j)) [
    | inl e ↦
        let here : out.slave_id ≡ j = (==_iff out.slave_id j).0 e in
        let queue : List Request = (n.slaves out.slave_id).requests in
        rw (e, sym here)
          (select-append i queue (out ∷ []) ∙ ap (λ qs. select i queue ++ qs) (selected_here i))
    | inr e ↦
        rw e
          (sym (append-nil _) ∙ ap (λ qs. select i (n.slaves j).requests ++ qs) (nothing (k == i)))
  ]
    where
      nothing : (b : Bool) → ◌≡◌ {A = List Request} [] (if b then [] else [])
      nothing true = refl
      nothing false = refl

  passed-Still : Still n passed
  passed-Still = record {
    stamped = λ i. elim (Bool-cases (k == i)) [
      | inl e ↦ let here : k ≡ i = (==_iff k i).0 e in rw (e, here) (rw here at rest-Stamped)
      | inr e ↦ rw e (stamped i)
    ];
    maps = λ i. elim (Bool-cases (k == i)) [
      | inl e ↦ let here : k ≡ i = (==_iff k i).0 e in rw (e, here) refl
      | inr e ↦ rw e refl
    ];
    order = λ i j.
        ap (λ qs. qs ++ routed j (passed.masters i).map (waiting passed i)) (reaches_slave i j)
        ∙ append_assoc (select i (n.slaves j).requests) (arrived i j)
            (routed j (passed.masters i).map (waiting passed i))
        ∙ ap (λ qs. select i (n.slaves j).requests ++ qs) (sym (leaves_master i j));
  }

-- What passing on the request `q` leaves, by what its translation and its slave's queue say.
pass-Still :
    (n : Net) (stamped : Stamped n) (k : ℕ) (q : Request)
    → (n.masters k).held ≡ some q
    → (o : Outcome Request) → translate (n.masters k).map q ≡ o
    → Ensures (λ note n'. Still n n') (pass_request_with bounded bounded n k (some q))
unfolding pass_request_with add_request
pass-Still n stamped k q held exits goes = rw goes tt
pass-Still n stamped k q held faults goes = rw goes tt
pass-Still n stamped k q held (returns out) goes =
    elim (Bool-cases (ltb out.slave_id n.nb_slaves)) [
      | inr e ↦ rw (goes, e) tt
      | inl e ↦ elim (Bool-cases (length (n.slaves out.slave_id).requests == queue_depth)) [
        | inl full ↦
            rw (goes, e, step_full queue_depth (n.slaves out.slave_id).requests out full)
              (Still-trans n _ _ (slave-Still n out.slave_id (n.slaves out.slave_id) stamped refl) (
                master-Still
                  (record n { slaves = update n.slaves out.slave_id (n.slaves out.slave_id) }) k
                  (record (n.masters k) { held = some q }) stamped refl (rw held refl)))
        | inr free ↦
            rw (goes, e, step_free queue_depth (n.slaves out.slave_id).requests out free)
              (passed-Still n stamped k q out held goes)
      ]
    ]

idle_pass :
    (n : Net) (stamped : Stamped n) (k : ℕ)
    → Ensures (λ note n'. Still n n') (pass_request_with bounded bounded n k none)
unfolding pass_request_with
idle_pass n stamped k = Still-refl n stamped

pub pass_request-Still :
    (n : Net) (stamped : Stamped n) (k : ℕ)
    → Ensures (λ note n'. Still n n') (pass_request_at bounded bounded n k)
unfolding pass_request_at
pass_request-Still n stamped k = elim (Option-cases (n.masters k).held) [
  | inl e ↦ rw e (idle_pass n stamped k)
  | inr (q, e) ↦ rw e (pass-Still n stamped k q e (translate (n.masters k).map q) refl)
]
