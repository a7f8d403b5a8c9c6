-- ===== src/Noc/Network/Simulate.antt =====
-- Two networks over different queues that answer alike: the network of the code, over its ring
-- buffers, against one over bounded queues.
use rabbits.Base.{
  ℕ, ◌≡◌, inl, inr, refl, ap, Bool, List, [], ◌∷◌, Option, none, some, ltb, ◌==◌, if◌then◌else◌,
  Outcome, returns, exits, faults, ◌>>=◌, Bool-cases, Option-cases,
}
use mathlib.Core.Path.{subst}
use rabbits.Noc.Packet.{Request, Response}
use rabbits.Noc.Queue.{Op, put, get, Reply}
use rabbits.Noc.Routing.{translate}
use rabbits.Noc.Network.{
  update, MasterNode, SlaveNode, Network, Event, master_put, master_get, slave_put, slave_get,
  fetch_request, pass_request, fetch_response, pass_response, note_request, note_response, fetched,
  has_returned, note, put_request, get_response, put_response, get_request, fetch_request_with,
  fetch_request_at, add_request, pass_request_with, pass_request_at, fetch_response_with,
  fetch_response_at, add_response, pass_response_with, pass_response_at, step, run,
}

-- Two calls end alike: with the same answer and with states that are related.
abbrev pub Agree : {X F Q : Type 0} → (F → Q → Type 0) → Outcome (X × F) → Outcome (X × Q) → Type 0
Agree R (returns (x, f)) (returns (y, q)) = (x ≡ y) × R f q
Agree R exits exits = Unit
Agree R faults faults = Unit
Agree R (returns x) exits = ⊥
Agree R (returns x) faults = ⊥
Agree R exits (returns x) = ⊥
Agree R exits faults = ⊥
Agree R faults (returns x) = ⊥
Agree R faults exits = ⊥

pub Agree->>= :
    {X Y F Q G P : Type 0} (R : F → Q → Type 0) (S : G → P → Type 0) (a : Outcome (X × F))
    (b : Outcome (X × Q)) (k : X × F → Outcome (Y × G)) (k' : X × Q → Outcome (Y × P))
    → Agree R a b
    → ((x : X) (f : F) (q : Q) → R f q → Agree S (k (x, f)) (k' (x, q)))
    → Agree S (a >>= k) (b >>= k')
Agree->>= R S (returns (x, f)) (returns (y, q)) k k' (same, related) next =
    subst (λ z. Agree S (k (x, f)) (k' (z, q))) same (next x f q related)
Agree->>= R S exits exits k k' h next = tt
Agree->>= R S faults faults k k' h next = tt
Agree->>= R S (returns x) exits k k' h next = absurd h
Agree->>= R S (returns x) faults k k' h next = absurd h
Agree->>= R S exits (returns y) k k' h next = absurd h
Agree->>= R S exits faults k k' h next = absurd h
Agree->>= R S faults (returns y) k k' h next = absurd h
Agree->>= R S faults exits k k' h next = absurd h

pub Agree-same :
    {X Y G P : Type 0} (S : G → P → Type 0) (o : Outcome X) (k : X → Outcome (Y × G))
    (k' : X → Outcome (Y × P))
    → ((x : X) → Agree S (k x) (k' x))
    → Agree S (o >>= k) (o >>= k')
Agree-same S (returns x) k k' next = next x
Agree-same S exits k k' next = tt
Agree-same S faults k k' next = tt

update-related {ℓ} :
    {A B : Type ℓ} (R : A → B → Type ℓ) (f : ℕ → A) (g : ℕ → B) (i : ℕ) {a : A} {b : B}
    → ((k : ℕ) → R (f k) (g k))
    → R a b
    → (k : ℕ) → R (update f i a k) (update g i b k)
update-related R f g i all at k = elim (Bool-cases (i == k)) [
  | inl here ↦ rw here at
  | inr there ↦ rw there (all k)
]

-- The queues of two networks, and the relation that their operations keep.
module _ {Rq Rs Lq Ls : Type 0} (on_rq : Rq → Op Request → Outcome (Reply Request × Rq))
    (on_rs : Rs → Op Response → Outcome (Reply Response × Rs))
    (on_lq : Lq → Op Request → Outcome (Reply Request × Lq))
    (on_ls : Ls → Op Response → Outcome (Reply Response × Ls)) (AsRequests : Rq → Lq → Type 0)
    (AsResponses : Rs → Ls → Type 0)
    (requests_agree : (f : Rq) (q : Lq) (op : Op Request)
      → AsRequests f q
      → Agree AsRequests (on_rq f op) (on_lq q op))
    (responses_agree : (f : Rs) (q : Ls) (op : Op Response)
      → AsResponses f q
      → Agree AsResponses (on_rs f op) (on_ls q op)) where
  pub record AsMaster (a : MasterNode Rq Rs) (b : MasterNode Lq Ls) : Type 0 where
    pub map : a.map ≡ b.map
    pub requests : AsRequests a.requests b.requests
    pub responses : AsResponses a.responses b.responses
    pub held : a.held ≡ b.held

  pub record AsSlave (a : SlaveNode Rq Rs) (b : SlaveNode Lq Ls) : Type 0 where
    pub requests : AsRequests a.requests b.requests
    pub responses : AsResponses a.responses b.responses
    pub held : a.held ≡ b.held

  pub record As (n : Network Rq Rs) (m : Network Lq Ls) : Type 0 where
    pub nb_masters : n.nb_masters ≡ m.nb_masters
    pub masters : (i : ℕ) → AsMaster (n.masters i) (m.masters i)
    pub nb_slaves : n.nb_slaves ≡ m.nb_slaves
    pub slaves : (j : ℕ) → AsSlave (n.slaves j) (m.slaves j)

  module _ {n : Network Rq Rs} {m : Network Lq Ls} (h : As n m) where
    set_master :
        (i : ℕ) {a : MasterNode Rq Rs} {b : MasterNode Lq Ls}
        → AsMaster a b
        → As
            (record n { masters = update n.masters i a })
            (record m { masters = update m.masters i b })
    set_master i at = record {
      nb_masters = h.nb_masters;
      masters = update-related AsMaster n.masters m.masters i h.masters at;
      nb_slaves = h.nb_slaves;
      slaves = h.slaves;
    }

    set_slave :
        (j : ℕ) {a : SlaveNode Rq Rs} {b : SlaveNode Lq Ls}
        → AsSlave a b
        → As (record n { slaves = update n.slaves j a }) (record m { slaves = update m.slaves j b })
    set_slave j at = record {
      nb_masters = h.nb_masters;
      masters = h.masters;
      nb_slaves = h.nb_slaves;
      slaves = update-related AsSlave n.slaves m.slaves j h.slaves at;
    }

    -- A call on one queue of a master's node, or of a slave's, that leaves the rest to `rest`.
    module _ {Y : Type 0} where
      master_requests :
          (i : ℕ) (op : Op Request) (say : Reply Request → Y)
          (keep : Reply Request → Option Request → Option Request)
          → Agree As
              (on_rq (n.masters i).requests op >>= λ r. returns (
                say r.0,
                record n {
                  masters =
                      update n.masters i (record (n.masters i) {
                        requests = r.1;
                        held = keep r.0 (n.masters i).held;
                      });
                },
              ))
              (on_lq (m.masters i).requests op >>= λ r. returns (
                say r.0,
                record m {
                  masters =
                      update m.masters i (record (m.masters i) {
                        requests = r.1;
                        held = keep r.0 (m.masters i).held;
                      });
                },
              ))
      master_requests i op say keep =
          let at = h.masters i in
          Agree->>= AsRequests As (on_rq (n.masters i).requests op)
            (on_lq (m.masters i).requests op) _ _ (requests_agree _ _ op at.requests)
            (λ r f l related. (
              refl,
              set_master i (record {
                map = at.map;
                requests = related;
                responses = at.responses;
                held = ap (keep r) at.held;
              }),
            ))

      master_responses :
          (i : ℕ) (op : Op Response) (say : Reply Response → Y)
          → Agree As
              (on_rs (n.masters i).responses op >>= λ r. returns (
                say r.0,
                record n {
                  masters = update n.masters i (record (n.masters i) { responses = r.1 });
                },
              ))
              (on_ls (m.masters i).responses op >>= λ r. returns (
                say r.0,
                record m {
                  masters = update m.masters i (record (m.masters i) { responses = r.1 });
                },
              ))
      master_responses i op say =
          let at = h.masters i in
          Agree->>= AsResponses As (on_rs (n.masters i).responses op)
            (on_ls (m.masters i).responses op) _ _ (responses_agree _ _ op at.responses)
            (λ r f l related. (
              refl,
              set_master i (record {
                map = at.map;
                requests = at.requests;
                responses = related;
                held = at.held;
              }),
            ))

      slave_requests :
          (j : ℕ) (op : Op Request) (say : Reply Request → Y)
          → Agree As
              (on_rq (n.slaves j).requests op >>= λ r. returns (
                say r.0,
                record n { slaves = update n.slaves j (record (n.slaves j) { requests = r.1 }) },
              ))
              (on_lq (m.slaves j).requests op >>= λ r. returns (
                say r.0,
                record m { slaves = update m.slaves j (record (m.slaves j) { requests = r.1 }) },
              ))
      slave_requests j op say =
          let at = h.slaves j in
          Agree->>= AsRequests As (on_rq (n.slaves j).requests op) (on_lq (m.slaves j).requests op)
            _ _ (requests_agree _ _ op at.requests)
            (λ r f l related. (
              refl,
              set_slave j (record { requests = related; responses = at.responses; held = at.held }),
            ))

      slave_responses :
          (j : ℕ) (op : Op Response) (say : Reply Response → Y)
          (keep : Reply Response → Option Response → Option Response)
          → Agree As
              (on_rs (n.slaves j).responses op >>= λ r. returns (
                say r.0,
                record n {
                  slaves =
                      update n.slaves j (record (n.slaves j) {
                        responses = r.1;
                        held = keep r.0 (n.slaves j).held;
                      });
                },
              ))
              (on_ls (m.slaves j).responses op >>= λ r. returns (
                say r.0,
                record m {
                  slaves =
                      update m.slaves j (record (m.slaves j) {
                        responses = r.1;
                        held = keep r.0 (m.slaves j).held;
                      });
                },
              ))
      slave_responses j op say keep =
          let at = h.slaves j in
          Agree->>= AsResponses As (on_rs (n.slaves j).responses op)
            (on_ls (m.slaves j).responses op) _ _ (responses_agree _ _ op at.responses)
            (λ r f l related. (
              refl,
              set_slave j (record {
                requests = at.requests;
                responses = related;
                held = ap (keep r) at.held;
              }),
            ))

    shift : {a b : ℕ} (k : ℕ) {r : Bool} → a ≡ b → ltb k b ≡ r → ltb k a ≡ r
    shift k e t = rw e t

    put_request-Agree :
        (i : ℕ) (q : Request)
        → Agree As (put_request on_rq on_rs n i q) (put_request on_lq on_ls m i q)
    unfolding put_request
    put_request-Agree i q = master_requests i (put q) note_request (λ r o. o)

    get_response-Agree :
        (i : ℕ) → Agree As (get_response on_rq on_rs n i) (get_response on_lq on_ls m i)
    unfolding get_response
    get_response-Agree i = master_responses i get note_response

    put_response-Agree :
        (j : ℕ) (p : Response)
        → Agree As (put_response on_rq on_rs n j p) (put_response on_lq on_ls m j p)
    unfolding put_response
    put_response-Agree j p = slave_responses j (put p) note_response (λ r o. o)

    get_request-Agree :
        (j : ℕ) → Agree As (get_request on_rq on_rs n j) (get_request on_lq on_ls m j)
    unfolding get_request
    get_request-Agree j = slave_requests j get note_request

    fetch_request-Agree :
        (i : ℕ) → Agree As (fetch_request_at on_rq on_rs n i) (fetch_request_at on_lq on_ls m i)
    unfolding fetch_request_at fetch_request_with
    fetch_request-Agree i = elim (Option-cases (m.masters i).held) [
      | inl e ↦
          rw ((h.masters i).held, e)
            (master_requests i get (λ r. note (has_returned r)) (λ r o. fetched r))
      | inr (q, e) ↦ rw ((h.masters i).held, e) (refl, h)
    ]

    fetch_response-Agree :
        (j : ℕ) → Agree As (fetch_response_at on_rq on_rs n j) (fetch_response_at on_lq on_ls m j)
    unfolding fetch_response_at fetch_response_with
    fetch_response-Agree j = elim (Option-cases (m.slaves j).held) [
      | inl e ↦
          rw ((h.slaves j).held, e)
            (slave_responses j get (λ r. note (has_returned r)) (λ r o. fetched r))
      | inr (q, e) ↦ rw ((h.slaves j).held, e) (refl, h)
    ]

    add_request-Agree :
        (j : ℕ) (q : Request)
        → Agree As (add_request on_rq on_rs n j q) (add_request on_lq on_ls m j q)
    unfolding add_request
    add_request-Agree j q = elim (Bool-cases (ltb j m.nb_slaves)) [
      | inl e ↦ rw (shift j h.nb_slaves e, e) (slave_requests j (put q) (λ r. r))
      | inr e ↦ rw (shift j h.nb_slaves e, e) tt
    ]

    add_response-Agree :
        (i : ℕ) (p : Response)
        → Agree As (add_response on_rq on_rs n i p) (add_response on_lq on_ls m i p)
    unfolding add_response
    add_response-Agree i p = elim (Bool-cases (ltb i m.nb_masters)) [
      | inl e ↦ rw (shift i h.nb_masters e, e) (master_responses i (put p) (λ r. r))
      | inr e ↦ rw (shift i h.nb_masters e, e) tt
    ]

  hold_request :
      (n : Network Rq Rs) (m : Network Lq Ls) (h : As n m) (i : ℕ) (o : Option Request)
      → As
          (record n { masters = update n.masters i (record (n.masters i) { held = o }) })
          (record m { masters = update m.masters i (record (m.masters i) { held = o }) })
  hold_request n m h i o =
      let at = h.masters i in
      set_master h i
        (record { map = at.map; requests = at.requests; responses = at.responses; held = refl })

  hold_response :
      (n : Network Rq Rs) (m : Network Lq Ls) (h : As n m) (j : ℕ) (o : Option Response)
      → As
          (record n { slaves = update n.slaves j (record (n.slaves j) { held = o }) })
          (record m { slaves = update m.slaves j (record (m.slaves j) { held = o }) })
  hold_response n m h j o =
      let at = h.slaves j in
      set_slave h j (record { requests = at.requests; responses = at.responses; held = refl })

  pass_request-Agree :
      (n : Network Rq Rs) (m : Network Lq Ls) (h : As n m) (i : ℕ)
      → Agree As (pass_request_at on_rq on_rs n i) (pass_request_at on_lq on_ls m i)
  unfolding pass_request_at pass_request_with
  pass_request-Agree n m h i = elim (Option-cases (m.masters i).held) [
    | inl e ↦ rw ((h.masters i).held, e) (refl, h)
    | inr (q, e) ↦
        rw ((h.masters i).held, e, (h.masters i).map)
          (Agree-same As (translate (m.masters i).map q) _ _ (λ out.
            Agree->>= As As (add_request on_rq on_rs n out.slave_id out)
              (add_request on_lq on_ls m out.slave_id out) _ _
              (add_request-Agree h out.slave_id out)
              (λ r n' m' h'.
                (refl, hold_request n' m' h' i (if has_returned r then none else some q)))))
  ]

  pass_response-Agree :
      (n : Network Rq Rs) (m : Network Lq Ls) (h : As n m) (j : ℕ)
      → Agree As (pass_response_at on_rq on_rs n j) (pass_response_at on_lq on_ls m j)
  unfolding pass_response_at pass_response_with
  pass_response-Agree n m h j = elim (Option-cases (m.slaves j).held) [
    | inl e ↦ rw ((h.slaves j).held, e) (refl, h)
    | inr (p, e) ↦
        rw ((h.slaves j).held, e)
          (Agree->>= As As (add_response on_rq on_rs n p.rsrcid p)
            (add_response on_lq on_ls m p.rsrcid p) _ _ (add_response-Agree h p.rsrcid p)
            (λ r n' m' h'.
              (refl, hold_response n' m' h' j (if has_returned r then none else some p))))
  ]

  step-Agree :
      (n : Network Rq Rs) (m : Network Lq Ls) (h : As n m) (e : Event)
      → Agree As (step on_rq on_rs n e) (step on_lq on_ls m e)
  unfolding step
  step-Agree n m h (master_put i q) = put_request-Agree h i q
  step-Agree n m h (master_get i) = get_response-Agree h i
  step-Agree n m h (slave_put j p) = put_response-Agree h j p
  step-Agree n m h (slave_get j) = get_request-Agree h j
  step-Agree n m h (fetch_request i) = fetch_request-Agree h i
  step-Agree n m h (pass_request i) = pass_request-Agree n m h i
  step-Agree n m h (fetch_response j) = fetch_response-Agree h j
  step-Agree n m h (pass_response j) = pass_response-Agree n m h j

  pub run-Agree :
      (es : List Event) (n : Network Rq Rs) (m : Network Lq Ls) (h : As n m)
      → Agree As (run on_rq on_rs n es) (run on_lq on_ls m es)
  unfolding run
  run-Agree [] n m h = (refl, h)
  run-Agree (e ∷ es) n m h =
      Agree->>= As As (step on_rq on_rs n e) (step on_lq on_ls m e) _ _ (step-Agree n m h e)
        (λ now n' m' h'.
          Agree->>= As As (run on_rq on_rs n' es) (run on_lq on_ls m' es) _ _
            (run-Agree es n' m' h') (λ later n'' m'' h''. (refl, h'')))
