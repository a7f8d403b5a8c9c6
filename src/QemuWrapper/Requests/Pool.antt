-- ===== src/QemuWrapper/Requests/Pool.antt =====
-- Each request of the pool is in one place, and a busy one is found by its transaction.
use rabbits.Base.{
  ℕ, zero, suc, ◌+◌, ◌%◌, ◌<◌, ◌≡◌, inl, inr, refl, true, false, ◌&&◌, List, [], ◌∷◌, Option, none,
  some, leb, ltb, ◌==◌, if◌then◌else◌, Outcome, returns, exits, faults, ◌>>=◌, Returns, Bool-cases,
  arith, ==_iff, ==_refl,
}
use rabbits.Noc.Queue.{done, waits}
use rabbits.QemuWrapper.Requests.{
  Request, Requests, fresh_from, new, take_first, get_new_request, find_tid, get_request_by_tid,
  unlink, pass_over, after_take, give_back, free_request, any, Call, take, give, step, run,
}

-- How often the request `i` is in a list.
abbrev pub occurs : ℕ → List Request → ℕ
occurs i [] = 0
occurs i (p ∷ ps) = (if p.id == i then 1 else 0) + occurs i ps

abbrev Tids : List Request → Type 0
Tids [] = Unit
Tids (p ∷ ps) = (p.tid ≡ p.id % 256) × Tids ps

-- Every request from 1 to `count` is free or busy, and no other, and carries its transaction.
record Pool (count : ℕ) (s : Requests) : Type 0 where
  once : (i : ℕ) → occurs i s.free + occurs i s.busy ≡ (if leb 1 i && leb i count then 1 else 0)
  free_tids : Tids s.free
  busy_tids : Tids s.busy

occurs-fresh_from :
    (n first i : ℕ)
    → occurs i (fresh_from first n) ≡ (if leb first i && ltb i (first + n) then 1 else 0)
unfolding fresh_from
occurs-fresh_from zero first i = ground arith
occurs-fresh_from (suc n) first i = ground (arith, occurs-fresh_from n (first + 1) i)

fresh_from-Tids : (n first : ℕ) → Tids (fresh_from first n)
unfolding fresh_from
fresh_from-Tids zero first = tt
fresh_from-Tids (suc n) first = (refl, fresh_from-Tids n (first + 1))

new-Pool : (count : ℕ) → Pool count (new count)
unfolding new
new-Pool count = record {
  once = λ i. ground (arith, occurs-fresh_from count 1 i);
  free_tids = fresh_from-Tids count 1;
  busy_tids = tt;
}

take_first-Pool :
    (count : ℕ) (s : Requests) (free : List Request)
    → s.free ≡ free
    → Pool count s
    → Returns (λ r. Pool count (elim r [ waits ↦ s | done (p, s') ↦ s' ])) (take_first s free)
take_first-Pool count s [] at pool = tt
take_first-Pool count s (p ∷ rest) at pool =
    let free_tids : Tids (p ∷ rest) = rw at at pool.free_tids in
    record {
      once = λ i.
          let before : occurs i (p ∷ rest) + occurs i s.busy
              ≡ (if leb 1 i && leb i count then 1 else 0) =
            rw at at (pool.once i) in
          omega (arith, before);
      free_tids = free_tids.1;
      busy_tids = (free_tids.0, pool.busy_tids);
    }

-- What `FreeRequest` takes out of the list.
record Unlinked (xs : List Request) (q : Request) (left : List Request) : Type 0 where
  rest : (i : ℕ) → occurs i xs ≡ (if q.id == i then 1 else 0) + occurs i left
  tids : Tids xs → (q.tid ≡ q.id % 256) × Tids left

abbrev Takes : List Request → Option (Request × List Request) → Type 0
Takes xs none = Unit
Takes xs (some (q, left)) = Unlinked xs q left

pass_over-Takes :
    (p : Request) (xs : List Request) (on : Option (Request × List Request))
    → Takes xs on
    → Takes (p ∷ xs) (pass_over p on)
pass_over-Takes p xs none takes = tt
pass_over-Takes p xs (some (q, left)) takes = record {
  rest = λ i. omega (arith, takes.rest i);
  tids = λ (here, others). let (tid, more) = takes.tids others in (tid, (here, more));
}

unlink-Takes : (xs : List Request) (id : ℕ) → Takes xs (unlink xs id)
unfolding unlink
unlink-Takes [] id = tt
unlink-Takes (p ∷ xs) id = elim (Bool-cases (p.id == id)) [
  | inl e ↦ rw e (record { rest = λ i. refl; tids = λ h. h })
  | inr e ↦ rw e (pass_over-Takes p xs (unlink xs id) (unlink-Takes xs id))
]

give_back-Pool :
    (count : ℕ) (s : Requests) (o : Option (Request × List Request))
    → Takes s.busy o
    → Pool count s
    → Pool count (give_back s o)
give_back-Pool count s none takes pool = pool
give_back-Pool count s (some (q, left)) takes pool =
    let (tid, others) = takes.tids pool.busy_tids in
    record {
      once = λ i. omega (arith, pool.once i, takes.rest i);
      free_tids = (tid, pool.free_tids);
      busy_tids = others;
    }

taken-Pool :
    (count : ℕ) (s : Requests) (free : List Request)
    → s.free ≡ free
    → Pool count s
    → Returns (Pool count) (take_first s free >>= λ r. returns (after_take s r))
taken-Pool count s [] at pool = tt
taken-Pool count s (p ∷ rest) at pool = take_first-Pool count s (p ∷ rest) at pool

step-Pool : (count : ℕ) (s : Requests) (c : Call) → Pool count s → Returns (Pool count) (step s c)
unfolding step get_new_request free_request
step-Pool count s (take false) pool = taken-Pool count s s.free refl pool
step-Pool count s (take true) pool = elim (Bool-cases (any s.busy)) [
  | inl e ↦ rw e pool
  | inr e ↦ rw e (taken-Pool count s s.free refl pool)
]
step-Pool count s (give id) pool =
    give_back-Pool count s (unlink s.busy id) (unlink-Takes s.busy id) pool

then_run-Pool :
    (count : ℕ) (o : Outcome Requests) (next : Requests → Outcome Requests)
    → Returns (Pool count) o
    → ((s : Requests) → Pool count s → Returns (Pool count) (next s))
    → Returns (Pool count) (o >>= next)
then_run-Pool count (returns s) next pool later = later s pool
then_run-Pool count exits next pool later = tt
then_run-Pool count faults next pool later = tt

run-Pool :
    (count : ℕ) (cs : List Call) (s : Requests) → Pool count s → Returns (Pool count) (run s cs)
unfolding run
run-Pool count [] s pool = pool
run-Pool count (c ∷ cs) s pool =
    then_run-Pool count (step s c) (λ t. run t cs) (step-Pool count s c pool)
      (λ t h. run-Pool count cs t h)

-- From its construction, after any calls that return, each of the requests from 1 to `count` is in the
-- pool exactly once, be it free or busy, and no other request is: none is lost, and none is given to two
-- users at a time.
pub each_request_once :
    (count : ℕ) (cs : List Call) {s : Requests} (i : ℕ)
    → run (new count) cs ≡ returns s
    → occurs i s.free + occurs i s.busy ≡ (if leb 1 i && leb i count then 1 else 0)
each_request_once count cs {s} i ran =
    let pool : Pool count s = rw ran at (run-Pool count cs (new count) (new-Pool count)) in
    pool.once i

find_tid_lem :
    (xs : List Request) (i : ℕ)
    → Tids xs
    → ((j : ℕ) → 0 < occurs j xs → j < 256)
    → 0 < occurs i xs
    → (p : Request) × (find_tid xs i ≡ some p) × (p.id ≡ i)
unfolding find_tid
find_tid_lem [] i tids small there = absurd (omega arith)
find_tid_lem (p ∷ xs) i (tid, tids) small there =
    let mine : p.id < 256 = small p.id (ground (arith, ==_refl p.id)) in
    elim (Bool-cases (p.tid == i)) [
      | inl e ↦ (p, rw e refl, omega (arith, (==_iff p.tid i).0 e))
      | inr e ↦
          let other : (p.id == i) ≡ false = ground arith in
          let behind : 0 < 0 + occurs i xs = rw other at there in
          let (q, found, is) =
            find_tid_lem xs i tids (λ j h. small j (omega arith)) (omega arith) in
          (q, rw e found, is)
    ]

-- In a pool of at most 255 requests, after any calls that return, the response to a busy request finds
-- that request by its transaction.
busy_is_found :
    (count : ℕ) (cs : List Call) {s : Requests} (i : ℕ)
    → count < 256
    → run (new count) cs ≡ returns s
    → 0 < occurs i s.busy
    → (p : Request) × (get_request_by_tid s i ≡ some p) × (p.id ≡ i)
unfolding get_request_by_tid
busy_is_found count cs {s} i few ran busy =
    let pool : Pool count s = rw ran at (run-Pool count cs (new count) (new-Pool count)) in
    find_tid_lem s.busy i pool.busy_tids (λ j h. ground (arith, pool.once j)) busy
