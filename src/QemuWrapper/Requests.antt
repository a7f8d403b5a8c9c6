-- ===== src/QemuWrapper/Requests.antt =====
-- qemu_wrapper_request.{h,cpp}: the pool of requests that a processor may have under way. The two linked
-- lists are lists from their heads on; the number by which a request was made stands for its address.
pub mod Pool
mod Tests
use rabbits.Base.{
  ℕ, zero, suc, ◌+◌, ◌%◌, Bool, true, false, List, [], ◌∷◌, Option, none, some, ◌==◌, if◌then◌else◌,
  Outcome, returns, exits, faults, ◌>>=◌,
}
use rabbits.Noc.Queue.{Attempt, done, waits}

-- `qemu_wrapper_request`.
pub record Request : Type 0 where
  pub id : ℕ
  pub tid : ℕ
  pub is_done : Bool
  pub rcv_data : ℕ

-- `qemu_wrapper_requests`, the free requests and the busy ones.
pub record Requests : Type 0 where
  pub free : List Request
  pub busy : List Request

-- The constructor of a request: `tid` is an `unsigned char`.
abbrev pub fresh : ℕ → Request
fresh id = record { id = id; tid = id % 256; is_done = false; rcv_data = 0 }

-- The requests from `id` on.
pub fresh_from : ℕ → ℕ → List Request
fresh_from id zero = []
fresh_from id (suc n) = fresh id ∷ fresh_from (id + 1) n

pub new : ℕ → Requests
unfolding fresh_from
new count = record { free = fresh_from 1 count; busy = [] }

abbrev pub any {ℓ} : {A : Type ℓ} → List A → Bool
any [] = false
any (x ∷ xs) = true

abbrev pub taken : Request → Request
taken p = record p { is_done = false; rcv_data = 0xDEADDEAD }

-- `GetNewRequest` behind its loop, by the list of the free requests.
abbrev pub take_first : Requests → List Request → Outcome (Attempt (Request × Requests))
take_first s [] = exits
take_first s (p ∷ rest) = returns (done (taken p, record { free = rest; busy = taken p ∷ s.busy }))

pub get_new_request : Requests → Bool → Outcome (Attempt (Request × Requests))
get_new_request s false = take_first s s.free
get_new_request s true = if any s.busy then returns waits else take_first s s.free

-- The loop of `GetRequestByTid`.
pub find_tid : List Request → ℕ → Option Request
find_tid [] tid = none
find_tid (p ∷ rest) tid = let on = find_tid rest tid in if p.tid == tid then some p else on

pub get_request_by_tid : Requests → ℕ → Option Request
unfolding find_tid
get_request_by_tid s tid = find_tid s.busy tid

-- A request that is passed over stays in the list.
abbrev pub pass_over : Request → Option (Request × List Request) → Option (Request × List Request)
pass_over p none = none
pass_over p (some (q, left)) = some (q, p ∷ left)

-- The loop of `FreeRequest`: the request, where it is found, and the list without it.
pub unlink : List Request → ℕ → Option (Request × List Request)
unlink [] id = none
unlink (p ∷ rest) id =
    let on = unlink rest id in if p.id == id then some (p, rest) else pass_over p on

abbrev pub give_back : Requests → Option (Request × List Request) → Requests
give_back s none = s
give_back s (some (p, left)) = record { free = p ∷ s.free; busy = left }

-- `FreeRequest`, which only reports a request that is not busy.
pub free_request : Requests → ℕ → Requests
unfolding unlink
free_request s id = give_back s (unlink s.busy id)

-- What the processor does with the pool: it asks for a request, or gives one back.
pub data Call : Type 0 where
  take : Bool → Call
  give : ℕ → Call

abbrev pub after_take {ℓ} : {A : Type ℓ} → Requests → Attempt (A × Requests) → Requests
after_take s waits = s
after_take s (done (p, s')) = s'

pub step : Requests → Call → Outcome Requests
unfolding get_new_request free_request
step s (take wait_empty) = do r ← get_new_request s wait_empty; returns (after_take s r)
step s (give id) = returns (free_request s id)

pub run : Requests → List Call → Outcome Requests
unfolding step
run s [] = returns s
run s (c ∷ cs) = do s' ← step s c; run s' cs
