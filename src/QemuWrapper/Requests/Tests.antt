-- ===== src/QemuWrapper/Requests/Tests.antt =====
-- A pool of three requests.
use rabbits.Base.{◌+◌, ◌≡◌, refl, true, false, List, [], ◌∷◌, returns}
use rabbits.QemuWrapper.Requests.{
  Requests, fresh, fresh_from, new, taken, get_new_request, unlink, free_request, Call, take, give,
  step, run,
}
use rabbits.QemuWrapper.Requests.Pool.{occurs, each_request_once}

-- The third call waits, since two requests are busy, and the fourth reports an unknown request.
abbrev script : List Call
script = take false ∷ take false ∷ take true ∷ give 7 ∷ give 1 ∷ take false ∷ []

abbrev finish : Requests
finish = record { free = fresh 3 ∷ []; busy = taken (fresh 1) ∷ taken (fresh 2) ∷ [] }

script-runs : run (new 3) script ≡ returns finish
unfolding run step new fresh_from get_new_request free_request unlink
script-runs = refl

each_request_once_example : occurs 3 finish.free + occurs 3 finish.busy ≡ 1
each_request_once_example = each_request_once 3 script 3 script-runs
