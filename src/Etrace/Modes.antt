-- ===== src/Etrace/Modes.antt =====
-- The change of a peripheral's mode, `etrace_if_mode_change` and `etrace_if::change_energy_mode`.
use rabbits.Base.{
  ℕ, ◌/◌, Bool, true, Option, none, some, List, [], ◌∷◌, Outcome, returns, faults, ◌>>=◌, ltb, leb,
  ◌==◌, if◌then◌else◌, bit_and,
}
use rabbits.Etrace.{Periph, ScopeState, update_samples}

abbrev pub mode_of : ℕ → ℕ
mode_of mode = bit_and mode 0x1F

abbrev pub fvset_of : ℕ → ℕ
fvset_of mode = bit_and (mode / 32) 0x07

-- The peripheral after the change.
abbrev pub retuned : Periph → (mode time : ℕ) → Periph
retuned p mode time = record p {
  curr_mode = mode_of mode;
  curr_fvset = fvset_of mode;
  last_change_stamp = time;
}

unfoldable pub refused : Periph → (mode time : ℕ) → Bool
refused p mode time =
    if leb p.pclass.nmodes (mode_of mode)
    then true
    else if leb p.pclass.nfvsets (fvset_of mode)
    then true
    else ltb time p.last_change_stamp

-- The peripheral is a shared object: the scope's list sees its new fields.
unfoldable pub put : Periph → List Periph → List Periph
put p [] = []
put p (q ∷ qs) = if q.handle == p.handle then p ∷ qs else q ∷ put p qs

unfoldable pub find : ℕ → List Periph → Option Periph
find h [] = none
find h (q ∷ qs) = if q.handle == h then some q else find h qs

unfoldable pub mode_change : ScopeState → Periph → (mode time : ℕ) → Outcome ScopeState
mode_change scope p mode time =
    if refused p mode time
    then returns scope
    else ((if ltb p.last_change_stamp time then update_samples scope p time else returns scope)
        >>= λ s. returns (record s { periphs = put (retuned p mode time) s.periphs }))

-- `periph_id` is the address of a peripheral; another address is dereferenced all the same.
abbrev pub mode_change_at : ScopeState → Option Periph → (mode time : ℕ) → Outcome ScopeState
mode_change_at scope none mode time = faults
mode_change_at scope (some p) mode time = mode_change scope p mode time

unfoldable pub change_energy_mode : ScopeState → (periph_id mode now : ℕ) → Outcome ScopeState
change_energy_mode scope periph_id mode now =
    mode_change_at scope (find periph_id scope.periphs) mode now
