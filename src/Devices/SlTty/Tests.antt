-- ===== src/Devices/SlTty/Tests.antt =====
-- The terminals at concrete inputs.
use rabbits.Base.{
  ℕ, ◌≡◌, ◌++◌, refl, List, [], ◌∷◌, length, get_or, returns, faults, load, store, arith,
}
use rabbits.Bytes.{word32}
use rabbits.Devices.SlTty.{SlTty, put_char, Print, print_all, one_lane, tty_write, write}
use rabbits.Devices.SlTty.Output.{chars, print_all-chars}

abbrev two_terminals : SlTty
two_terminals = record { terminals = [] ∷ [] ∷ [] }

abbrev prints : List Print
prints =
    record { tty = 1; packet = 72 ∷ 0 ∷ 0 ∷ 0 ∷ 0 ∷ 0 ∷ 0 ∷ 0 ∷ [] }
    ∷ record { tty = 0; packet = 65 ∷ 0 ∷ 0 ∷ 0 ∷ 0 ∷ 0 ∷ 0 ∷ 0 ∷ [] }
    ∷ record { tty = 1; packet = 105 ∷ 0 ∷ 0 ∷ 0 ∷ 0 ∷ 0 ∷ 0 ∷ 0 ∷ [] }
    ∷ []

greeting : chars 1 prints ≡ 72 ∷ 105 ∷ []
unfolding word32
greeting = refl

print_all-chars_example :
    (s' : SlTty) × (print_all two_terminals prints ≡ returns s')
    × (length s'.terminals ≡ 2)
    × ((j : ℕ) → get_or s'.terminals j [] ≡ get_or ([] ∷ [] ∷ []) j [] ++ chars j prints)
print_all-chars_example =
    print_all-chars two_terminals prints (omega arith)
      (omega arith, (omega arith, (omega arith, tt)))

-- The offset of terminal 256 is that of terminal 0.
wraps :
    write two_terminals 4096 0x0F (65 ∷ 0 ∷ 0 ∷ 0 ∷ 0 ∷ 0 ∷ 0 ∷ 0 ∷ [])
    ≡ returns (record { terminals = (65 ∷ []) ∷ [] ∷ [] })
unfolding write put_char word32 load store
wraps = refl

-- A lane past the terminals is not refused.
lane_past : tty_write two_terminals 0 0x04 (0 ∷ 0 ∷ 65 ∷ 0 ∷ 0 ∷ 0 ∷ 0 ∷ 0 ∷ []) ≡ faults
unfolding tty_write one_lane put_char load
lane_past = refl
