-- ===== src/Devices/Tg/Tests.antt =====
-- A file of three bytes, of which seven are played.
use rabbits.Base.{ℕ, ◌≡◌, List, [], ◌∷◌, some, returns, arith}
use rabbits.Devices.Tg.{Tg, new, read_bytes}
use rabbits.Devices.Tg.Cycle.{playing, plays_file}

abbrev tune : List ℕ
tune = 5 ∷ 6 ∷ 7 ∷ []

plays_file_example :
    (t : Tg) × (new (some tune) ≡ returns t)
    × (read_bytes 7 t 0 (0 ∷ 0 ∷ 0 ∷ 0 ∷ 0 ∷ 0 ∷ 0 ∷ 0 ∷ [])
        ≡ (5 ∷ 6 ∷ 7 ∷ 5 ∷ 6 ∷ 7 ∷ 5 ∷ 0 ∷ [], playing tune 1))
plays_file_example =
    plays_file tune (omega arith) (omega arith) 7 0 (0 ∷ 0 ∷ 0 ∷ 0 ∷ 0 ∷ 0 ∷ 0 ∷ 0 ∷ [])
