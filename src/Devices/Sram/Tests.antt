-- ===== src/Devices/Sram/Tests.antt =====
-- The static memory at concrete inputs.
use rabbits.Base.{ℕ, ◌≡◌, refl, false, List, [], ◌∷◌, some, none, returns}
use rabbits.Move.{move}
use rabbits.Devices.Lanes.{switch_be}
use rabbits.Devices.Lanes.Agree.{selected}
use rabbits.Devices.Sram.{Sram, write}

abbrev packet : List ℕ
packet = 11 ∷ 12 ∷ 13 ∷ 14 ∷ 15 ∷ 16 ∷ 17 ∷ 18 ∷ []

abbrev small : Sram
small = record {
  size = 16;
  mem = 0 ∷ 1 ∷ 2 ∷ 3 ∷ 4 ∷ 5 ∷ 6 ∷ 7 ∷ 8 ∷ 9 ∷ 10 ∷ 11 ∷ 12 ∷ 13 ∷ 14 ∷ 15 ∷ [];
}

upper_half : selected 0x30 ≡ some (4, 2)
unfolding selected switch_be
upper_half = refl

stores :
    write small 8 0x30 packet
    ≡ returns (
      record small {
        mem = 0 ∷ 1 ∷ 2 ∷ 3 ∷ 4 ∷ 5 ∷ 6 ∷ 7 ∷ 8 ∷ 9 ∷ 10 ∷ 11 ∷ 15 ∷ 16 ∷ 14 ∷ 15 ∷ [];
      },
      false,
    )
unfolding write switch_be move
stores = refl

scattered : selected 0x05 ≡ none
unfolding selected switch_be
scattered = refl
