-- ===== src/Devices/Lanes.antt =====
-- The `switch (be)` that the memories and the semaphores share: the index and the width, in bytes,
-- of the one element that the lanes select.
pub mod Agree
pub mod Copy
use rabbits.Base.{ℕ, Option, none, some, ◌==◌, if◌then◌else◌}

unfoldable pub switch_be : ℕ → Option (ℕ × ℕ)
switch_be be =
    if be == 0x01
    then some (0, 1)
    else if be == 0x02
    then some (1, 1)
    else if be == 0x04
    then some (2, 1)
    else if be == 0x08
    then some (3, 1)
    else if be == 0x10
    then some (4, 1)
    else if be == 0x20
    then some (5, 1)
    else if be == 0x40
    then some (6, 1)
    else if be == 0x80
    then some (7, 1)
    else if be == 0x03
    then some (0, 2)
    else if be == 0x0C
    then some (1, 2)
    else if be == 0x30
    then some (2, 2)
    else if be == 0xC0
    then some (3, 2)
    else if be == 0x0F
    then some (0, 4)
    else if be == 0xF0
    then some (1, 4)
    else none
