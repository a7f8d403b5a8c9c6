-- ===== src/Devices/BlockDevice/Status.antt =====
-- sl_block_device.h: `sl_block_status`.
use rabbits.Base.{ℕ}

abbrev pub idle : ℕ
idle = 0

abbrev pub busy : ℕ
busy = 1

abbrev pub read_success : ℕ
read_success = 2

abbrev pub write_success : ℕ
write_success = 3

abbrev pub read_error : ℕ
read_error = 4

abbrev pub write_error : ℕ
write_error = 5
