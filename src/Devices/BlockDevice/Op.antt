-- ===== src/Devices/BlockDevice/Op.antt =====
-- sl_block_device.h: `sl_block_op`.
use rabbits.Base.{ℕ}

abbrev pub noop : ℕ
noop = 0

abbrev pub read : ℕ
read = 1

abbrev pub write : ℕ
write = 2

abbrev pub file_name : ℕ
file_name = 3
