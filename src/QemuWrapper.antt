-- ===== src/QemuWrapper.antt =====
-- components/qemu_wrapper: the processors' side of the network, less the emulator behind it.
pub mod Requests
