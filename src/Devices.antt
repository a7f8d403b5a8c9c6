-- ===== src/Devices.antt =====
-- The devices under components/, each an implementation of `Slave.Device`.
pub mod Mailbox
pub mod Aicu
pub mod BlockDevice
pub mod DoubleBuffer
pub mod Lanes
pub mod Mem
pub mod Sem
pub mod Sram
pub mod Framebuffer
pub mod Ramdac
pub mod SlFramebuffer
pub mod SlTimer
pub mod SlTty
pub mod Tg
pub mod Timer
pub mod TtySerial
