-- ===== src/Lib.antt =====
-- Rabbits: the network, the devices and the device framework of a multiprocessor simulator.
--
-- The simulator (rabbits/components) joins processors and devices by an abstract network. A master
-- packs an access into a request packet, the network looks its address up in the master's map and
-- queues the request at a slave, the slave's thread serves it on its device, and a response packet
-- goes back. The files follow that path.
--
-- - Noc/Fifo: mwsr_ta_fifo of abstract_noc/mwsr_ta_fifo.{h,cpp}, the ring buffer of each queue.
--   `read` and `write` are `Read` and `Write`; where the C++ thread suspends, a call `waits`.
--   Noc/Queue is the bounded queue that the fifo is compared with.
-- - Noc/Packet: the VCI packets of abstract_noc/abstract_noc.h.
-- - Noc/Routing: the address map of abstract_noc/interconnect_master.{h,cpp}. `translate` is what
--   `dispatch_requests_thread` does to one request; `read_map` is the constructor's loop over what
--   `fscanf` returns.
-- - Noc/Network: the nodes and threads of abstract_noc/interconnect.{h,cpp}, interconnect_master.cpp
--   and interconnect_slave.{h,cpp}. An event is a call of `put` or `get` by a device, or a step of the
--   thread of a node: from its `wait` back to it, a thread first reads a packet (`fetch_request`) and
--   then passes it on (`pass_request`, tried again while the queue is full). `run` takes the events in
--   any order. The steps are stated over any queue; Network/Buffers has the ring buffers of the code
--   against bounded queues, and Network/Order what is on its way from a master to a slave.
-- - Slave: slave_device/slave_device.{h,cpp}. `serve` is one round of `request_thread`, over a
--   device, which is the function that a device's `rcv_rqst` computes. Slave/Protocol has the
--   interface `Contract` that a device fills: which accesses return, and what they keep.
-- - Master: master_device/master_device.{h,cpp}: `send_req`, and `receive`, one round of
--   `response_thread`.
-- - Devices: one module for each device, with the constructor, `write`, `read` and `rcv_rqst` of its
--   class: Mailbox (sl_mailbox), Aicu (aicu, with a round of its `irq_update_thread`), Mem (mem), Sram
--   (sram), Sem (sem), TtySerial (tty_serial), Timer (timer), SlTimer (sl_timer), Tg (tg),
--   SlFramebuffer (sl_framebuffer), Framebuffer (framebuffer, without the transfer of a frame by its bus
--   master), Ramdac (ramdac), SlTty (sl_tty and tty) and BlockDevice (sl_blockdevice). DoubleBuffer is
--   the pair of images that SlFramebuffer and Ramdac show in turn. Lanes is the switch on byte enables
--   that the memories share. Tg has its file as the list of bytes that `fopen` gives, and the length as
--   `ftell` gives it, a `long` of 32 bits. Timer has its thread as a step relation, with the steps of the scheduler that it rests on. Sem/Lock is
--   the lock that a word of the semaphores is compared with. Mem/Transfer follows a write and a read
--   from two masters through the slave's thread and back. BlockDevice/Control is the control thread of
--   the disk with its bus master: a `Location` is the `wait` at which the thread stands, an event is an
--   access, a response or a run of a thread, and `Host` has the calls on the file of the host. A list of
--   events that goes on after an operation at which the thread never waits again has no result.
-- - Etrace: the energy trace of etrace/etrace_if.{h,cpp}. Etrace itself has the samples (`__r_update_samples`
--   is `r_update_samples`) and `get_sample`, Modes the change of a mode, Register `add_periph` and the
--   numbering of the peripherals in `display_init`, Average `roll_average`, and Meter a round of the
--   thread `scope_trigger` with the measure. The recursion over the samples runs on fuel, the stamp of
--   the change: each round ends a sample one period later, and a period is not 0.
-- - QemuWrapper/Requests: the pool of requests of qemu_wrapper/qemu_wrapper_request.{h,cpp}, with a
--   `run` of calls on it.
-- - Base, Bits, Bytes and Move: numbers, lists, the outcome of a call, bits of words, words in byte
--   arrays and copies between byte arrays.
--
-- Conventions. A call has an `Outcome`: it returns, it ends the simulation by `exit`, or it touches
-- memory outside its object (`faults`). The host is a 32-bit little-endian machine, on which
-- `unsigned long` has 4 bytes, as the code assumes where it takes 8 bytes of data for two of them;
-- a word is a number below 2 ^ 32 and arithmetic on it is reduced modulo 2 ^ 32, that of the
-- `uint64_t` of Etrace modulo 2 ^ 64. Fields that the
-- code leaves unset are 0, and arguments of the constructor where the disk and the display read them. Time passes
-- in `wait`, which has no effect on the state and is left out; SlTimer and Etrace alone read the time,
-- which their functions take as an argument, in picoseconds and in nanoseconds. The loops of `response_thread` and of the
-- memory over a byte enable run on fuel 8, the number of its bits: each round takes one bit, and
-- the tables over all 256 bytes are computed.
--
-- Not modelled: the SystemC kernel, tracing and printing, files, pipes, sockets and the processes of
-- the viewers, the display thread of the framebuffer and its bus master, the processor emulator
-- behind qemu_wrapper and the wrappers around it, and the components that are not named above.
pub mod Base
pub mod Bits
pub mod Bytes
pub mod Move
pub mod Noc
pub mod Slave
pub mod Master
pub mod Devices
pub mod Etrace
pub mod QemuWrapper
