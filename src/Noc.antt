-- ===== src/Noc.antt =====
-- components/abstract_noc: the abstract network on chip that joins the masters to the slaves.
pub mod Packet
pub mod Queue
pub mod Fifo
pub mod Routing
pub mod Network
