-- ===== src/Utp.antt =====
-- The uTP transport of src/utp/mod.rs: its numbers, clocks, packets and extensions.
pub mod Seq
pub mod Delay
pub mod Packet
pub mod Datagram
pub mod Sack
pub mod Ack
pub mod State
pub mod Stream
pub mod Manager
