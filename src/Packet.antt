-- ===== src/Packet.antt =====
-- The packet logic, C/arbitrator/packet_logic.c: what is read of a packet, which chains it belongs to,
-- and the verdict on it.
pub mod Info
pub mod Filter
pub mod Verdict
pub mod Delay
pub mod Decide
