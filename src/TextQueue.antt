-- ===== src/TextQueue.antt =====
-- The byte queues between the connection and the interface, C/arbitrator/text_queue_in.c and
-- C/arbitrator/text_queue_out.c, and the memory functions that they call.
pub mod Memory
pub mod In
pub mod Out
