-- ===== src/Iface/Handlers.antt =====
-- The handlers of C/arbitrator/iface_handlers.c. The messages that they print are left out.
pub mod Access
pub mod Moves
pub mod Structure
pub mod Filters
pub mod States
