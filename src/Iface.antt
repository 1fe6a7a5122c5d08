-- ===== src/Iface.antt =====
-- The interface that configures the arbitrator over a connection: C/arbitrator/iface.c and
-- C/arbitrator/iface_handlers.c, built with USE_TEXT_QUEUE_IN and USE_TEXT_QUEUE_OUT as the Makefile
-- does, in user mode.
pub mod Sound
pub mod Monad
pub mod Read
pub mod Handlers
pub mod Operations
pub mod Transact
pub mod Connection
pub mod Pipes
