-- ===== src/Kernel.antt =====
-- The parts of the kernel build of C/arbitrator that differ from the program's: the branches under
-- __KERNEL__.
pub mod Mutex
pub mod Delayer
pub mod Device
pub mod Switcher
pub mod Stable
