-- ===== src/Kernel.antt =====
-- The simulation kernel, src/main/scala/neko/kernel.
pub mod Activities
pub mod Scheduler
