-- ===== src/Cpu.antt =====
-- src/quetzcpu_mmio_sync.cc: the CPU's routing of synchronous MMIO, between the mailbox, the window
-- caches, the accelerator ports, and the MMIO link.
pub mod Bytes
pub mod Route
pub mod Poll
pub mod Reply
mod Packing
mod Replies
mod Examples
