-- ===== src/Mailbox.antt =====
-- src/quetz_mmio_sync.h and qemu-overlay/quetz_ipc_client.c: the mailbox that the simulation and QEMU
-- share, with its interrupt slots and its request and response slots.
pub mod Irq
pub mod Slot
mod Stages
mod Exclusive
mod Seqlock
mod Scan
mod Lossless
mod Delivery
mod Examples
mod SlotExamples
