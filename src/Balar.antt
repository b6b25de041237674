-- ===== src/Balar.antt =====
-- src/quetz_balar_accelerator_port.cc and .h: the host side of the accelerator balar, with its
-- doorbell, the flush of staged lines before it, and the queue of posted submissions.
mod Tagged
pub mod State
pub mod Doorbell
pub mod Aperture
pub mod Response
mod Fifo
mod Refine
mod Answers
mod Histories
mod Flush
mod Apart
mod Fence
mod Queue
mod Errors
mod Lines
mod Examples
