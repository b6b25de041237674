-- ===== src/Gpu.antt =====
-- src/quetz_gpu_device.cc and .h: QuetzGpuDevice, the accelerator behind MMIO registers. State has
-- its fields, Retire the latency model, Op the DMA state machine of a kernel operation, Mmio the
-- register handlers, and Device its clock and its histories.
pub mod State
pub mod Retire
pub mod Op
pub mod Mmio
pub mod Device
pub mod Irq
pub mod Hold
pub mod Tickets
pub mod Histories
pub mod Busy
mod Examples
