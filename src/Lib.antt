-- ===== src/Lib.antt =====
-- Quetz: the simulated devices, memory path and event pipeline of an SST element that runs a guest
-- under QEMU and gives its memory accesses a time.
--
-- The program's parts, and the files that model them:
--   * src/quetz_gpu_device.cc: an accelerator behind MMIO registers. Gpu/State has its fields and
--     helpers, Gpu/Retire the latency model, Gpu/Op the DMA state machine of a kernel operation,
--     Gpu/Mmio the register handlers, Gpu/Device the clock and histories of events. Gpu/Irq,
--     Gpu/Hold, Gpu/Tickets, Gpu/Histories and Gpu/Busy have the proofs. A handler is a function from a device
--     to a device, or to an Outcome where it may call fatal().
--   * src/quetz_stream_device.cc (Stream) and src/quetz_sink_device.cc (Sink): a device that replays a
--     file to the guest, and one that captures what the guest writes.
--   * src/quetz_memory_span.h and src/quetz_balar_flush_range.h (Memory): address arithmetic.
--   * src/quetz_mem_issue.cc (Emitter): the division of an access into requests of one cache line, a
--     window at a time, and the requests in flight. Emitter/Chunks and Emitter/Windows have the
--     tiling, Emitter/Flight the responses, Emitter/Budget the budgets.
--   * src/quetz_region_handlers.cc, src/quetz_region_table.cc and src/quetz_mem_access.cc (Region):
--     what becomes of an access by its address.
--   * src/quetz_pipeline.cc and its default stages (Pipeline): Pipeline/Feed expands the commands of
--     the plugin's tunnel into events, Pipeline/Classify decides an event's kind, and Pipeline issues
--     operations through the emitter after the region table has filtered them. Pipeline/Refill and
--     Budget have the queue and the budgets, Ends what halts a core.
--   * src/quetz_window_cache.h (WindowCache): the data cache of a ColdFire core over windows of native
--     memory. WindowCache/State has its fields, search and modes, WindowCache/Transact its operations,
--     WindowCache/Service a memory that answers it. WindowCache/View says what an address reads as;
--     Coherent and Filling have the writeback and the fill of a line, Push the drop of one, Rounds what
--     next asks for, and Kept and Transparent the answers.
--     WindowCache/Bank has the caches of one or two cores and their open requests (from
--     src/quetz_window_cache_bank.h), Owners and Answered who is answered.
--   * src/quetz_balar_accelerator_port.cc (Balar): the port of an accelerator behind a doorbell.
--     Balar/State has its fields and what it asks of the CPU, Doorbell the forwarding of doorbells and
--     the flushes before them, Aperture the asynchronous registers, Response the responses and the
--     calls of the port as steps. Queue is the abstract queue of submissions; Tagged, Fifo, Refine,
--     Answers and Histories relate the port to it, Flush, Apart and Fence follow the flushes, Errors
--     and Lines have the submissions and the lines that are flushed.
--   * src/quetz_mmio_sync.h, qemu-overlay/quetz_ipc_client.c and include/quetz/quetz_ipc_lock.h
--     (Mailbox): the shared memory between the simulation and QEMU, each access of either process a
--     step. Mailbox/Irq has the interrupt slots, with Seqlock, Scan, Lossless and Delivery; Slot the
--     request and response of a core, with Stages and Exclusive. That the simulation answers only
--     what it has taken is a hypothesis there.
--   * include/quetz/quetz_ipc_types.h and qemu-overlay/quetz_ipc_client.c, the native regions (Native):
--     their check, layout and lookup. Native/Valid says what the check means, Layout what is placed.
--   * src/quetzcpu_mmio_sync.cc (Cpu): the routing of synchronous MMIO. Cpu/Bytes has the byte orders,
--     Route the commands and the service of the window caches, Poll the mailbox, Reply the responses.
--     Packing and Replies follow a value there and back.
--   * src/quetz_platform_contract.h (Platform): the native regions as text, and in Platform/Launch the
--     check of a command line of QEMU. Options says what a command line gives, Scan and Accepted
--     what is accepted, Parsed what becomes of regions.
--   * include/quetz/quetz_ipc_types.h (Ipc), src/quetz_stats.h (CoreStats) and src/quetz_irq_event.h
--     (Device): the data that these parts exchange.
-- Base has the shared names: machine words with their wrap-around written out, arrays as lists,
-- Boolean tests, unordered maps as association lists (Base/Tables), and Outcome, the result of an
-- operation that may throw or call fatal().
--
-- Numbers are the native ones, and a w-bit operation has `% 2 ^ w` written out where it can wrap.
-- Statistics of the devices are unbounded counters, and those of a core a log of samples. SST's links
-- are logs of what was sent, newest first; its request ids are a counter. The loops of the emitter run
-- on as much fuel as the access has bytes, since a part is never empty, and the pipeline's tick on
-- twice the length of its queue and two rounds more, since a round takes the head of the queue or
-- marks it pending. The accelerator's issue loops run once for each
-- place in the DMA window, which is what bounds them in the code. The service of a window cache by
-- the CPU takes a bound on its rounds.
--
-- Not modelled: files, processes, printing and SST's configuration; the kernels' floating-point
-- arithmetic (a kernel is two functions); weak memory (an access of the mailbox is a step, in the
-- order of the program); the QEMU plugin and the devices of the overlay, which stand on QEMU's own
-- interfaces; the platform profiles, which are data.
pub mod Balar
pub mod Base
pub mod CoreStats
pub mod Cpu
pub mod Device
pub mod Emitter
pub mod Gpu
pub mod Ipc
pub mod Mailbox
pub mod Memory
pub mod Native
pub mod Pipeline
pub mod Platform
pub mod Region
pub mod Sink
pub mod Stream
pub mod WindowCache
