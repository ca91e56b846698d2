-- ===== src/Hypervisor.antt =====
-- internal/hypervisor: the emulated devices that a guest drives through registers and queues.
pub mod Word
pub mod Uart
pub mod Transport
pub mod Memory
pub mod VirtQueue
pub mod Mmio
pub mod Blk
pub mod Drain
pub mod Net
pub mod Boot
mod Examples
