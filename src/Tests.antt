-- ===== src/Tests.antt =====
-- Runs of the code at concrete inputs.
mod Queue
mod Text
mod Files
mod Output
mod Memory
mod Tables
mod Mapped
mod Drivers
mod Serial
mod Devices
mod Disk
mod Interrupts
mod Kheap
mod Boot
mod Calls
