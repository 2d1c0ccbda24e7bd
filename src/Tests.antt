-- ===== src/Tests.antt =====
-- The theorems at concrete inputs.
mod Samples
mod Devices
mod Memory
mod Pages
mod Tables
mod Processes
mod Scheduling
mod Threads
mod Files
mod Disks
mod Users
mod Sleepers
