-- ===== src/Concurrency.antt =====
-- concurrency/: the two simulations with threads.
pub mod Names
pub mod Cafe
pub mod Parlor
