-- ===== src/Proc.antt =====
-- kernel/proc.c and kernel/proc.h: the process table and its scheduler.
pub mod Types
pub mod Priority
pub mod Scheduler
pub mod Race
pub mod Sleep
pub mod Env
pub mod Life
pub mod Fork
pub mod Exit
pub mod Wait
pub mod SetPriority
