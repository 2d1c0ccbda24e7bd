-- ===== src/User.antt =====
-- user/: programs of the user.
pub mod Grep
pub mod Shell
pub mod Number
