-- ===== src/Fs.antt =====
-- kernel/fs.c: the file system on the disk that the log and the buffer cache present.
pub mod Layout
pub mod Bytes
pub mod Bitmap
pub mod Inode
pub mod Content
pub mod Transfer
pub mod Directory
pub mod Path
