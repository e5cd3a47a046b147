-- ===== src/Fs.antt =====
-- kernel/src/fs: the buffer cache and the block bitmap.
pub mod Buffer
pub mod Bitmap
pub mod Inode
pub mod Dentry
pub mod Path
pub mod File
