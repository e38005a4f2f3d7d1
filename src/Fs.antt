-- ===== src/Fs.antt =====
-- The file system: fs/bio.c, fs/fs.c and fs/file.c.
pub mod Volume
pub mod Inodes
pub mod Content
pub mod Directories
pub mod OpenFiles
pub mod Bio
