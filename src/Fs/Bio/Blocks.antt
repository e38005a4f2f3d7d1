-- ===== src/Fs/Bio/Blocks.antt =====
-- The blocks of the root device in the cache of fs/bio.c, and the sectors of the disk.
mod Invariant
pub mod Init
pub mod Read
pub mod Write
pub mod Edit
pub use Invariant.*
