-- ===== src/Tests.antt =====
-- Runs of the methods on an instance of the outside parts that is kept in lists, and the theorems
-- applied to them.
pub mod Memory
pub mod Laws
pub mod Exex
mod Restart
pub mod Files
pub mod Heads
pub mod Disk
pub mod Codecs
mod Saved
mod Requests
mod Settings
mod Whole
mod Updated
mod Sockets
