-- ===== src/Vfs.antt =====
-- plugins/vfs-cake: the encrypted container of virtual files.
pub mod Platform
pub mod Layout
pub mod Slots
pub mod Header
pub mod Container
pub mod Opening
mod Toy
