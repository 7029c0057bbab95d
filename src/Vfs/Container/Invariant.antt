-- ===== src/Vfs/Container/Invariant.antt =====
-- What the operations of EncryptedVFSContainer do to m_files: this file has the parts of
-- writeFileData, in its children.
mod Files
mod Moves
pub use Files.*
pub use Moves.*
