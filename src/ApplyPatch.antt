-- ===== src/ApplyPatch.antt =====
-- Binary patches: applypatch/.
pub mod Bytes
pub mod BsPatch
pub mod FreeCache
pub mod ImgPatch
pub mod Sha
pub mod Load
pub mod Target
mod Tests
