-- ===== src/Mirrored.antt =====
-- src/mirrored: the mirrored memory buffer and the memory behind it.
pub mod Memory
pub mod Size
pub mod Buffer
pub mod Linux
pub mod Space
pub mod Sysv
pub mod Winapi
pub mod Macos
