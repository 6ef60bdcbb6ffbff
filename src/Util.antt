-- ===== src/Util.antt =====
-- kubernetes/util: paths, files and archives.
pub mod DirPath
pub mod FilePath
pub mod System
pub mod FileOperator
pub mod TgzPacker
