-- ===== src/FileSystem.antt =====
-- The FileSystem process (FileSystem/src).
pub mod Bitmap
pub mod Operaciones
pub mod Handler
