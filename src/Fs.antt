-- ===== src/Fs.antt =====
-- The servers of file contents: src/fs and src/include/fs.
pub mod ExtentServer
