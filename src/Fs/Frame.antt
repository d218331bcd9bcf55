-- ===== src/Fs/Frame.antt =====
-- What the callbacks of src/gcs_fs.cpp leave alone: the files that they are not called for.
pub mod Leaves
pub mod Runs
pub mod Survives
