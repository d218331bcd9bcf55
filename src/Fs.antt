-- ===== src/Fs.antt =====
-- src/gcs_fs.hpp and src/gcs_fs.cpp: the file system, its state and its callbacks.
pub mod State
pub mod Upload
pub mod Lookups
pub mod Reads
pub mod Writes
pub mod Contents
pub mod Invariant
pub mod Steps
pub mod Spec
pub mod Remount
pub mod Interleaved
pub mod Truthful
pub mod Frame
