-- ===== src/Gcs.antt =====
-- src/gcs: the request types, the Google client library that the program calls, and the two
-- wrappers around it. The library is a parameter.
pub mod Sdk
pub mod Client
pub mod Laws
