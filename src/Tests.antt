-- ===== src/Tests.antt =====
-- The theorems at concrete inputs, and runs of the definitions.
mod Memory
mod Stats
mod Readers
mod Mount
mod Settings
mod Lookups
mod Threads
mod Truthful
mod Frame
