-- ===== src/StatCache.antt =====
-- src/stat_cache.hpp and src/stat_cache.cpp: the trie of cached file and directory metadata.
pub mod Path
pub mod Trie
pub mod Cache
