-- ===== src/Radix.antt =====
-- RadixTree (src/radix_tree.cpp, include/kvslab/radix_tree.hpp): the prefix index.
pub mod State
pub mod Entries
pub mod Match
pub mod Insert
pub mod Pin
pub mod Evict
pub mod Aligned
pub mod WellFormed
pub mod Sound
pub mod Steady
pub mod Clear
