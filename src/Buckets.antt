-- ===== src/Buckets.antt =====
-- Chained hash tables in the abstract: what both dictionaries (clib/hash.c and
-- clib/hash_interface.c) keep true of their arrays of chains. Nothing here models code.
pub mod Chain
pub mod Replace
pub mod Placed
