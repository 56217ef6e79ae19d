-- ===== src/Tests.antt =====
-- The theorems applied at concrete inputs: the code of cfs/src on a system in memory.
pub mod Whole
pub mod Storage
pub mod Io
pub mod Cfs
pub mod Pairs
pub mod Blocks
pub mod Present
pub mod Write
pub mod Holes
pub mod Reach
pub mod Passed
pub mod Cat
pub mod Session
pub mod Log
pub mod Refused
pub mod Inside
pub mod ReadInside
pub mod Many
pub mod ManySession
pub mod Reading
pub mod Fuse
pub mod Util
