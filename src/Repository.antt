-- ===== src/Repository.antt =====
-- src/wikipeople/repository.py: the operations on the tables. Each module below is one group of
-- methods; the modules under it prove what these do.
pub mod Counts
pub mod Results
pub mod Queue
pub mod Cleanup
pub mod OptOut
pub mod Standing
pub mod Wikis
pub mod State
pub mod Steps
