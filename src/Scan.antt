-- ===== src/Scan.antt =====
-- src/machinery/scantask and include/dindexer-machinery/scantask: the tasks that fill the records of a
-- set when they are first asked for.
pub mod DirTree
pub mod Hashing
pub mod Files
pub mod Lazy
pub mod Media
