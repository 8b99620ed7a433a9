-- ===== src/Listers.antt =====
-- pkg/client/listers: the generated listers of the three types.
pub mod Indexer
pub mod JobFlows
pub mod DaemonJobs
pub mod JobTemplates
pub mod Found
