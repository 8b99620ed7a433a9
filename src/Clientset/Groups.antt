-- ===== src/Clientset/Groups.antt =====
-- The clients of the API groups of the three types.
pub mod JobFlows
pub mod DaemonJobs
pub mod JobTemplates
