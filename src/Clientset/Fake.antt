-- ===== src/Clientset/Fake.antt =====
-- The fakes of the clients in pkg/client/clientset/versioned/typed.
pub mod JobFlows
pub mod DaemonJobs
pub mod JobTemplates
pub mod Simple
