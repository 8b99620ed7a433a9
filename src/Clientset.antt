-- ===== src/Clientset.antt =====
-- pkg/client/clientset/versioned/typed: the generated clients of the three types, and their fakes.
pub mod Rest
pub mod Testing
pub mod JobFlows
pub mod DaemonJobs
pub mod JobTemplates
pub mod Fake
pub mod Agree
pub mod Config
pub mod Groups
pub mod Schemes
pub mod Versioned
