-- ===== src/Informers.antt =====
-- pkg/client/informers/externalversions: the generated informers and their factory.
pub mod Cache
pub mod Factory
pub mod JobFlows
pub mod DaemonJobs
pub mod JobTemplates
pub mod Generic
