-- ===== src/Controller.antt =====
-- pkg/controller: the three controllers, over the Kubernetes client that they are given.
pub mod Client
pub mod Common
pub mod Tally
pub mod Trace
pub mod Flow
pub mod Daemon
pub mod Template
