-- ===== src/Controller/Daemon.antt =====
-- DaemonJobController: pkg/controller/daemonjob_controller.go.
pub mod Nodes
pub mod Deploy
pub mod Status
pub mod Reconcile
pub mod Watch
