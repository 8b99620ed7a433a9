-- ===== src/Controller/Flow.antt =====
-- JobFlowController: pkg/controller/jobflow_controller.go and helper.go.
pub mod Prepare
pub mod Deploy
pub mod Status
pub mod Reconcile
pub mod Watch
pub mod Passes
