-- ===== src/Api.antt =====
-- The objects of the program: the Kubernetes types that it uses, and the types of pkg/apis.
pub mod Kube
pub mod Scheme
pub mod JobFlow
pub mod DaemonJob
pub mod JobTemplate
