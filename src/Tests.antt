-- ===== src/Tests.antt =====
-- The theorems at concrete inputs: a small cluster in memory, and a JobFlow, a DaemonJob and a
-- JobTemplate like those of the tests in pkg/controller.
mod Cluster
mod Samples
mod Flows
mod Daemons
mod Templates
mod Clients
mod Listers
mod Passes
mod Wakes
mod Informers
mod Copies
mod Clientsets
mod Reconciles
mod Mains
mod FakeClientset
mod DaemonPasses
