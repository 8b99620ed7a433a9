-- ===== src/Controller/Daemon/Status/States.antt =====
-- The state of a DaemonJob, from the counters of the jobs that it owns.
use job_deploy_operator.Base.{
  ℕ, Bool, codes, Text, lookup, ◌≡◌, refl, ◌∙◌, List, Option, none, some, length,
}
use job_deploy_operator.Api.Kube.{Node, Job}
use job_deploy_operator.Api.JobFlow.{
  succeed as flow_succeed, terminating as flow_terminating, failed as flow_failed,
  running as flow_running, pending as flow_pending,
}
use job_deploy_operator.Api.DaemonJob.{
  DaemonJob, daemon_job_kind, succeed, terminating, failed, running, pending,
}
use job_deploy_operator.Controller.Tally.{Tally, empty_tally, owned_jobs, tally_jobs}
use job_deploy_operator.Controller.Tally.Counts.{
  is_completed, is_failed, is_running, tally_jobs-Counted, tally_jobs-status,
}
use job_deploy_operator.Controller.Tally.Owned.{
  references_of, last_of, count-owned_jobs, last_status-owned_jobs,
}
use job_deploy_operator.Controller.Flow.Status.{decide_state as flow_decide_state}
use job_deploy_operator.Controller.Flow.Status.States.{StateFor, decide_state-StateFor}
use job_deploy_operator.Controller.Daemon.Nodes.{target_nodes}
use job_deploy_operator.Controller.Daemon.Status.{decide_state, daemon_job_status}

-- The two controllers decide the state in the same way.
pub decide_state-eq_flow :
    (deleted : Option ℕ) (expected : ℕ) (t : Tally)
    → decide_state deleted expected t ≡ flow_decide_state deleted expected t
unfolding decide_state flow_decide_state succeed terminating failed running pending flow_succeed
    flow_terminating flow_failed flow_running flow_pending
decide_state-eq_flow (some at) expected t = refl
decide_state-eq_flow none expected t = refl

-- How often the jobs with the property refer to the DaemonJob as their owner, by kind and name.
abbrev pub counted : (Job → Bool) → DaemonJob → List Job → ℕ
counted p dj jobs = references_of p (codes "DaemonJob") dj.metadata.name jobs

-- The state of a DaemonJob is decided as that of a JobFlow, from the jobs that refer to it as their
-- owner by kind and name, once for each reference: a job completed if it has exactly one success,
-- else failed if it has exactly one failure, else runs if exactly one pod is active. As many jobs are
-- expected as there are nodes that it does not leave out. Under each key the map has the status of
-- the last of these jobs whose name, a slash and whose namespace make the key.
pub daemon_state_of_counts :
    (dj : DaemonJob) (jobs : List Job) (nodes : List Node) (k : Text)
    → StateFor dj.metadata.deletion_timestamp
        (daemon_job_status dj jobs nodes).state
        (length (target_nodes dj nodes))
        (counted is_completed dj jobs)
        (counted is_failed dj jobs)
        (counted is_running dj jobs)
      × (lookup k (daemon_job_status dj jobs nodes).job_status_list
          ≡ last_of (codes "DaemonJob") dj.metadata.name k none jobs)
unfolding daemon_job_status daemon_job_kind
daemon_state_of_counts dj jobs nodes k =
    let name = dj.metadata.name in
    let owned = owned_jobs daemon_job_kind name jobs in
    let t = tally_jobs empty_tally owned in
    (
      rw
          (
            decide_state-eq_flow,
            ← count-owned_jobs is_completed daemon_job_kind name jobs,
            ← count-owned_jobs is_failed daemon_job_kind name jobs,
            ← count-owned_jobs is_running daemon_job_kind name jobs,
          )
          (decide_state-StateFor dj.metadata.deletion_timestamp (length (target_nodes dj nodes)) t
            owned (tally_jobs-Counted owned)),
      tally_jobs-status k empty_tally owned
          ∙ unfold lookup in last_status-owned_jobs daemon_job_kind name k jobs none,
    )
