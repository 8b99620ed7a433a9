-- ===== src/Controller/Daemon/Status.antt =====
-- `getAllJobStatusFromDaemonJob` and `updateJobFlowStatus` of
-- pkg/controller/daemonjob_controller.go.
pub mod States
use job_deploy_operator.Base.{
  ℕ, Text, text_eq, ◌||◌, not, List, Option, none, some, length, ltb, ◌==◌, nat_eq, if◌then◌else◌,
}
use job_deploy_operator.Api.Kube.{Node, Job, Error, is_not_found, Result, ok, err}
use job_deploy_operator.Api.DaemonJob.{
  DaemonJob, DaemonJobStatus, daemon_job_kind, succeed, terminating, failed, running, pending,
}
use job_deploy_operator.Controller.Client.{
  Client, Event, normal, Action, pure, record_event, list_jobs, list_nodes,
  update_daemon_job_status, ◌>>=◌, ◌>>◌,
}
use job_deploy_operator.Controller.Tally.{Tally, empty_tally, owned_jobs, tally_jobs}
use job_deploy_operator.Controller.Flow.Status.{finished_message}
use job_deploy_operator.Controller.Daemon.Nodes.{target_nodes}
use job_deploy_operator.Controller.Daemon.Deploy.{daemon_key}

unfoldable pub decide_state : Option ℕ → ℕ → Tally → Text
decide_state (some _) expected t = terminating
decide_state none expected t =
    if not (expected == length t.completed_jobs)
    then if ltb 0 (length t.failed_jobs)
      then failed
      else if ltb 0 (length t.running_jobs) || ltb 0 (length t.completed_jobs)
      then running
      else pending
    else succeed

-- The status, once the nodes are listed.
unfoldable pub daemon_job_status : DaemonJob → List Job → List Node → DaemonJobStatus
unfolding owned_jobs tally_jobs target_nodes decide_state
daemon_job_status dj all_jobs nodes =
    let t = tally_jobs empty_tally (owned_jobs daemon_job_kind dj.metadata.name all_jobs) in
    record {
      job_status_list = t.job_status_list;
      state = decide_state dj.metadata.deletion_timestamp (length (target_nodes dj nodes)) t;
    }

module _ {S : Type 0} (client : Client S) where
  unfoldable pub get_all_job_status_from_daemon_job :
      DaemonJob → List Job → Action S (Result DaemonJobStatus)
  unfolding daemon_job_status
  get_all_job_status_from_daemon_job dj all_jobs = do
    listed ← list_nodes client
    pure (elim listed [ ok nodes ↦ ok (daemon_job_status dj all_jobs nodes) | err e ↦ err e ])

  abbrev pub report_finished : DaemonJob → Action S (Unit {0})
  report_finished dj =
      if dj.status.state == succeed || dj.status.state == failed
      then record_event (record {
        object = daemon_key dj;
        type = normal;
        reason = dj.status.state;
        message = finished_message dj.metadata.name;
      })
      else pure tt

  unfoldable pub save_status : DaemonJob → Action S (Result (Unit {0}))
  save_status dj = do
    report_finished dj
    updated ← update_daemon_job_status client dj
    pure (elim updated [ ok _ ↦ ok tt | err e ↦ if is_not_found e then ok tt else err e ])

  unfoldable pub update_status : DaemonJob → Action S (Result (Unit {0}))
  unfolding get_all_job_status_from_daemon_job save_status
  update_status dj = do
    listed ← list_jobs client
    elim listed [
      | err e ↦ pure (err e)
      | ok jobs ↦ do
        status ← get_all_job_status_from_daemon_job dj jobs
        elim status [ err e ↦ pure (err e) | ok s ↦ save_status (record dj { status = s }) ]
    ]
