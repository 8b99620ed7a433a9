-- ===== src/Controller/Daemon/Reconcile.antt =====
-- `Reconcile` of pkg/controller/daemonjob_controller.go, less its second of sleep.
pub mod Updates
pub mod Outcome
use job_deploy_operator.Base.{Text, codes, text_eq, false, [], some, none, ◌==◌, if◌then◌else◌}
use job_deploy_operator.Api.Kube.{NamespacedName, Error, is_not_found, Reconciled, ok, err}
use job_deploy_operator.Api.DaemonJob.{DaemonJob, failed}
use job_deploy_operator.Controller.Client.{
  Client, Action, pure, record_event, get_daemon_job, ◌>>=◌, ◌>>◌,
}
use job_deploy_operator.Controller.Flow.Reconcile.{done, retry_later, failure_event, unread}
use job_deploy_operator.Controller.Daemon.Deploy.{daemon_key, deploy_daemon_job}
use job_deploy_operator.Controller.Daemon.Status.{update_status}

-- `reconcile.Result{}, err`
abbrev pub give_up : Error → Reconciled
give_up e = record { requeue = false; requeue_after = 0; error = some e }

module _ {S : Type 0} (client : Client S) where
  abbrev pub report_failure : DaemonJob → Error → Action S Reconciled
  report_failure dj e = do
    record_event (failure_event (daemon_key dj) (codes "Failed") e)
    pure (retry_later e)

  unfoldable pub deploy_and_update : DaemonJob → Action S Reconciled
  deploy_and_update dj = do
    deployed ← deploy_daemon_job client dj
    elim deployed.0 [
      | err e ↦ report_failure dj e
      | ok _ ↦ do
        updated ← update_status client deployed.1
        elim updated [ ok _ ↦ pure done | err e ↦ report_failure dj e ]
    ]

  unfoldable pub reconcile : NamespacedName → Action S Reconciled
  reconcile req = do
    found ← get_daemon_job client req
    elim found [
      | err e ↦
          if is_not_found e
          then pure done
          else do record_event (failure_event unread (codes "Created") e); pure (give_up e)
      | ok dj ↦ if dj.status.state == failed then pure done else deploy_and_update dj
    ]
