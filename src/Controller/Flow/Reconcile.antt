-- ===== src/Controller/Flow/Reconcile.antt =====
-- `Reconcile` of pkg/controller/jobflow_controller.go. The one second of sleep before the read is
-- left out: it changes nothing that is modelled.
pub mod Updates
pub mod Outcome
use job_deploy_operator.Base.{
  Text, codes, text_eq, true, false, [], some, none, ◌==◌, if◌then◌else◌,
}
use job_deploy_operator.Api.Kube.{
  NamespacedName, Error, is_not_found, is_bad_request, Reconciled, ok, err,
}
use job_deploy_operator.Api.JobFlow.{JobFlow, failed}
use job_deploy_operator.Controller.Client.{
  Client, Event, warning, Action, pure, record_event, get_job_flow, ◌>>=◌, ◌>>◌,
}
use job_deploy_operator.Controller.Flow.Deploy.{flow_key, deploy_job_flow}
use job_deploy_operator.Controller.Flow.Status.{update_status}

-- `reconcile.Result{}, nil` and `reconcile.Result{Requeue: true, RequeueAfter: …}, err`
abbrev pub done : Reconciled
done = record { requeue = false; requeue_after = 0; error = none }

abbrev pub retry_later : Error → Reconciled
retry_later e = record { requeue = true; requeue_after = 60; error = some e }

abbrev pub failure_event : NamespacedName → Text → Error → Event
failure_event object reason e = record {
  object = object;
  type = warning;
  reason = reason;
  message = e.message;
}

-- The event of a failed read is recorded on the empty object that `Get` was given.
abbrev pub unread : NamespacedName
unread = record { namespace = []; name = [] }

module _ {S : Type 0} (client : Client S) where
  -- From the label `continueExecution` on.
  unfoldable pub continue_execution : JobFlow → Action S Reconciled
  continue_execution jf = do
    updated ← update_status client jf
    elim updated [
      | ok _ ↦ pure done
      | err e ↦ do
        record_event (failure_event (flow_key jf) (codes "Failed") e)
        pure (retry_later e)
    ]

  unfoldable pub deploy_and_update : JobFlow → Action S Reconciled
  deploy_and_update jf = do
    deployed ← deploy_job_flow client jf
    elim deployed.0 [
      | ok _ ↦ continue_execution deployed.1
      | err e ↦ do
        record_event (failure_event (flow_key jf) (codes "Failed") e)
        if is_bad_request e then continue_execution deployed.1 else pure (retry_later e)
    ]

  unfoldable pub reconcile : NamespacedName → Action S Reconciled
  reconcile req = do
    found ← get_job_flow client req
    elim found [
      | err e ↦
          if is_not_found e
          then pure done
          else do record_event (failure_event unread (codes "Created") e); pure (retry_later e)
      | ok jf ↦ if jf.status.state == failed then pure done else deploy_and_update jf
    ]
