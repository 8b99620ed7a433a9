-- ===== src/Controller/Flow/Status.antt =====
-- `getAllJobStatus` and `updateJobFlowStatus` of pkg/controller/helper.go.
pub mod States
use job_deploy_operator.Base.{
  ℕ, Text, codes, text_eq, GoMap, insert, Bool, ◌&&◌, ◌||◌, not, List, [], ◌∷◌, ◌++◌, map, Option,
  none, some, length, ltb, ◌==◌, nat_eq, if◌then◌else◌,
}
use job_deploy_operator.Api.Kube.{OwnerReference, JobStatus, Job, is_not_found, Result, ok, err}
use job_deploy_operator.Api.JobFlow.{
  JobFlow, JobFlowStatus, job_flow_kind, succeed, terminating, failed, running, pending,
}
use job_deploy_operator.Controller.Client.{
  Client, Event, normal, Action, pure, record_event, list_jobs, update_job_flow_status, ◌>>=◌, ◌>>◌,
}
use job_deploy_operator.Controller.Common.{get_job_name, status_key}
use job_deploy_operator.Controller.Tally.{Tally, empty_tally, owned_jobs, tally_jobs}
use job_deploy_operator.Controller.Flow.Deploy.{flow_key}

-- The state, from the deletion mark, the number of jobs that are expected, and the lists.
unfoldable pub decide_state : Option ℕ → ℕ → Tally → Text
decide_state (some _) expected t = terminating
decide_state none expected t =
    if not (expected == length t.completed_jobs)
    then if ltb 0 (length t.failed_jobs)
      then failed
      else if ltb 0 (length t.running_jobs) || ltb 0 (length t.completed_jobs)
      then running
      else pending
    else succeed

unfoldable pub get_all_job_status : JobFlow → List Job → JobFlowStatus
unfolding owned_jobs tally_jobs decide_state
get_all_job_status jf all_jobs =
    let job_list = map (λ flow. get_job_name jf.metadata.name flow.name) jf.spec.flows in
    let t = tally_jobs empty_tally (owned_jobs job_flow_kind jf.metadata.name all_jobs) in
    record {
      job_status_list = t.job_status_list;
      state = decide_state jf.metadata.deletion_timestamp (length job_list) t;
    }

unfoldable pub finished_message : Text → Text
finished_message name = codes "finshed JobFlow named " ++ name

module _ {S : Type 0} (client : Client S) where
  abbrev pub report_finished : JobFlow → Action S (Unit {0})
  report_finished jf =
      if jf.status.state == succeed || jf.status.state == failed
      then record_event (record {
        object = flow_key jf;
        type = normal;
        reason = jf.status.state;
        message = finished_message jf.metadata.name;
      })
      else pure tt

  -- The rest of `updateJobFlowStatus`, once the status is in the JobFlow.
  unfoldable pub save_status : JobFlow → Action S (Result (Unit {0}))
  save_status jf = do
    report_finished jf
    updated ← update_job_flow_status client jf
    pure (elim updated [ ok _ ↦ ok tt | err e ↦ if is_not_found e then ok tt else err e ])

  unfoldable pub update_status : JobFlow → Action S (Result (Unit {0}))
  unfolding get_all_job_status save_status
  update_status jf = do
    listed ← list_jobs client
    elim listed [
      | err e ↦ pure (err e)
      | ok jobs ↦ save_status (record jf { status = get_all_job_status jf jobs })
    ]
