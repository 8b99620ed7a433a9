-- ===== src/Controller/Tally.antt =====
-- The two loops that `getAllJobStatus` (pkg/controller/helper.go) and
-- `getAllJobStatusFromDaemonJob` (pkg/controller/daemonjob_controller.go) share word for word:
-- which jobs are an owner's, and how they are counted.
pub mod Counts
pub mod Owned
use job_deploy_operator.Base.{
  ℕ, Text, text_eq, GoMap, insert, ◌&&◌, List, [], ◌∷◌, ◌++◌, length, ◌==◌, nat_eq, if◌then◌else◌,
}
use job_deploy_operator.Api.Kube.{OwnerReference, JobStatus, Job}
use job_deploy_operator.Controller.Common.{status_key}

-- The inner loop of the filter: the job once for each reference to an owner of this kind and name.
unfoldable pub owned_copies : Text → Text → Job → List OwnerReference → List Job
owned_copies kind name job [] = []
owned_copies kind name job (r ∷ rs) =
    let rest = owned_copies kind name job rs in
    if r.kind == kind && r.name == name then job ∷ rest else rest

unfoldable pub owned_jobs : Text → Text → List Job → List Job
unfolding owned_copies
owned_jobs kind name [] = []
owned_jobs kind name (job ∷ jobs) =
    owned_copies kind name job job.metadata.owner_references ++ owned_jobs kind name jobs

-- The three lists and the map that the loop over the owned jobs fills.
pub record Tally : Type 0 where
  pub running_jobs : List Text
  pub failed_jobs : List Text
  pub completed_jobs : List Text
  pub job_status_list : GoMap JobStatus

abbrev pub empty_tally : Tally
empty_tally = record {
  running_jobs = [];
  failed_jobs = [];
  completed_jobs = [];
  job_status_list = [];
}

-- One iteration: a job counts in one list at most, the first whose counter is exactly one.
unfoldable pub add_job : Tally → Job → Tally
add_job t job =
    let s = job.status in
    let name = job.metadata.name in
    let u = record t {
      job_status_list = insert (status_key name job.metadata.namespace) s t.job_status_list;
    } in
    if s.succeeded == 1
    then record u { completed_jobs = t.completed_jobs ++ name ∷ [] }
    else if s.failed == 1
    then record u { failed_jobs = t.failed_jobs ++ name ∷ [] }
    else if s.active == 1
    then record u { running_jobs = t.running_jobs ++ name ∷ [] }
    else u

unfoldable pub tally_jobs : Tally → List Job → Tally
unfolding add_job
tally_jobs t [] = t
tally_jobs t (job ∷ jobs) = tally_jobs (add_job t job) jobs
