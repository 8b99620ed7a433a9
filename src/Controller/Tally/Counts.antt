-- ===== src/Controller/Tally/Counts.antt =====
-- What the loop over the owned jobs leaves in its three lists and in its map.
use job_deploy_operator.Base.{
  Text, text_eq, lookup, lookup-insert, ◌≡◌, refl, sym, ap, ◌∙◌, Bool, ◌&&◌, not, List, [], ◌∷◌,
  ◌++◌, map, Option, some, append_assoc, append-nil, length, length-map, select, count,
  length-select, nat_eq, ◌==◌, if◌then◌else◌, arith,
}
use job_deploy_operator.Api.Kube.{JobStatus, Job}
use job_deploy_operator.Controller.Common.{status_key}
use job_deploy_operator.Controller.Tally.{Tally, empty_tally, add_job, tally_jobs}

-- In which list a job counts, if in any.
abbrev pub is_completed : Job → Bool
is_completed job = job.status.succeeded == 1

abbrev pub is_failed : Job → Bool
is_failed job = not (is_completed job) && job.status.failed == 1

abbrev pub is_running : Job → Bool
is_running job = not (is_completed job) && (not (job.status.failed == 1) && job.status.active == 1)

abbrev pub names_of : (Job → Bool) → List Job → List Text
names_of p jobs = map (λ job. job.metadata.name) (select p jobs)

-- The loop by its result: each list has, in order, the names of the jobs that it is for.
pub record Sorted (before after : Tally) (jobs : List Job) : Type 0 where
  pub completed : after.completed_jobs ≡ before.completed_jobs ++ names_of is_completed jobs
  pub failed : after.failed_jobs ≡ before.failed_jobs ++ names_of is_failed jobs
  pub running : after.running_jobs ≡ before.running_jobs ++ names_of is_running jobs

add_job-Sorted : (t : Tally) (job : Job) → Sorted t (add_job t job) (job ∷ [])
unfolding add_job select
add_job-Sorted t job =
    ground (arith, append-nil t.completed_jobs, append-nil t.failed_jobs, append-nil t.running_jobs)

names_of-cons :
    (p : Job → Bool) (job : Job) (jobs : List Job)
    → names_of p (job ∷ []) ++ names_of p jobs ≡ names_of p (job ∷ jobs)
unfolding select
names_of-cons p job jobs = ground arith

pub tally_jobs-Sorted : (t : Tally) (jobs : List Job) → Sorted t (tally_jobs t jobs) jobs
unfolding tally_jobs
tally_jobs-Sorted t [] =
    unfold select in
    record {
      completed = sym (append-nil _);
      failed = sym (append-nil _);
      running = sym (append-nil _);
    }
tally_jobs-Sorted t (job ∷ jobs) =
    let first = add_job-Sorted t job in
    let rest = tally_jobs-Sorted (add_job t job) jobs in
    record {
      completed = rest.completed ∙ rw (first.completed, append_assoc, names_of-cons);
      failed = rest.failed ∙ rw (first.failed, append_assoc, names_of-cons);
      running = rest.running ∙ rw (first.running, append_assoc, names_of-cons);
    }

length-names_of : (p : Job → Bool) (jobs : List Job) → length (names_of p jobs) ≡ count p jobs
length-names_of p jobs =
    length-map (λ job. job.metadata.name) (select p jobs) ∙ length-select p jobs

-- The three lengths, from an empty start.
pub record Counted (t : Tally) (jobs : List Job) : Type 0 where
  pub completed : length t.completed_jobs ≡ count is_completed jobs
  pub failed : length t.failed_jobs ≡ count is_failed jobs
  pub running : length t.running_jobs ≡ count is_running jobs

pub tally_jobs-Counted : (jobs : List Job) → Counted (tally_jobs empty_tally jobs) jobs
tally_jobs-Counted jobs =
    let s = tally_jobs-Sorted empty_tally jobs in
    record {
      completed = ap length s.completed ∙ length-names_of is_completed jobs;
      failed = ap length s.failed ∙ length-names_of is_failed jobs;
      running = ap length s.running ∙ length-names_of is_running jobs;
    }

-- The status under a key: that of the last job with this key.
abbrev pub last_status : Text → Option JobStatus → List Job → Option JobStatus
last_status k found [] = found
last_status k found (job ∷ jobs) =
    last_status k
      (if status_key job.metadata.name job.metadata.namespace == k then some job.status else found)
      jobs

add_job-status :
    (k : Text) (t : Tally) (job : Job)
    → lookup k (add_job t job).job_status_list ≡ (
        if status_key job.metadata.name job.metadata.namespace == k
        then some job.status
        else lookup k t.job_status_list)
unfolding add_job
add_job-status k t job = ground (
  arith,
  lookup-insert (status_key job.metadata.name job.metadata.namespace) k job.status
      t.job_status_list,
)

pub tally_jobs-status :
    (k : Text) (t : Tally) (jobs : List Job)
    → lookup k (tally_jobs t jobs).job_status_list ≡ last_status k (lookup k t.job_status_list) jobs
unfolding tally_jobs
tally_jobs-status k t [] = refl
tally_jobs-status k t (job ∷ jobs) =
    tally_jobs-status k (add_job t job) jobs
    ∙ ap (λ found. last_status k found jobs) (add_job-status k t job)
