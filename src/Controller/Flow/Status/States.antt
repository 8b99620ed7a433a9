-- ===== src/Controller/Flow/Status/States.antt =====
-- The state of a JobFlow, from the counters of the jobs that it owns.
use job_deploy_operator.Base.{
  ℕ, ◌+◌, ◌<◌, Bool, codes, Text, text_eq, lookup, ◌≡◌, refl, ◌∙◌, ◌≢◌, ◌↔◌, List, Option, none,
  some, length, length-map, count, arith,
}
use job_deploy_operator.Api.Kube.{Job}
use job_deploy_operator.Api.JobFlow.{
  JobFlow, job_flow_kind, succeed, terminating, failed, running, pending,
}
use job_deploy_operator.Controller.Tally.{Tally, empty_tally, owned_jobs, tally_jobs}
use job_deploy_operator.Controller.Tally.Counts.{
  is_completed, is_failed, is_running, Counted, tally_jobs-Counted, tally_jobs-status,
}
use job_deploy_operator.Controller.Tally.Owned.{
  references_of, last_of, count-owned_jobs, last_status-owned_jobs,
}
use job_deploy_operator.Controller.Flow.Status.{decide_state, get_all_job_status}

-- The five states are different texts.
states_differ :
    (succeed ≢ failed)
    × (succeed ≢ running)
    × (succeed ≢ pending)
    × (failed ≢ running)
    × (failed ≢ pending)
    × (running ≢ pending)
unfolding succeed failed running pending
states_differ = ground arith

-- What each state says of an owner that is not being deleted: the number of jobs that are
-- expected, and the jobs that completed, failed and run.
pub record IsStateOf (state : Text) (expected completed failing active : ℕ) : Type 0 where
  pub succeed_iff : (state ≡ succeed) ↔ (completed ≡ expected)
  pub failed_iff : (state ≡ failed) ↔ ((completed ≢ expected) × (0 < failing))
  pub running_iff :
      (state ≡ running) ↔ ((completed ≢ expected) × (failing ≡ 0) × (0 < active + completed))
  pub pending_iff :
      (state ≡ pending) ↔ ((completed ≢ expected) × (failing ≡ 0) × (active ≡ 0) × (completed ≡ 0))

decide_state-IsStateOf :
    (expected : ℕ) (t : Tally)
    → IsStateOf
        (decide_state none expected t)
        expected
        (length t.completed_jobs)
        (length t.failed_jobs)
        (length t.running_jobs)
unfolding decide_state
decide_state-IsStateOf expected t = record {
  succeed_iff = ground (arith, states_differ);
  failed_iff = ground (arith, states_differ);
  running_iff = ground (arith, states_differ);
  pending_iff = ground (arith, states_differ);
}

-- The state that a JobFlow with this deletion mark and these counts must have.
abbrev pub StateFor : Option ℕ → Text → (expected completed failing active : ℕ) → Type 0
StateFor (some _) state expected completed failing active = state ≡ terminating
StateFor none state expected completed failing active =
    IsStateOf state expected completed failing active

pub decide_state-StateFor :
    (deleted : Option ℕ) (expected : ℕ) (t : Tally) (jobs : List Job)
    → Counted t jobs
    → StateFor deleted
        (decide_state deleted expected t)
        expected
        (count is_completed jobs)
        (count is_failed jobs)
        (count is_running jobs)
decide_state-StateFor (some at) expected t jobs c = unfold decide_state in refl
decide_state-StateFor none expected t jobs c =
    rw (← c.completed, ← c.failed, ← c.running) (decide_state-IsStateOf expected t)

owned_state :
    (jf : JobFlow) (jobs : List Job)
    → let owned = owned_jobs job_flow_kind jf.metadata.name jobs in
      StateFor jf.metadata.deletion_timestamp
        (get_all_job_status jf jobs).state
        (length jf.spec.flows)
        (count is_completed owned)
        (count is_failed owned)
        (count is_running owned)
unfolding get_all_job_status
owned_state jf jobs =
    let owned = owned_jobs job_flow_kind jf.metadata.name jobs in
    rw length-map (
      decide_state-StateFor jf.metadata.deletion_timestamp (length jf.spec.flows)
        (tally_jobs empty_tally owned) owned (tally_jobs-Counted owned))

-- How often the jobs with the property refer to the JobFlow as their owner, by kind and name.
abbrev pub counted : (Job → Bool) → JobFlow → List Job → ℕ
counted p jf jobs = references_of p (codes "JobFlow") jf.metadata.name jobs

-- Count each listed job as often as it has an owner reference of the kind JobFlow with the name of
-- the JobFlow. Say that it completed if it has exactly one success; else, that it failed if it has
-- exactly one failure; else, that it runs if exactly one pod is active. A JobFlow that is being
-- deleted is Terminating. Of any other, with as many jobs expected as it has flows, the state is
-- Succeed exactly when that many completed; else it is Failed exactly when one failed; else Running
-- exactly when one runs or completed; and else Pending.
pub state_of_counts :
    (jf : JobFlow) (jobs : List Job)
    → StateFor jf.metadata.deletion_timestamp
        (get_all_job_status jf jobs).state
        (length jf.spec.flows)
        (counted is_completed jf jobs)
        (counted is_failed jf jobs)
        (counted is_running jf jobs)
unfolding job_flow_kind
state_of_counts jf jobs =
    let name = jf.metadata.name in
    rw
      (
        ← count-owned_jobs is_completed job_flow_kind name jobs,
        ← count-owned_jobs is_failed job_flow_kind name jobs,
        ← count-owned_jobs is_running job_flow_kind name jobs,
      )
      (owned_state jf jobs)

-- Under each key the status map has the status of the last listed job that refers to the JobFlow as
-- its owner, by kind and name, and whose name, a slash and whose namespace make the key; and nothing
-- if there is no such job.
pub status_of_key :
    (jf : JobFlow) (jobs : List Job) (k : Text)
    → lookup k (get_all_job_status jf jobs).job_status_list
      ≡ last_of (codes "JobFlow") jf.metadata.name k none jobs
unfolding get_all_job_status job_flow_kind
status_of_key jf jobs k =
    tally_jobs-status k empty_tally (owned_jobs job_flow_kind jf.metadata.name jobs)
    ∙ unfold lookup in last_status-owned_jobs job_flow_kind jf.metadata.name k jobs none

abbrev pub moved : Text → Text → JobFlow → JobFlow
moved namespace uid jf = record jf {
  metadata = record jf.metadata { namespace = namespace; uid = uid };
}

-- Neither the namespace nor the identity of a JobFlow takes part: two JobFlows of one name in two
-- namespaces get the same status from the jobs of both.
pub status_ignores_namespace :
    (jf : JobFlow) (jobs : List Job) (namespace uid : Text)
    → get_all_job_status (moved namespace uid jf) jobs ≡ get_all_job_status jf jobs
unfolding get_all_job_status
status_ignores_namespace jf jobs namespace uid = refl
