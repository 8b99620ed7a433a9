-- ===== src/Tests/Reconciles.antt =====
-- Three passes of `Reconcile` for the sample JobFlow, from a cluster without jobs: after the first and
-- after the second, all jobs that are there succeed.
use mathlib.Core.List.{Memᴰ, Permᴰ}
use job_deploy_operator.Base.{
  ℕ, ◌<◌, Text, text_eq, codes, ◌≡◌, refl, sym, ap, subst, inl, inr, Bool-cases, List, [], ◌∷◌, map,
  ◌==◌, if◌then◌else◌, text_beq, Any, All, arith,
}
use job_deploy_operator.Api.Kube.{NamespacedName, Job, ok}
use job_deploy_operator.Api.JobFlow.{Flow}
use job_deploy_operator.Controller.Client.{Call}
use job_deploy_operator.Controller.Common.{get_job_name}
use job_deploy_operator.Controller.Flow.Deploy.{job_key, deploy_job_flow}
use job_deploy_operator.Controller.Flow.Deploy.Ready.{IsDone}
use job_deploy_operator.Controller.Flow.Passes.{IsPresent}
use job_deploy_operator.Controller.Flow.Passes.Ranks.{IsRanked, IsListing}
use job_deploy_operator.Controller.Flow.Reconcile.{deploy_and_update, continue_execution, reconcile}
use job_deploy_operator.Controller.Flow.Status.{update_status, save_status}
use job_deploy_operator.Controller.Flow.Passes.Cluster.{IsCluster}
use job_deploy_operator.Controller.Flow.Passes.Reconciles.{
  Reconciles, begin, pass, WritesSucceed, reconcile-WritesSucceed,
}
use job_deploy_operator.Api.JobFlow.{JobFlowStatus, running, pending, succeed, failed}
use job_deploy_operator.Tests.Cluster.{Cluster, has_key, find, in_memory}
use job_deploy_operator.Tests.Flows.{program, halfway}
use job_deploy_operator.Tests.Samples.{
  flow_1, flow_2, sample_flow, job_of, with_status, was_successful,
}
use job_deploy_operator.Tests.Passes.{
  IsUnrefused, HasNoConflict-IsUnrefused, in_memory-IsAnswering, sample-AreDistinct, one_of_two,
}

reconciling : Unit {0}
unfolding program deploy_and_update continue_execution update_status save_status reconcile pending
    succeed running failed
reconciling = tt

abbrev succeeds : Job → Job
succeeds job = with_status was_successful job

find-succeeds :
    (key : NamespacedName) (jobs : List Job) (job : Job)
    → find (λ j. j.metadata) key jobs ≡ ok job
    → find (λ j. j.metadata) key (map succeeds jobs) ≡ ok (succeeds job)
unfolding find
find-succeeds key [] job q = absurd (ground (arith, q))
find-succeeds key (j ∷ jobs) job q = elim (Bool-cases (has_key key j.metadata)) [
  | inl e ↦ let same : j ≡ job = ground (arith, q, e) in rw e (ap (λ x. ok (succeeds x)) same)
  | inr e ↦ rw e (find-succeeds key jobs job (ground (arith, q, e)))
]

-- The cluster in which the status of the JobFlow has this state, with these jobs.
abbrev status_of : Text → JobFlowStatus
status_of state = record { job_status_list = []; state = state }

abbrev cluster_at : Text → List Job → Cluster
cluster_at state jobs = record halfway {
  job_flows = record sample_flow { status = status_of state } ∷ [];
  jobs = jobs;
}

-- All jobs of a cluster succeed.
all_succeed :
    (c : Cluster) (jobs : List Job) (state name : Text)
    → c.jobs ≡ jobs
    → IsPresent in_memory sample_flow c name
    → IsDone in_memory sample_flow (cluster_at state (map succeeds jobs)) name
all_succeed c jobs state name e (job, q) =
    let found = subst (λ js. find (λ j. j.metadata) (job_key sample_flow name) js ≡ ok job) e q in
    (succeeds job, find-succeeds (job_key sample_flow name) jobs job found, refl, λ h. cc)

abbrev request : NamespacedName
request = record { namespace = codes "default"; name = codes "jf" }

abbrev jobs_after_one : List Job
jobs_after_one = succeeds (job_of flow_1) ∷ []

abbrev jobs_after_two : List Job
jobs_after_two = succeeds (job_of flow_2) ∷ succeeds (job_of flow_1) ∷ []

in_memory-IsCluster : IsCluster in_memory
in_memory-IsCluster = record {
  answering = in_memory-IsAnswering;
  reads_flows = λ req c. refl;
  lists = λ key c. refl;
  writes = λ x key c. refl;
}

first_pass : (reconcile in_memory request (cluster_at [] [])).state.jobs ≡ job_of flow_1 ∷ []
unfolding reconciling
first_pass = refl

second_pass :
    (reconcile in_memory request (cluster_at running jobs_after_one)).state.jobs
    ≡ job_of flow_2 ∷ succeeds (job_of flow_1) ∷ []
unfolding reconciling
second_pass = refl

abbrev calls_at : Text → List Job → List Call
calls_at state jobs =
    (deploy_job_flow in_memory (record sample_flow { status = status_of state })
      (cluster_at state jobs)).calls

first-IsUnrefused : All IsUnrefused (calls_at [] [])
unfolding reconciling
first-IsUnrefused = ground arith

second-IsUnrefused : All IsUnrefused (calls_at running jobs_after_one)
unfolding reconciling
second-IsUnrefused = ground arith

two-Reconciles :
    Reconciles in_memory in_memory-IsCluster sample_flow request 2
      (cluster_at [] [])
      (cluster_at running jobs_after_two)
unfolding reconciling
two-Reconciles =
    pass 1 (cluster_at [] []) (cluster_at running jobs_after_one)
      (cluster_at running jobs_after_two) (status_of running)
      (pass 0 (cluster_at [] []) (cluster_at [] []) (cluster_at running jobs_after_one)
        (status_of []) (begin (cluster_at [] [])) refl (λ e. ground (arith, e)) refl
        (λ g mem.
          HasNoConflict-IsUnrefused (get_job_name (codes "jf") g.name) (calls_at [] [])
            first-IsUnrefused)
        (λ name h.
          all_succeed (reconcile in_memory request (cluster_at [] [])).state (job_of flow_1 ∷ [])
            running name first_pass h))
      refl (λ e. ground (arith, e)) refl
      (λ g mem.
        HasNoConflict-IsUnrefused (get_job_name (codes "jf") g.name)
          (calls_at running jobs_after_one) second-IsUnrefused)
      (λ name h.
        all_succeed (reconcile in_memory request (cluster_at running jobs_after_one)).state
          (job_of flow_2 ∷ succeeds (job_of flow_1) ∷ []) running name second_pass h)

abbrev rank : Text → ℕ
rank name = if name == codes "one" then 0 else 1

lower : rank flow_1.name < rank flow_2.name
unfolding text_beq
lower = omega arith

sample-IsRanked : IsRanked rank sample_flow.spec.flows
sample-IsRanked flow member d m = elim (one_of_two flow member) [
  | inl e ↦ elim (subst (λ (f : Flow). Memᴰ d f.dependencies) e m) [ ]
  | inr e ↦ elim (subst (λ (f : Flow). Memᴰ d f.dependencies) e m) [
    | Memᴰ.head p ↦ (
      flow_1,
      Memᴰ.head refl,
      sym p,
      subst (λ n. rank n < rank flow.name) (sym p)
          (subst (λ (f : Flow). rank flow_1.name < rank f.name) (sym e) lower),
    )
    | Memᴰ.tail n ↦ elim n [ ]
  ]
]

done-IsListing :
    IsListing in_memory sample_flow
      (deploy_job_flow in_memory
        (record sample_flow { status = status_of running })
        (cluster_at running jobs_after_two)).state
      jobs_after_two
unfolding reconciling
done-IsListing = record {
  shown = succeeds (job_of flow_1) ∷ succeeds (job_of flow_2) ∷ [];
  others = [];
  listed = refl;
  split = Permᴰ.swap refl refl;
  each = ((refl, refl), ((refl, refl), tt));
  foreign = tt;
}

rank_below : (flow : Flow) → Memᴰ flow sample_flow.spec.flows → rank flow.name < 2
rank_below flow member = ground arith

reconcile-WritesSucceed_example :
    Any WritesSucceed (reconcile in_memory request (cluster_at running jobs_after_two)).calls
unfolding reconciling
reconcile-WritesSucceed_example =
    reconcile-WritesSucceed in_memory in_memory-IsCluster sample_flow request sample-AreDistinct
      rank sample-IsRanked 2 (cluster_at [] []) (cluster_at running jobs_after_two)
      (status_of running) jobs_after_two rank_below refl two-Reconciles refl
      (λ e. ground (arith, e)) refl done-IsListing
