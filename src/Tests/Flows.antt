-- ===== src/Tests/Flows.antt =====
-- The theorems on JobFlows at concrete inputs.
use job_deploy_operator.Base.{
  codes, text_beq, lookup, insert, copy_into, count, select, map, All, Any, ◌≡◌, refl, ◌↔◌, List,
  [], ◌∷◌, ◌++◌, none, some,
}
use job_deploy_operator.Api.Kube.{NamespacedName, Job, ok, err}
use job_deploy_operator.Api.JobFlow.{
  failed, job_flow_kind, job_flow_api_version, job_flow_group, job_flow_version,
}
use job_deploy_operator.Controller.Client.{Call, got_job_flow, got_job, created_job, recorded}
use job_deploy_operator.Controller.Common.{get_job_name, status_key, restart_policy_never}
use job_deploy_operator.Controller.Trace.{ReadsOnly}
use job_deploy_operator.Controller.Tally.{owned_copies, owned_jobs, add_job, tally_jobs}
use job_deploy_operator.Controller.Flow.Prepare.{
  Chosen, prepare_job, choose_spec, assemble_job, put_containers, write_back, merge_global,
}
use job_deploy_operator.Controller.Flow.Prepare.Globals.{value_at, assembled_globals}
use job_deploy_operator.Controller.Flow.Prepare.Spec.{prepared_container}
use job_deploy_operator.Controller.Flow.Prepare.Prepared.{
  IsJobFor, prepared_job, prepare_writes_flow,
}
use job_deploy_operator.Controller.Flow.Deploy.{
  job_key, created_event, created_for_next_step, check_dependencies, create_independent,
  create_dependent, create_when_ready, start_job, deploy_flow, deploy_flows, deploy_job_flow,
}
use job_deploy_operator.Controller.Flow.Deploy.Order.{IsReady, creations_in_order}
use job_deploy_operator.Controller.Flow.Deploy.Ready.{
  Creates, IsDone, IsAbsent, created_exactly_when_ready,
}
use job_deploy_operator.Controller.Flow.Status.{get_all_job_status}
use job_deploy_operator.Controller.Flow.Status.States.{StateFor, state_of_counts, status_of_key}
use job_deploy_operator.Controller.Flow.Reconcile.{reconcile}
use job_deploy_operator.Controller.Flow.Reconcile.Outcome.{Outcome, reconcile-Outcome}
use job_deploy_operator.Controller.Flow.Watch.{on_update_job, on_delete_job}
use job_deploy_operator.Controller.Flow.Watch.Owners.{owner_comes_back}
use job_deploy_operator.Tests.Cluster.{Cluster, missing, find, replace, add_new, in_memory}
use job_deploy_operator.Tests.Samples.{
  one_container, flow_1, flow_2, sample_flow, job_of, with_status, was_successful, was_failing,
}

unfoldable pub program : Unit {0}
unfolding text_beq lookup insert copy_into get_job_name prepare_job assemble_job check_dependencies
    create_independent create_dependent create_when_ready start_job deploy_flow deploy_flows
    deploy_job_flow find replace add_new restart_policy_never count select owned_copies owned_jobs
    add_job tally_jobs get_all_job_status status_key job_flow_kind job_flow_api_version
    job_flow_group job_flow_version failed merge_global write_back
program = tt

-- The first job has succeeded, and the second is not there.
abbrev pub halfway : Cluster
halfway = record {
  job_flows = sample_flow ∷ [];
  daemon_jobs = [];
  job_templates = [];
  jobs = with_status was_successful (job_of flow_1) ∷ [];
  nodes = [];
}

abbrev before_second : List Call
before_second =
    got_job (job_key sample_flow (codes "one")) (ok (with_status was_successful (job_of flow_1)))
    ∷ got_job (job_key sample_flow (codes "two")) (err missing)
    ∷ got_job (job_key sample_flow (codes "one")) (ok (with_status was_successful (job_of flow_1)))
    ∷ []

calls-halfway :
    (deploy_job_flow in_memory sample_flow halfway).calls
    ≡ before_second
      ++ created_job (job_of flow_2) (ok tt)
        ∷ recorded (
            created_event sample_flow
              (created_for_next_step (get_job_name (codes "jf") (codes "two"))))
        ∷ []
unfolding program
calls-halfway = refl

creations_in_order_example : IsReady sample_flow before_second (job_of flow_2)
creations_in_order_example =
    creations_in_order in_memory sample_flow halfway before_second
      (recorded (
          created_event sample_flow
            (created_for_next_step (get_job_name (codes "jf") (codes "two"))))
        ∷ [])
      (job_of flow_2) (ok tt) calls-halfway

reads : ReadsOnly in_memory
reads key c = refl

created_exactly_when_ready_example :
    Any
      (Creates (job_of flow_2))
      (start_job in_memory sample_flow flow_2 (job_of flow_2) halfway).calls
    ↔ (IsAbsent in_memory sample_flow halfway (codes "two")
        × All (IsDone in_memory sample_flow halfway) (codes "one" ∷ []))
created_exactly_when_ready_example =
    created_exactly_when_ready in_memory reads sample_flow flow_2 (job_of flow_2) halfway

abbrev request : NamespacedName
request = record { namespace = codes "default"; name = codes "jf" }

reconcile-Outcome_example :
    (calls : List Call) × ((reconcile in_memory request halfway).calls
      ≡ got_job_flow request (ok sample_flow) ∷ calls)
    × Outcome in_memory (ok sample_flow) halfway calls (reconcile in_memory request halfway).value
unfolding program
reconcile-Outcome_example = reconcile-Outcome in_memory request halfway

abbrev two_jobs : List Job
two_jobs = with_status was_successful (job_of flow_1) ∷ with_status was_failing (job_of flow_2) ∷ []

state_of_counts_example : StateFor none (get_all_job_status sample_flow two_jobs).state 2 1 1 0
unfolding program
state_of_counts_example = state_of_counts sample_flow two_jobs

status_of_key_example :
    lookup
      (status_key (codes "jf-two") (codes "default"))
      (get_all_job_status sample_flow two_jobs).job_status_list
    ≡ some was_failing
unfolding program
status_of_key_example =
    status_of_key sample_flow two_jobs (status_key (codes "jf-two") (codes "default"))

prepared_job_example :
    (c : Chosen) × ((choose_spec in_memory sample_flow flow_2 halfway).value ≡ ok c)
    × IsJobFor sample_flow flow_2 (codes "jf-two") c (job_of flow_2)
prepared_job_example =
    prepared_job in_memory sample_flow flow_2 (codes "jf-two") halfway (job_of flow_2)
      (unfold program in refl) (unfold program in (refl, tt)) (unfold program in (refl, tt))

prepare_writes_flow_example :
    (prepare_job in_memory sample_flow flow_2 (codes "jf-two") halfway).value.1
    ≡ put_containers
        (map (prepared_container sample_flow flow_2) one_container.template.spec.containers)
        flow_2
prepare_writes_flow_example =
    prepare_writes_flow in_memory sample_flow flow_2 (codes "jf-two") halfway (job_of flow_2)
      (unfold program in refl) refl

assembled_globals_example :
    (value_at (codes "key") (job_of flow_1).metadata.annotations ≡ some (codes "value"))
    × (value_at (codes "key") (job_of flow_1).metadata.labels ≡ some (codes "value"))
unfolding program
assembled_globals_example =
    assembled_globals sample_flow flow_1 (codes "jf-one")
      (record { spec = flow_1.job_template; annotations = [] }) (codes "key")
      (unfold program in (refl, tt)) (unfold program in (refl, tt))

owner_comes_back_example :
    (on_update_job (job_of flow_1) (with_status was_failing (job_of flow_1)) ≡ request ∷ [])
    × (on_delete_job (with_status was_failing (job_of flow_1)) ≡ request ∷ [])
    × (owned_jobs job_flow_kind (codes "jf") (with_status was_failing (job_of flow_1) ∷ [])
        ≡ with_status was_failing (job_of flow_1) ∷ [])
owner_comes_back_example =
    owner_comes_back sample_flow (job_of flow_1) (with_status was_failing (job_of flow_1))
      (unfold program in refl) (unfold program in refl)
      (record { references = unfold program in refl; placed = unfold program in refl })
