-- ===== src/Tests/Informers.antt =====
-- A factory whose informers are numbered as they are made, each with its period.
use job_deploy_operator.Base.{
  ℕ, Text, codes, IsMap, lookup, text_beq, ◌≡◌, refl, Bool, none, some, List, [], ◌∷◌, ◌++◌, suc,
  ltb,
}
use job_deploy_operator.Api.Kube.{Error, other, ok, err}
use job_deploy_operator.Api.Scheme.{Resource, group_resource}
use job_deploy_operator.Api.JobFlow.{JobFlow, JobFlowList}
use job_deploy_operator.Api.JobFlow.Register.{scheme_group_version, job_flow_type}
use job_deploy_operator.Clientset.Rest.{Rest}
use job_deploy_operator.Clientset.JobFlows.{JobFlowInterface, new_job_flows}
use job_deploy_operator.Informers.Cache.{Cache}
use job_deploy_operator.Informers.Factory.{
  SharedInformerFactory, NewInformerFunc, new_shared_informer_factory,
  new_shared_informer_factory_with_options, with_custom_resync_config, with_namespace,
  with_tweak_list_options, start as start_all, apply_options, informer_for, wait_for_cache_sync,
}
use job_deploy_operator.Informers.Factory.Shared.{
  Steps, here, next, request, starts, elsewhere, one_informer_per_type,
}
use job_deploy_operator.Informers.Factory.Runs.{IsFresh, each_runs_once}
use job_deploy_operator.Informers.Factory.Waits.{wait_reports_running}
use job_deploy_operator.Informers.Factory.Resync.{first_informer_period}
use job_deploy_operator.Listers.Indexer.{Indexer}
use job_deploy_operator.Informers.JobFlows.{v1alpha1, job_flows, informer}
use job_deploy_operator.Informers.Generic.{api, for_resource}
use job_deploy_operator.Informers.Generic.Found.{for_resource_finds}

-- The state of the process is the number of informers that were made.
abbrev Informer : Type 0
Informer = ℕ × ℕ

abbrev numbered : NewInformerFunc Text ℕ Informer
numbered client period made = ((made, period), suc made)

factory : SharedInformerFactory Text Informer
factory = new_shared_informer_factory (codes "client") 30

requested : SharedInformerFactory Text Informer × ℕ
requested = (informer_for job_flow_type numbered (factory, 0)).1

started : SharedInformerFactory Text Informer × ℕ
started = ((start_all requested.0).1, requested.1)

start_once : Steps requested ([] ++ (start_all requested.0).0) started
unfolding started
start_once =
    next requested requested started [] (start_all requested.0).0 (here requested)
      (starts requested.0 requested.1)

one_informer_per_type_example :
    informer_for job_flow_type numbered started
    ≡ ((informer_for job_flow_type numbered (factory, 0)).0, started)
unfolding requested
one_informer_per_type_example =
    one_informer_per_type job_flow_type numbered numbered (factory, 0) started
      ([] ++ (start_all requested.0).0) start_once

factory-IsFresh : IsFresh factory
unfolding factory new_shared_informer_factory new_shared_informer_factory_with_options apply_options
factory-IsFresh = (refl, refl)

history : Steps (factory, 0) (([] ++ []) ++ (start_all requested.0).0) started
unfolding requested started
history =
    next (factory, 0) requested started ([] ++ []) (start_all requested.0).0
      (next (factory, 0) (factory, 0) requested [] [] (here (factory, 0))
        (request job_flow_type numbered factory 0))
      (starts requested.0 requested.1)

each_runs_once_example :
    let all = (([] ++ []) ++ (start_all requested.0).0) ++ (start_all started.0).0 in
    IsMap all × ((t : Text) → lookup t all ≡ lookup t started.0.informers)
each_runs_once_example =
    each_runs_once (factory, 0) started (([] ++ []) ++ (start_all requested.0).0) factory-IsFresh
      history

-- The second wait is cut off.
abbrev in_time : Informer → ℕ → Bool × ℕ
in_time informer waits = (ltb waits 1, suc waits)

wait_reports_running_example :
    let reported = lookup job_flow_type (wait_for_cache_sync in_time started.0 started.1).0 in
    let runs = ([] ++ []) ++ (start_all requested.0).0 in
    (lookup job_flow_type runs ≡ none → reported ≡ none)
    × ((informer : Informer)
        → lookup job_flow_type runs ≡ some informer
        → (s : ℕ) × (reported ≡ some (in_time informer s).0))
wait_reports_running_example =
    wait_reports_running in_time (factory, 0) started (([] ++ []) ++ (start_all requested.0).0)
      job_flow_type factory-IsFresh history

-- An object is its type and a number.
abbrev type_of : Text × ℕ → Text
type_of (object_type, n) = object_type

abbrev periods : List ((Text × ℕ) × ℕ)
periods = ((job_flow_type, 3), 60) ∷ []

abbrev configured : SharedInformerFactory Text Informer
configured = new_shared_informer_factory_with_options (codes "client") 30 (
    with_custom_resync_config type_of periods
    ∷ with_namespace (codes "default")
    ∷ with_tweak_list_options none
    ∷ [])

first_informer_period_example :
    let r = informer_for job_flow_type numbered (configured, 0) in (r.0 ≡ (0, 60)) × (r.1.1 ≡ 1)
unfolding new_shared_informer_factory_with_options apply_options with_custom_resync_config
    with_namespace with_tweak_list_options lookup text_beq
first_informer_period_example =
    first_informer_period type_of periods (codes "client") 30 (codes "default") none 0
      (configured, 0) [] job_flow_type numbered (refl, tt) (here (configured, 0)) refl

abbrev no_objects : Indexer JobFlow
no_objects = record {
  list_all = λ selector. ([], none);
  list_all_by_namespace = λ namespace selector. ([], none);
  get_by_key = λ key. (none, none);
}

abbrev cache : Cache ℕ JobFlow JobFlowList (Unit {0}) Informer (Unit {0})
cache = record {
  new_shared_index_informer =
      λ list_watch object_type period indexers made. ((made, period), suc made);
  get_indexer = λ informer. no_objects;
  namespace_index = codes "namespace";
  meta_namespace_index_func = tt;
}

abbrev refused : Error
refused = record { reason = other; message = codes "refused" }

abbrev refusing : Rest ℕ JobFlow JobFlowList (Unit {0})
refusing = record {
  into_object = λ request s. (err refused, s);
  into_list = λ request s. (err refused, s);
  error = λ request s. (err refused, s);
  watch = λ request s. (err refused, s);
}

abbrev job_flows_of : Text → Text → JobFlowInterface ℕ (Unit {0})
job_flows_of client namespace = new_job_flows refusing namespace

abbrev show : Resource → Text
show gvr = gvr.resource

abbrev known : Resource
known = record {
  group = codes "api.practice.com";
  version = codes "v1alpha1";
  resource = codes "jobflows";
}

through_api : SharedInformerFactory Text Informer × ℕ
through_api = (informer cache job_flows_of (job_flows (v1alpha1 (api factory))) (factory, 0)).1

for_resource_finds_example :
    let first = informer cache job_flows_of (job_flows (v1alpha1 (api factory))) (factory, 0) in
    (for_resource cache job_flows_of show known (first.1.0, 7))
    ≡ (ok (record { informer = first.0; resource = group_resource known }), (first.1.0, 7))
unfolding through_api
for_resource_finds_example =
    (for_resource_finds cache job_flows_of show (factory, 0) (through_api.0, 7) [] known
        (next through_api through_api (through_api.0, 7) [] [] (here through_api)
          (elsewhere through_api.0 through_api.1 7))).0
      (unfold scheme_group_version in refl)
