-- ===== src/Controller/Flow/Prepare.antt =====
-- `prepareJob` and `findJobTemplateByNameNamespace` of pkg/controller/helper.go. The job's
-- specification is a copy of the flow's, but the slice of containers is shared with it: what
-- `prepareJob` writes into a container, the flow of the JobFlow has too.
pub mod Shape
pub mod Globals
pub mod Spec
pub mod Fields
pub mod Prepared
pub mod Branches
use job_deploy_operator.Base.{
  Text, codes, text_eq, GoMap, lookup, insert, copy_into, Bool, ◌&&◌, not, List, [], ◌∷◌, ◌++◌, map,
  Option, none, some, length, ◌==◌, nat_eq, if◌then◌else◌,
}
use job_deploy_operator.Api.Kube.{
  Slice, items, NamespacedName, OwnerReference, ObjectMeta, EnvVar, VolumeMount, Volume, Container,
  PodSpec, PodTemplate, JobSpec, JobStatus, Job, Error, is_not_found, new_bad_request, Result, ok,
  err,
}
use job_deploy_operator.Api.JobFlow.{GlobalParams, Flow, JobFlow}
use job_deploy_operator.Api.JobTemplate.{JobTemplate}
use job_deploy_operator.Controller.Client.{Client, Action, pure, get_job_template, ◌>>=◌}
use job_deploy_operator.Controller.Common.{
  create_by_job_template, get_connection_of_job_and_job_template, restart_policy_never,
}

-- The zero value of `batchv1.JobStatus`.
abbrev pub no_status : JobStatus
no_status = record { active = 0; succeeded = 0; failed = 0; rest = [] }

-- `append(xs, ys...)` where `xs` is not nil, and `ys` itself where it is.
abbrev pub extend {ℓ} : {A : Type ℓ} → Slice A → Slice A → Slice A
extend none ys = ys
extend (some xs) ys = some (xs ++ items ys)

abbrev pub with_template : (PodTemplate → PodTemplate) → JobSpec → JobSpec
with_template f spec = record spec { template = f spec.template }

abbrev pub with_pod : (PodSpec → PodSpec) → JobSpec → JobSpec
with_pod f = with_template (λ t. record t { spec = f t.spec })

abbrev with_containers : (Container → Container) → PodSpec → PodSpec
with_containers f pod = record pod { containers = map f pod.containers }

-- The volumes that the flows share, and the mounts of this flow in each container.
unfoldable pub mount_shared : Slice Volume → Slice VolumeMount → JobSpec → JobSpec
mount_shared volumes mounts spec =
    if not (length (items volumes) == 0) && not (length (items mounts) == 0)
    then with_pod
        (λ pod.
          with_containers (λ c. record c { volume_mounts = extend c.volume_mounts mounts })
            (record pod { volumes = extend pod.volumes volumes }))
        spec
    else spec

-- No restart and no retry, whatever the template says.
unfoldable pub never_restart : JobSpec → JobSpec
never_restart spec =
    record (with_pod (λ pod. record pod { restart_policy = restart_policy_never }) spec) {
      backoff_limit = some 0;
    }

-- `GlobalParams.NodeName` and `GlobalParams.Env`; a nil `Env` leaves the containers alone.
unfoldable pub set_node_name : Text → JobSpec → JobSpec
set_node_name node_name spec =
    if node_name == [] then spec else with_pod (λ pod. record pod { node_name = node_name }) spec

unfoldable pub set_env : Slice EnvVar → JobSpec → JobSpec
set_env none spec = spec
set_env (some env) spec = with_pod (with_containers (λ c. record c { env = some env })) spec

-- The loop over `GlobalParams.Annotations`, or `.Labels`: into the job's map, and into a new map
-- of the pod template. A nil map changes neither.
unfoldable pub merge_global : Option (GoMap Text) → GoMap Text → GoMap Text
merge_global none own = own
merge_global (some globals) own = copy_into globals own

unfoldable pub template_global : Option (GoMap Text) → Option (GoMap Text) → Option (GoMap Text)
template_global none own = own
template_global (some globals) own = some (copy_into globals [])

-- Where the job's specification comes from, with the annotations that say so.
pub record Chosen : Type 0 where
  pub spec : JobSpec
  pub annotations : GoMap Text

unfoldable pub set_template_globals : GlobalParams → JobSpec → JobSpec
unfolding template_global
set_template_globals params = with_template (λ t. record t {
  annotations = template_global params.annotations t.annotations;
  labels = template_global params.labels t.labels;
})

-- The rest of `prepareJob`, after the specification is chosen.
unfoldable pub finish_spec : JobFlow → Flow → JobSpec → JobSpec
unfolding mount_shared never_restart set_node_name set_env set_template_globals
finish_spec jf flow spec =
    let params = jf.spec.global_params in
    let mounted = mount_shared jf.spec.share_volumes flow.share_volume_mounts spec in
    let global = set_template_globals params (never_restart mounted) in
    set_env params.env (set_node_name params.node_name global)

unfoldable pub assemble_job : JobFlow → Flow → Text → Chosen → Job
unfolding finish_spec merge_global
assemble_job jf flow job_name chosen =
    let params = jf.spec.global_params in
    record {
      metadata = record {
        name = job_name;
        namespace = jf.metadata.namespace;
        uid = [];
        labels = some (merge_global params.labels []);
        annotations = some (merge_global params.annotations chosen.annotations);
        owner_references =
            record {
              api_version = jf.type_meta.api_version;
              kind = jf.type_meta.kind;
              name = jf.metadata.name;
              uid = jf.metadata.uid;
            }
            ∷ [];
        deletion_timestamp = none;
      };
      spec = finish_spec jf flow chosen.spec;
      status = no_status;
    }

abbrev pub put_containers : List Container → Flow → Flow
put_containers containers flow = record flow {
  job_template = with_pod (λ pod. record pod { containers = containers }) flow.job_template;
}

-- The flow whose own template was used has the containers of the job.
unfoldable pub write_back : Flow → Job → Flow
write_back flow job =
    if flow.job_template_ref == []
    then put_containers job.spec.template.spec.containers flow
    else flow

-- The message of the error for a template that is not there.
unfoldable pub not_found_template : Text → Text
not_found_template name = codes "not found JobTemplate : " ++ name

module _ {S : Type 0} (client : Client S) where
  unfoldable pub find_job_template_by_name_namespace : Text → Text → Action S (Result JobSpec)
  find_job_template_by_name_namespace name namespace = do
    found ← get_job_template client (record { namespace = namespace; name = name })
    pure (elim found [
      | ok t ↦ ok t.spec.job_template
      | err e ↦ if is_not_found e then err (new_bad_request (not_found_template name)) else err e
    ])

  unfoldable pub choose_spec : JobFlow → Flow → Action S (Result Chosen)
  unfolding find_job_template_by_name_namespace
  choose_spec jf flow =
      if flow.job_template_ref == []
      then pure (ok (record { spec = flow.job_template; annotations = [] }))
      else do
        found ← find_job_template_by_name_namespace flow.job_template_ref jf.metadata.namespace
        pure (elim found [
          | ok spec ↦ ok (record {
            spec = spec;
            annotations =
                insert create_by_job_template
                  (get_connection_of_job_and_job_template jf.metadata.namespace
                    flow.job_template_ref)
                  [];
          })
          | err e ↦ err e
        ])

  -- The prepared job, or the error; and the flow as the call leaves it.
  unfoldable pub prepare_job : JobFlow → Flow → Text → Action S (Result Job × Flow)
  unfolding choose_spec assemble_job write_back
  prepare_job jf flow job_name = do
    chosen ← choose_spec jf flow
    pure (elim chosen [
      | ok c ↦ let job = assemble_job jf flow job_name c in (ok job, write_back flow job)
      | err e ↦ (err e, flow)
    ])
