-- ===== src/Controller/Flow/Prepare/Prepared.antt =====
-- What `prepareJob` returns, and what it leaves in the flow that it is given.
use job_deploy_operator.Base.{Text, text_eq, text_beq_iff, ◌≡◌, refl, ap, ◌∙◌, List, [], ◌∷◌, map}
use job_deploy_operator.Api.Kube.{OwnerReference, Container, JobSpec, Job, ok}
use job_deploy_operator.Api.JobFlow.{Flow, JobFlow}
use job_deploy_operator.Controller.Client.{Client}
use job_deploy_operator.Controller.Flow.Prepare.{
  Chosen, assemble_job, choose_spec, put_containers, write_back, prepare_job,
}
use job_deploy_operator.Controller.Flow.Prepare.Shape.{
  prepare_job-chosen, prepare_job-flow, choose_spec-own,
}
use job_deploy_operator.Controller.Flow.Prepare.Globals.{IsMapOrNil}
use job_deploy_operator.Controller.Flow.Prepare.Spec.{prepared_container, finish_spec-containers}
use job_deploy_operator.Controller.Flow.Prepare.Fields.{IsPrepared, finish_spec-IsPrepared}

abbrev pub owner : JobFlow → OwnerReference
owner jf = record {
  api_version = jf.type_meta.api_version;
  kind = jf.type_meta.kind;
  name = jf.metadata.name;
  uid = jf.metadata.uid;
}

-- A job as `prepareJob` makes it, from the specification that was chosen.
pub record IsJobFor (jf : JobFlow) (flow : Flow) (job_name : Text) (c : Chosen) (job : Job)
    : Type 0 where
  pub named : job.metadata.name ≡ job_name
  pub placed : job.metadata.namespace ≡ jf.metadata.namespace
  pub owned : job.metadata.owner_references ≡ owner jf ∷ []
  pub spec : IsPrepared jf flow c.spec job.spec

assemble_job-IsJobFor :
    (jf : JobFlow) (flow : Flow) (job_name : Text) (c : Chosen)
    → IsMapOrNil jf.spec.global_params.annotations
    → IsMapOrNil jf.spec.global_params.labels
    → IsJobFor jf flow job_name c (assemble_job jf flow job_name c)
unfolding assemble_job
assemble_job-IsJobFor jf flow job_name c ha hl = record {
  named = refl;
  placed = refl;
  owned = refl;
  spec = finish_spec-IsPrepared jf flow c.spec ha hl;
}

assemble_job-containers :
    (jf : JobFlow) (flow : Flow) (job_name : Text) (c : Chosen)
    → (assemble_job jf flow job_name c).spec.template.spec.containers
      ≡ map (prepared_container jf flow) c.spec.template.spec.containers
unfolding assemble_job
assemble_job-containers jf flow job_name c = finish_spec-containers jf flow c.spec

module _ {S : Type 0} (client : Client S) (jf : JobFlow) (flow : Flow) (job_name : Text) (s : S)
    (job : Job) (prepared : (prepare_job client jf flow job_name s).value.0 ≡ ok job) where
  -- If `prepareJob` returns a job, and no global map holds a key twice, the job comes from the
  -- specification that was chosen: it has the name that was asked for, the namespace of the JobFlow
  -- and the JobFlow as its one owner; it never restarts and is never retried. If the JobFlow has
  -- volumes to share and the flow has mounts, these stand behind the pod's own volumes and behind
  -- each container's own mounts. A global environment replaces that of each container, and a global
  -- node name the pod's. Global annotations, or labels, take the place of all those of the pod
  -- template. All else is as it was chosen.
  pub prepared_job :
      IsMapOrNil jf.spec.global_params.annotations
      → IsMapOrNil jf.spec.global_params.labels
      → (c : Chosen) × ((choose_spec client jf flow s).value ≡ ok c)
        × IsJobFor jf flow job_name c job
  prepared_job ha hl =
      let (c, chosen, e) = prepare_job-chosen client jf flow job_name s job prepared in
      (c, chosen, rw e (assemble_job-IsJobFor jf flow job_name c ha hl))

  -- If a job is prepared from the flow's own template, the flow is left with the prepared containers
  -- in its template, and is otherwise unchanged.
  pub prepare_writes_flow :
      flow.job_template_ref ≡ []
      → (prepare_job client jf flow job_name s).value.1
        ≡ put_containers
            (map (prepared_container jf flow) flow.job_template.template.spec.containers)
            flow
  unfolding write_back
  prepare_writes_flow own =
      let (c, chosen, e) = prepare_job-chosen client jf flow job_name s job prepared in
      let (spec, _) = choose_spec-own client jf flow job_name s c own chosen in
      let containers =
        ap (λ (j : Job). j.spec.template.spec.containers) e
        ∙ assemble_job-containers jf flow job_name c
        ∙ ap (λ (x : JobSpec). map (prepared_container jf flow) x.template.spec.containers) spec in
      let written : write_back flow job ≡ put_containers job.spec.template.spec.containers flow =
        rw ((text_beq_iff flow.job_template_ref []).1 own) refl in
      prepare_job-flow client jf flow job_name s job prepared
      ∙ written
      ∙ ap (λ (x : List Container). put_containers x flow) containers
