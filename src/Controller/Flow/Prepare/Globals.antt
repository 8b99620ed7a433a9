-- ===== src/Controller/Flow/Prepare/Globals.antt =====
-- The annotations and labels of a prepared job, key by key.
use job_deploy_operator.Base.{
  Text, text_eq, GoMap, lookup, IsMap, lookup-copy_into, prefer, ◌≡◌, refl, Option, none, some, [],
  ◌∙◌,
}
use job_deploy_operator.Api.JobFlow.{Flow, JobFlow}
use job_deploy_operator.Controller.Flow.Prepare.{Chosen, assemble_job, merge_global}

-- The value of the key in a map that may be nil.
abbrev pub value_at : Text → Option (GoMap Text) → Option Text
value_at k none = none
value_at k (some m) = lookup k m

abbrev pub IsMapOrNil : Option (GoMap Text) → Type 0
IsMapOrNil none = Unit
IsMapOrNil (some m) = IsMap m

lookup-merge_global :
    (k : Text) (globals : Option (GoMap Text)) (own : GoMap Text)
    → IsMapOrNil globals
    → lookup k (merge_global globals own) ≡ prefer (value_at k globals) (lookup k own)
unfolding merge_global
lookup-merge_global k none own h = refl
lookup-merge_global k (some m) own h = lookup-copy_into k m own h

pub prefer-none : (o : Option Text) → prefer o none ≡ o
prefer-none none = refl
prefer-none (some v) = refl

pub assembled_annotations :
    (jf : JobFlow) (flow : Flow) (job_name : Text) (c : Chosen) (k : Text)
    → IsMapOrNil jf.spec.global_params.annotations
    → value_at k (assemble_job jf flow job_name c).metadata.annotations
      ≡ prefer (value_at k jf.spec.global_params.annotations) (lookup k c.annotations)
unfolding assemble_job
assembled_annotations jf flow job_name c k ha =
    lookup-merge_global k jf.spec.global_params.annotations c.annotations ha

-- If no global map holds a key twice, then key by key a prepared job has the global annotation if
-- there is one, and else what the choice of its specification put there; and it has just the
-- global labels.
pub assembled_globals :
    (jf : JobFlow) (flow : Flow) (job_name : Text) (c : Chosen) (k : Text)
    → IsMapOrNil jf.spec.global_params.annotations
    → IsMapOrNil jf.spec.global_params.labels
    → let job = assemble_job jf flow job_name c in
      let params = jf.spec.global_params in
      (value_at k job.metadata.annotations
        ≡ prefer (value_at k params.annotations) (lookup k c.annotations))
      × (value_at k job.metadata.labels ≡ value_at k params.labels)
unfolding assemble_job
assembled_globals jf flow job_name c k ha hl =
    let params = jf.spec.global_params in
    (
      assembled_annotations jf flow job_name c k ha,
      lookup-merge_global k params.labels [] hl
          ∙ unfold lookup in prefer-none (value_at k params.labels),
    )
