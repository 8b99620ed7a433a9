-- ===== src/Tests/Templates.antt =====
-- The theorems on JobTemplates at concrete inputs: a flow that names a template, and the job that
-- is prepared for it.
use job_deploy_operator.Base.{
  IsSelection, List, ◌≢◌, ◌⊎◌, Text, codes, text_beq, split, lookup, insert, copy_into, select, ◌≡◌,
  refl, ◌⊎◌, true, [], ◌∷◌, some, arith,
}
use job_deploy_operator.Api.Kube.{Job, ok}
use job_deploy_operator.Controller.Client.{listed_jobs}
use job_deploy_operator.Controller.Common.{
  get_job_name, create_by_job_template, get_connection_of_job_and_job_template,
}
use job_deploy_operator.Controller.Flow.Prepare.{
  find_job_template_by_name_namespace, choose_spec, assemble_job, merge_global, prepare_job,
}
use job_deploy_operator.Controller.Flow.Prepare.Branches.{
  template_key, from_template, prepare_job_branches,
}
use job_deploy_operator.Controller.Template.Status.{
  annotation, is_job_of, filter_jobs, update_job_template,
}
use job_deploy_operator.Controller.Template.Status.Listed.{
  prepared_job_is_listed, CarriesMark, ListsJobs, template_lists_its_jobs,
}
use job_deploy_operator.Controller.Template.Watch.{
  template_requests, on_job_create, on_job_update, on_job_delete,
}
use job_deploy_operator.Controller.Template.Watch.Requests.{
  IsFor, requests_of_annotation, dotted_template_is_missed,
}
use job_deploy_operator.Tests.Cluster.{Cluster, find, in_memory}
use job_deploy_operator.Tests.Samples.{
  one_container, flow_1, flow_3, sample_flow, job_of, sample_template,
}

program : Unit {0}
unfolding text_beq split lookup insert copy_into select find create_by_job_template
    get_connection_of_job_and_job_template get_job_name choose_spec
    find_job_template_by_name_namespace assemble_job merge_global prepare_job annotation is_job_of
    filter_jobs template_requests
program = tt

abbrev mark : Text → Text
mark name = get_connection_of_job_and_job_template (codes "default") name

abbrev marked : Text → Job
marked name =
    assemble_job sample_flow flow_3 (codes "jf-three")
      (record { spec = one_container; annotations = insert create_by_job_template (mark name) [] })

abbrev cluster : Cluster
cluster = record {
  job_flows = [];
  daemon_jobs = [];
  job_templates = sample_template ∷ [];
  jobs = marked (codes "tpl") ∷ job_of flow_1 ∷ [];
  nodes = [];
}

prepared_job_is_listed_example :
    (annotation (marked (codes "tpl")) create_by_job_template ≡ mark (codes "tpl"))
    × (is_job_of sample_template (marked (codes "tpl")) ≡ true)
prepared_job_is_listed_example =
    prepared_job_is_listed in_memory sample_flow flow_3 (codes "jf-three") cluster
      (marked (codes "tpl")) sample_template (unfold program in refl) (ground arith)
      (unfold program in (refl, tt)) (unfold program in refl) refl refl

template_lists_its_jobs_example :
    (own : List Job) × IsSelection (CarriesMark sample_template) cluster.jobs own
    × ListsJobs sample_template
        (listed_jobs (ok cluster.jobs) ∷ [])
        own
        (update_job_template in_memory sample_template cluster)
template_lists_its_jobs_example =
    template_lists_its_jobs in_memory sample_template cluster cluster.jobs refl

requests_of_annotation_example :
    (on_job_create (marked (codes "tpl")) ≡ on_job_update (job_of flow_1) (marked (codes "tpl")))
    × (on_job_delete (marked (codes "tpl")) ≡ on_job_update (job_of flow_1) (marked (codes "tpl")))
    × ((annotation (marked (codes "tpl")) create_by_job_template ≡ [])
          × (on_job_update (job_of flow_1) (marked (codes "tpl")) ≡ some [])
        ⊎ ((annotation (marked (codes "tpl")) create_by_job_template ≢ [])
            × IsFor
                (annotation (marked (codes "tpl")) create_by_job_template)
                (on_job_update (job_of flow_1) (marked (codes "tpl")))))
requests_of_annotation_example = requests_of_annotation (marked (codes "tpl")) (job_of flow_1)

dotted_template_is_missed_example :
    template_requests (marked (codes "tpl.v2"))
    ≡ some (record { namespace = codes "default"; name = codes "tpl" } ∷ [])
dotted_template_is_missed_example =
    dotted_template_is_missed (marked (codes "tpl.v2")) (codes "default") (codes "tpl") (codes "v2")
      (unfold program in refl) (ground arith) (ground arith)

prepare_job_branches_example :
    let result = (prepare_job in_memory sample_flow flow_3 (codes "jf-three") cluster).value.0 in
    ((flow_3.job_template_ref ≡ [])
      × (result
          ≡ ok (
              assemble_job sample_flow flow_3
                (codes "jf-three")
                (record { spec = one_container; annotations = [] }))))
    ⊎ ((flow_3.job_template_ref ≢ [])
        × (result
            ≡ from_template sample_flow flow_3
                (codes "jf-three")
                (in_memory.get_job_template (template_key sample_flow flow_3) cluster).0))
prepare_job_branches_example =
    prepare_job_branches in_memory sample_flow flow_3 (codes "jf-three") cluster
