-- ===== src/Controller/Template/Watch.antt =====
-- The three handlers of job events in pkg/controller/jobflow_template_controller.go. `none` is the
-- panic of `nameNamespace[1]` where the annotation has no dot.
pub mod Requests
use job_deploy_operator.Base.{
  Text, text_eq, split, List, [], ◌∷◌, Option, none, some, ◌==◌, if◌then◌else◌,
}
use job_deploy_operator.Api.Kube.{NamespacedName, Job}
use job_deploy_operator.Controller.Common.{create_by_job_template}
use job_deploy_operator.Controller.Template.Status.{annotation}

-- `nameNamespace[0], nameNamespace[1]`
unfoldable pub first_two : List Text → Option NamespacedName
first_two (namespace ∷ name ∷ _) = some (record { namespace = namespace; name = name })
first_two _ = none

-- The body of the three handlers: the requests that are added to the work queue.
unfoldable pub template_requests : Job → Option (List NamespacedName)
unfolding first_two
template_requests job =
    let value = annotation job create_by_job_template in
    if value == []
    then some []
    else elim (first_two (split b'.' value)) [ none ↦ none | some req ↦ some (req ∷ []) ]

unfoldable pub on_job_create : Job → Option (List NamespacedName)
on_job_create object = template_requests object

unfoldable pub on_job_update : (object_old object_new : Job) → Option (List NamespacedName)
on_job_update object_old object_new = template_requests object_new

unfoldable pub on_job_delete : Job → Option (List NamespacedName)
on_job_delete object = template_requests object
