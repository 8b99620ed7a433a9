-- ===== src/Controller/Flow/Watch.antt =====
-- `OnUpdateJobHandlerByJobFlow` and `OnDeleteJobHandlerByJobFlow` of pkg/controller/helper.go: the
-- requests that a change of a job adds to the work queue, in order.
pub mod Owners
use job_deploy_operator.Base.{Text, text_eq, ◌&&◌, List, [], ◌∷◌, ◌==◌, if◌then◌else◌}
use job_deploy_operator.Api.Kube.{NamespacedName, OwnerReference, Job}
use job_deploy_operator.Api.JobFlow.{job_flow_kind, job_flow_api_version}

-- The loop over the owner references, for an owner of the given kind and version.
unfoldable pub owner_requests : Text → Text → Text → List OwnerReference → List NamespacedName
owner_requests kind api_version namespace [] = []
owner_requests kind api_version namespace (r ∷ rs) =
    let rest = owner_requests kind api_version namespace rs in
    if r.kind == kind && r.api_version == api_version
    then record { namespace = namespace; name = r.name } ∷ rest
    else rest

-- An update event holds the old job and the new one, and only the new one is read.
unfoldable pub on_update_job : (object_old object_new : Job) → List NamespacedName
unfolding owner_requests
on_update_job object_old object_new =
    owner_requests job_flow_kind job_flow_api_version object_new.metadata.namespace
      object_new.metadata.owner_references

unfoldable pub on_delete_job : Job → List NamespacedName
unfolding owner_requests
on_delete_job object =
    owner_requests job_flow_kind job_flow_api_version object.metadata.namespace
      object.metadata.owner_references
