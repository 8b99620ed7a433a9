-- ===== src/Api/JobFlow/Register.antt =====
-- pkg/apis/jobflow/v1alpha1/register.go: the group and version, and the types of the scheme.
use job_deploy_operator.Base.{Text, codes, [], ◌∷◌}
use job_deploy_operator.Api.Kube.{Result, ok}
use job_deploy_operator.Api.Scheme.{
  GroupVersion, GroupKind, GroupResource, with_kind, with_resource, group_kind, group_resource,
  Scheme,
}
use job_deploy_operator.Api.JobFlow.{job_flow_group, job_flow_version}

unfoldable pub scheme_group_version : GroupVersion
unfolding job_flow_group job_flow_version
scheme_group_version = record { group = job_flow_group; version = job_flow_version }

unfoldable pub kind : Text → GroupKind
unfolding scheme_group_version
kind name = group_kind (with_kind scheme_group_version name)

unfoldable pub resource : Text → GroupResource
unfolding scheme_group_version
resource name = group_resource (with_resource scheme_group_version name)

-- `reflect.TypeOf(&JobFlow{})` and `reflect.TypeOf(&JobFlowList{})`
abbrev pub job_flow_type : Text
job_flow_type = codes "pkg/apis/jobflow/v1alpha1.JobFlow"

abbrev pub job_flow_list_type : Text
job_flow_list_type = codes "pkg/apis/jobflow/v1alpha1.JobFlowList"

module _ {S : Type 0} (scheme : Scheme S) where
  unfoldable pub add_known_types : S → Result (Unit {0}) × S
  unfolding scheme_group_version
  add_known_types s =
      let known =
        scheme.add_known_types scheme_group_version (job_flow_type ∷ job_flow_list_type ∷ []) s in
      (ok tt, scheme.add_to_group_version scheme_group_version known)
