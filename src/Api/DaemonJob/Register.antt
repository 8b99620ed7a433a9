-- ===== src/Api/DaemonJob/Register.antt =====
-- pkg/apis/daemonjob/v1alpha1/register.go: the group and version, and the types of the scheme.
use job_deploy_operator.Base.{Text, codes, [], ◌∷◌}
use job_deploy_operator.Api.Kube.{Result, ok}
use job_deploy_operator.Api.Scheme.{
  GroupVersion, GroupKind, GroupResource, with_kind, with_resource, group_kind, group_resource,
  Scheme,
}
use job_deploy_operator.Api.DaemonJob.{daemon_job_group, daemon_job_version}

unfoldable pub scheme_group_version : GroupVersion
unfolding daemon_job_group daemon_job_version
scheme_group_version = record { group = daemon_job_group; version = daemon_job_version }

unfoldable pub kind : Text → GroupKind
unfolding scheme_group_version
kind name = group_kind (with_kind scheme_group_version name)

unfoldable pub resource : Text → GroupResource
unfolding scheme_group_version
resource name = group_resource (with_resource scheme_group_version name)

-- `reflect.TypeOf(&DaemonJob{})` and `reflect.TypeOf(&DaemonJobList{})`
abbrev pub daemon_job_type : Text
daemon_job_type = codes "pkg/apis/daemonjob/v1alpha1.DaemonJob"

abbrev pub daemon_job_list_type : Text
daemon_job_list_type = codes "pkg/apis/daemonjob/v1alpha1.DaemonJobList"

module _ {S : Type 0} (scheme : Scheme S) where
  unfoldable pub add_known_types : S → Result (Unit {0}) × S
  unfolding scheme_group_version
  add_known_types s =
      let known =
        scheme.add_known_types scheme_group_version (daemon_job_type ∷ daemon_job_list_type ∷ [])
          s in
      (ok tt, scheme.add_to_group_version scheme_group_version known)
