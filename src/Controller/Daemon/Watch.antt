-- ===== src/Controller/Daemon/Watch.antt =====
-- `OnUpdateJobHandlerByDaemonJob` and `OnDeleteJobHandlerByDaemonJob` of
-- pkg/controller/daemonjob_controller.go; their loop is that of the JobFlow handlers.
use job_deploy_operator.Base.{List}
use job_deploy_operator.Api.Kube.{NamespacedName, Job}
use job_deploy_operator.Api.DaemonJob.{daemon_job_kind, daemon_job_api_version}
use job_deploy_operator.Controller.Flow.Watch.{owner_requests}

unfoldable pub on_update_job_daemon : (object_old object_new : Job) → List NamespacedName
unfolding owner_requests
on_update_job_daemon object_old object_new =
    owner_requests daemon_job_kind daemon_job_api_version object_new.metadata.namespace
      object_new.metadata.owner_references

unfoldable pub on_delete_job_daemon : Job → List NamespacedName
unfolding owner_requests
on_delete_job_daemon object =
    owner_requests daemon_job_kind daemon_job_api_version object.metadata.namespace
      object.metadata.owner_references
