-- ===== src/Listers/DaemonJobs.antt =====
-- pkg/client/listers/daemonjob/v1alpha1/daemonjob.go: the lister of DaemonJobs, and that of one namespace.
use job_deploy_operator.Base.{Text, codes, List, Option, none, some}
use job_deploy_operator.Api.Kube.{Error, Result, ok, err}
use job_deploy_operator.Api.DaemonJob.{DaemonJob}
use job_deploy_operator.Clientset.Testing.{Selector}
use job_deploy_operator.Listers.Indexer.{Indexer, index_key, new_not_found}

pub record DaemonJobLister : Type 0 where
  pub indexer : Indexer DaemonJob

pub record DaemonJobNamespaceLister : Type 0 where
  pub indexer : Indexer DaemonJob
  pub namespace : Text

abbrev pub new_daemon_job_lister : Indexer DaemonJob → DaemonJobLister
new_daemon_job_lister indexer = record { indexer = indexer }

unfoldable pub list : DaemonJobLister → Selector → List DaemonJob × Option Error
list s selector = s.indexer.list_all selector

abbrev pub daemon_jobs : DaemonJobLister → Text → DaemonJobNamespaceLister
daemon_jobs s namespace = record { indexer = s.indexer; namespace = namespace }

unfoldable pub list_in_namespace :
    DaemonJobNamespaceLister → Selector → List DaemonJob × Option Error
list_in_namespace s selector = s.indexer.list_all_by_namespace s.namespace selector

-- What `Get` makes of the answer to `GetByKey`.
abbrev pub found_daemon_job :
    (message : Text → Text → Text) → Text → Option DaemonJob × Option Error → Result DaemonJob
found_daemon_job message name (obj, some e) = err e
found_daemon_job message name (none, none) = err (new_not_found message (codes "daemonjob") name)
found_daemon_job message name (some daemon_job, none) = ok daemon_job

unfoldable pub get :
    (message : Text → Text → Text) → DaemonJobNamespaceLister → Text → Result DaemonJob
get message s name =
    found_daemon_job message name (s.indexer.get_by_key (index_key s.namespace name))
