-- ===== src/Controller/Template/Status.antt =====
-- `updateJobTemplateStatus` and `Reconcile` of pkg/controller/jobflow_template_controller.go.
pub mod Listed
use job_deploy_operator.Base.{
  Text, codes, text_eq, GoMap, lookup, Bool, List, [], ◌∷◌, Option, none, some, map, select, ◌==◌,
  if◌then◌else◌,
}
use job_deploy_operator.Api.Kube.{
  NamespacedName, Job, Error, is_not_found, Result, ok, err, Reconciled,
}
use job_deploy_operator.Api.JobTemplate.{JobTemplate}
use job_deploy_operator.Controller.Client.{
  Client, Action, pure, record_event, list_jobs, get_job_template, update_job_template_status,
  ◌>>=◌, ◌>>◌,
}
use job_deploy_operator.Controller.Common.{
  create_by_job_template, get_connection_of_job_and_job_template,
}
use job_deploy_operator.Controller.Flow.Reconcile.{done, failure_event, unread}
use job_deploy_operator.Controller.Daemon.Reconcile.{give_up}

-- `job.Annotations[key]`: the empty string where the map is nil or the key is missing.
abbrev text_or_empty : Option Text → Text
text_or_empty none = []
text_or_empty (some v) = v

abbrev pub find_in : Text → Option (GoMap Text) → Text
find_in key none = []
find_in key (some m) = text_or_empty (lookup key m)

unfoldable pub annotation : Job → Text → Text
annotation job key = find_in key job.metadata.annotations

unfoldable pub is_job_of : JobTemplate → Job → Bool
unfolding annotation
is_job_of t job =
    annotation job create_by_job_template
    == get_connection_of_job_and_job_template t.metadata.namespace t.metadata.name

unfoldable pub filter_jobs : JobTemplate → List Job → List Job
unfolding is_job_of
filter_jobs t jobs = select (is_job_of t) jobs

module _ {S : Type 0} (client : Client S) where
  unfoldable pub save_dependency_list : JobTemplate → List Job → Action S (Result (Unit {0}))
  save_dependency_list t [] = pure (ok tt)
  save_dependency_list t (job ∷ jobs) = do
    updated ←
        update_job_template_status client (record t {
          status = record { dependency_list = map (λ j. j.metadata.name) (job ∷ jobs) };
        })
    pure (elim updated [ ok _ ↦ ok tt | err e ↦ if is_not_found e then ok tt else err e ])

  unfoldable pub update_job_template : JobTemplate → Action S (Result (Unit {0}))
  update_job_template t = do
    listed ← list_jobs client
    elim listed [ err e ↦ pure (err e) | ok jobs ↦ save_dependency_list t (filter_jobs t jobs) ]

  unfoldable pub reconcile_template : NamespacedName → Action S Reconciled
  reconcile_template req = do
    found ← get_job_template client req
    elim found [
      | err e ↦
          if is_not_found e
          then pure done
          else do record_event (failure_event unread (codes "Created") e); pure (give_up e)
      | ok t ↦ do
        updated ← update_job_template t
        elim updated [
          | ok _ ↦ pure done
          | err e ↦ do
            record_event (
                failure_event (record { namespace = t.metadata.namespace; name = t.metadata.name })
                  (codes "Failed") e)
            pure (give_up e)
        ]
    ]
