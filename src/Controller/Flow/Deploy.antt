-- ===== src/Controller/Flow/Deploy.antt =====
-- `deployJobFlow` of pkg/controller/helper.go: one pass over the flows of a JobFlow.
pub mod Checks
pub mod Order
pub mod Keeps
pub mod Ready
use job_deploy_operator.Base.{
  Text, codes, text_eq, ◌≡◌, refl, ◌⊎◌, inl, inr, Bool, true, false, List, [], ◌∷◌, ◌++◌, length,
  ◌==◌, nat_eq, if◌then◌else◌,
}
use job_deploy_operator.Api.Kube.{
  NamespacedName, Job, Error, is_not_found, is_already_exists, new_bad_request, Result, ok, err,
}
use job_deploy_operator.Api.JobFlow.{Flow, JobFlow}
use job_deploy_operator.Controller.Client.{
  Client, Event, normal, warning, Action, pure, record_event, get_job, create_job, ◌>>=◌, ◌>>◌,
}
use job_deploy_operator.Controller.Common.{get_job_name}
use job_deploy_operator.Controller.Flow.Prepare.{prepare_job}

-- How an iteration of the loop ends: `continue`, `break`, or `return err`.
pub data Control : Type 0 where
  next stop : Control
  fail : Error → Control

pub Control-cases : (c : Control) → (c ≡ next) ⊎ (c ≡ stop) ⊎ ((e : Error) × (c ≡ fail e))
Control-cases next = inl refl
Control-cases stop = inr (inl refl)
Control-cases (fail e) = inr (inr (e, refl))

abbrev pub job_key : JobFlow → Text → NamespacedName
job_key jf flow_name = record {
  namespace = jf.metadata.namespace;
  name = get_job_name jf.metadata.name flow_name;
}

abbrev pub flow_key : JobFlow → NamespacedName
flow_key jf = record { namespace = jf.metadata.namespace; name = jf.metadata.name }

unfoldable pub created_without_dependencies : Text → Text
created_without_dependencies name =
    codes "create a job named " ++ name ++ codes " without dependencies"

unfoldable pub created_for_next_step : Text → Text
created_for_next_step name = codes "create job named " ++ name ++ codes " for next step"

unfoldable pub dependency_failed : Text → Text
dependency_failed name = codes "dependencies Job " ++ name ++ codes " execute error"

abbrev pub created_event : JobFlow → Text → Event
created_event jf message = record {
  object = flow_key jf;
  type = normal;
  reason = codes "Created";
  message = message;
}

module _ {S : Type 0} (client : Client S) (jf : JobFlow) where
  -- The loop over the dependencies. The result is the flag: whether all of them have succeeded.
  unfoldable pub check_dependencies : Bool → List Text → Action S (Result Bool)
  check_dependencies flag [] = pure (ok flag)
  check_dependencies flag (d ∷ ds) = do
    found ← get_job client (job_key jf d)
    elim found [
      | err e ↦ if is_not_found e then pure (ok false) else pure (err e)
      | ok job ↦
          let rest = check_dependencies (if job.status.succeeded == 1 then flag else false) ds in
          if job.status.failed == 1
          then pure (err (new_bad_request (dependency_failed job.metadata.name)))
          else rest
    ]

  unfoldable pub create_independent : Job → Action S Control
  create_independent job = do
    created ← create_job client job
    elim created [
      | err e ↦ if is_already_exists e then pure next else pure (fail e)
      | ok _ ↦ do
        record_event (created_event jf (created_without_dependencies job.metadata.name))
        pure next
    ]

  -- The `break` for a job that is there already leaves the loop over the flows.
  unfoldable pub create_dependent : Job → Action S Control
  create_dependent job = do
    created ← create_job client job
    elim created [
      | err e ↦ if is_already_exists e then pure stop else pure (fail e)
      | ok _ ↦ do
        record_event (created_event jf (created_for_next_step job.metadata.name))
        pure next
    ]

  unfoldable pub create_when_ready : Flow → Job → Action S Control
  create_when_ready flow job = if length flow.dependencies == 0 then create_independent job else do
    ready ← check_dependencies true flow.dependencies
    elim ready [
      | err e ↦ pure (fail e)
      | ok flag ↦ if flag then create_dependent job else pure next
    ]

  -- A job that is there is left alone.
  unfoldable pub start_job : Flow → Job → Action S Control
  start_job flow job = do
    found ← get_job client (job_key jf flow.name)
    elim found [
      | ok _ ↦ pure next
      | err e ↦ if is_not_found e then create_when_ready flow job else pure (fail e)
    ]

  unfoldable pub deploy_flow : Flow → Action S (Control × Flow)
  deploy_flow flow = do
    prepared ← prepare_job client jf flow (get_job_name jf.metadata.name flow.name)
    elim prepared.0 [
      | err e ↦ pure (fail e, prepared.1)
      | ok job ↦ do control ← start_job flow job; pure (control, prepared.1)
    ]

  -- The loop over the flows; beside the result, the flows as the loop leaves them.
  unfoldable pub deploy_flows : List Flow → Action S (Result (Unit {0}) × List Flow)
  deploy_flows [] = pure (ok tt, [])
  deploy_flows (flow ∷ flows) = do
    step ← deploy_flow flow
    elim step.0 [
      | fail e ↦ pure (err e, step.1 ∷ flows)
      | stop ↦ pure (ok tt, step.1 ∷ flows)
      | next ↦ do done ← deploy_flows flows; pure (done.0, step.1 ∷ done.1)
    ]

module _ {S : Type 0} (client : Client S) where
  -- The result, and the caller's JobFlow after the call.
  unfoldable pub deploy_job_flow : JobFlow → Action S (Result (Unit {0}) × JobFlow)
  deploy_job_flow jf = do
    done ← deploy_flows client jf jf.spec.flows
    pure (done.0, record jf { spec = record jf.spec { flows = done.1 } })
