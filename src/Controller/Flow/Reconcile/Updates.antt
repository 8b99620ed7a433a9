-- ===== src/Controller/Flow/Reconcile/Updates.antt =====
-- The calls and the result of an update of the status of a JobFlow.
use mathlib.Core.Path.{ap₂}
use job_deploy_operator.Base.{
  text_eq, ◌≡◌, refl, sym, codes, append_assoc, ◌∙◌, ◌⊎◌, inl, inr, Bool-cases, true, false, none,
  some, All, ◌||◌, append-nil, ap, List, [], ◌∷◌, ◌++◌, length, length-map, ℕ, ◌==◌, arith,
}
use job_deploy_operator.Api.Kube.{ObjectMeta, Error, is_not_found, Job, Reconciled, Result, ok, err}
use job_deploy_operator.Api.JobFlow.{JobFlow, JobFlowStatus, job_flow_kind, succeed, failed}
use job_deploy_operator.Controller.Client.{Client, Call, listed_jobs, updated_job_flow, recorded}
use job_deploy_operator.Controller.Trace.{Result-cases}
use job_deploy_operator.Controller.Flow.Deploy.{flow_key, deploy_job_flow}
use job_deploy_operator.Controller.Flow.Status.{
  decide_state, get_all_job_status, report_finished, save_status, update_status,
}
use job_deploy_operator.Controller.Tally.{empty_tally, owned_jobs, tally_jobs}
use job_deploy_operator.Controller.Flow.Deploy.Keeps.{
  metadata-deploy_job_flow, length-deploy_job_flow,
}
use job_deploy_operator.Controller.Flow.Reconcile.{
  done, retry_later, failure_event, continue_execution,
}

-- The write was accepted, or the object was gone.
abbrev pub IsTaken : Result (Unit {0}) → Type 0
IsTaken (ok _) = Unit
IsTaken (err e) = is_not_found e ≡ true

-- The pass ends without an error, and asks for no other.
abbrev pub IsFinished : Reconciled → Type 0
IsFinished r = (r.error ≡ none) × (r.requeue ≡ false)

-- The pass returns the error, and asks for another pass in 60 seconds.
abbrev pub IsRetry : Error → Reconciled → Type 0
IsRetry e r = (r.error ≡ some e) × (r.requeue ≡ true) × (r.requeue_after ≡ 60)

abbrev pub IsEvent : Call → Type 0
IsEvent (recorded e) = Unit
IsEvent _ = ⊥

abbrev pub failed_event : JobFlow → Error → Call
failed_event jf e = recorded (failure_event (flow_key jf) (codes "Failed") e)

-- What follows the write of a status: nothing, if it is accepted or the JobFlow is gone; else an
-- event, and the error is returned.
abbrev pub Ends : JobFlow → Result (Unit {0}) → List Call → Reconciled → Type 0
Ends jf (ok _) after result = (after ≡ []) × IsFinished result
Ends jf (err e) after result =
    (is_not_found e ≡ true) × (after ≡ []) × IsFinished result
    ⊎ ((is_not_found e ≡ false) × (after ≡ failed_event jf e ∷ []) × IsRetry e result)

-- The calls of an update of the status, and its result. The jobs are listed; if that fails there is
-- an event, and the error is returned. Else, after events at most, the JobFlow is written with the
-- status that `getAllJobStatus` computes for it from this listing.
abbrev pub Updates : JobFlow → List Call → Reconciled → Type 0
Updates jf calls result =
    ((e : Error) × (calls ≡ listed_jobs (err e) ∷ failed_event jf e ∷ []) × IsRetry e result)
    ⊎ ((jobs : List Job) × (x : JobFlow) × (r : Result (Unit {0})) × (events : List Call)
        × (after : List Call) × (calls
            ≡ listed_jobs (ok jobs) ∷ (events ++ updated_job_flow x r ∷ after))
        × All IsEvent events
        × (x.metadata ≡ jf.metadata)
        × (x.status ≡ get_all_job_status jf jobs)
        × Ends jf r after result)

-- The status, from the metadata and the number of flows.
abbrev status_from : List Job → ObjectMeta → ℕ → JobFlowStatus
status_from jobs metadata flows =
    let t = tally_jobs empty_tally (owned_jobs job_flow_kind metadata.name jobs) in
    record {
      job_status_list = t.job_status_list;
      state = decide_state metadata.deletion_timestamp flows t;
    }

get_all_job_status-from :
    (jf : JobFlow) (jobs : List Job)
    → get_all_job_status jf jobs ≡ status_from jobs jf.metadata (length jf.spec.flows)
unfolding get_all_job_status
get_all_job_status-from jf jobs = rw length-map

-- The same status, whatever `deployJobFlow` wrote into the containers of the flows.
pub status-deployed :
    {S : Type 0} (client : Client S) (jf : JobFlow) (s : S) (jobs : List Job)
    → get_all_job_status (deploy_job_flow client jf s).value.1 jobs ≡ get_all_job_status jf jobs
status-deployed client jf s jobs =
    get_all_job_status-from (deploy_job_flow client jf s).value.1 jobs
    ∙ ap₂ (status_from jobs) (metadata-deploy_job_flow client jf s)
        (length-deploy_job_flow client jf s)
    ∙ sym (get_all_job_status-from jf jobs)

module _ {S : Type 0} (client : Client S) where
  report_finished-events : (jf : JobFlow) (s : S) → All IsEvent (report_finished client jf s).calls
  report_finished-events jf s =
      elim (Bool-cases (jf.status.state == succeed || jf.status.state == failed)) [
        | inl t ↦ rw t (tt, tt)
        | inr f ↦ rw f tt
      ]

  pub continue_execution-Updates :
      (jf : JobFlow) (s : S) → let r = continue_execution client jf s in Updates jf r.calls r.value
  unfolding continue_execution update_status save_status
  continue_execution-Updates jf s = elim (Result-cases (client.list_jobs s).0) [
    | inr (e, q) ↦ inl (e, ground (arith, q), rw q (refl, refl, refl))
    | inl (jobs, q) ↦
        let x = record jf { status = get_all_job_status jf jobs } in
        let reported = report_finished client x (client.list_jobs s).1 in
        let answer = (client.update_job_flow_status x reported.state).0 in
        let events = report_finished-events x (client.list_jobs s).1 in
        let write = updated_job_flow x answer in
        let r = continue_execution client jf s in
        let none_after = append-nil (reported.calls ++ write ∷ []) in
        elim (Result-cases answer) [
          | inl (u, p) ↦
              let v : r.value ≡ done = ground (arith, q, p) in
              let c : r.calls ≡ listed_jobs (ok jobs) ∷ (reported.calls ++ write ∷ []) =
                ground (arith, q, p, none_after) in
              inr (
                jobs,
                x,
                answer,
                reported.calls,
                [],
                c,
                events,
                refl,
                refl,
                rw p (refl, rw v (refl, refl)),
              )
          | inr (e, p) ↦ elim (Bool-cases (is_not_found e)) [
            | inl g ↦
                let v : r.value ≡ done = ground (arith, q, p, g) in
                let c : r.calls ≡ listed_jobs (ok jobs) ∷ (reported.calls ++ write ∷ []) =
                  ground (arith, q, p, g, none_after) in
                inr (
                  jobs,
                  x,
                  answer,
                  reported.calls,
                  [],
                  c,
                  events,
                  refl,
                  refl,
                  rw p (inl (g, refl, rw v (refl, refl))),
                )
            | inr g ↦
                let event = failed_event jf e ∷ [] in
                let v : r.value ≡ retry_later e = ground (arith, q, p, g) in
                let c : r.calls ≡ listed_jobs (ok jobs) ∷ (reported.calls ++ write ∷ event) =
                  ground (arith, q, p, g, append_assoc reported.calls (write ∷ []) event) in
                inr (
                  jobs,
                  x,
                  answer,
                  reported.calls,
                  event,
                  c,
                  events,
                  refl,
                  refl,
                  rw p (inr (g, refl, rw v (refl, refl, refl))),
                )
          ]
        ]
  ]

  failed_event-deployed :
      (jf : JobFlow) (s : S) (e : Error)
      → failed_event (deploy_job_flow client jf s).value.1 e ≡ failed_event jf e
  failed_event-deployed jf s e =
      ap
        (λ m.
          recorded
            (failure_event (record { namespace = m.namespace; name = m.name }) (codes "Failed") e))
        (metadata-deploy_job_flow client jf s)

  -- The update of the JobFlow that the deployment leaves is one of the JobFlow that was read.
  pub Updates-deployed :
      (jf : JobFlow) (s : S) (calls : List Call) (result : Reconciled)
      → Updates (deploy_job_flow client jf s).value.1 calls result
      → Updates jf calls result
  Updates-deployed jf s calls result (inl (e, c, v)) =
      inl (e, c ∙ ap (λ x. listed_jobs (err e) ∷ x ∷ []) (failed_event-deployed jf s e), v)
  Updates-deployed jf s calls result
        (inr (jobs, x, ok u, events, after, c, h, metadata, status, ends)) =
      inr (
        jobs,
        x,
        ok u,
        events,
        after,
        c,
        h,
        metadata ∙ metadata-deploy_job_flow client jf s,
        status ∙ status-deployed client jf s jobs,
        ends,
      )
  Updates-deployed jf s calls result
        (inr (jobs, x, err e, events, after, c, h, metadata, status, ends)) =
      inr (
        jobs,
        x,
        err e,
        events,
        after,
        c,
        h,
        metadata ∙ metadata-deploy_job_flow client jf s,
        status ∙ status-deployed client jf s jobs,
        elim ends [
          | inl gone ↦ inl gone
          | inr (g, a, v) ↦ inr (g, a ∙ ap (λ x. x ∷ []) (failed_event-deployed jf s e), v)
        ],
      )
