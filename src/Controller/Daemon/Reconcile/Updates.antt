-- ===== src/Controller/Daemon/Reconcile/Updates.antt =====
-- The calls and the result of an update of the status of a DaemonJob.
use job_deploy_operator.Base.{
  text_eq, codes, ◌≡◌, refl, ◌⊎◌, inl, inr, Bool-cases, true, false, List, [], ◌∷◌, ◌++◌,
  append_assoc, append-nil, All, ◌==◌, ◌||◌, arith,
}
use job_deploy_operator.Api.Kube.{Node, Error, is_not_found, Job, Reconciled, Result, ok, err}
use job_deploy_operator.Api.DaemonJob.{DaemonJob, succeed, failed}
use job_deploy_operator.Controller.Client.{
  Client, Call, listed_jobs, listed_nodes, updated_daemon_job, recorded, Action, ◌>>=◌, pure,
}
use job_deploy_operator.Controller.Trace.{Result-cases}
use job_deploy_operator.Controller.Flow.Reconcile.{done, retry_later, failure_event}
use job_deploy_operator.Controller.Flow.Reconcile.Updates.{IsFinished, IsRetry, IsEvent}
use job_deploy_operator.Controller.Daemon.Deploy.{daemon_key}
use job_deploy_operator.Controller.Daemon.Deploy.Keeps.{IsSame, daemon_job_status-IsSame}
use job_deploy_operator.Controller.Daemon.Status.{
  daemon_job_status, get_all_job_status_from_daemon_job, report_finished, save_status,
  update_status,
}
use job_deploy_operator.Controller.Daemon.Reconcile.{report_failure}

abbrev pub failed_event : DaemonJob → Error → Call
failed_event dj e = recorded (failure_event (daemon_key dj) (codes "Failed") e)

-- What follows the write of a status: nothing, if it is accepted or the DaemonJob is gone; else an
-- event, and the error is returned.
abbrev pub Ends : DaemonJob → Result (Unit {0}) → List Call → Reconciled → Type 0
Ends dj (ok _) after result = (after ≡ []) × IsFinished result
Ends dj (err e) after result =
    (is_not_found e ≡ true) × (after ≡ []) × IsFinished result
    ⊎ ((is_not_found e ≡ false) × (after ≡ failed_event dj e ∷ []) × IsRetry e result)

-- The calls of an update of the status, and its result. The jobs are listed, and then the nodes; if
-- either fails there is an event, and the error is returned. Else, after events at most, the
-- DaemonJob is written with the status that is computed for it from these listings.
abbrev pub Updates : DaemonJob → List Call → Reconciled → Type 0
Updates dj calls result =
    ((e : Error) × (calls ≡ listed_jobs (err e) ∷ failed_event dj e ∷ []) × IsRetry e result)
    ⊎ (((jobs : List Job) × (e : Error) × (calls
            ≡ listed_jobs (ok jobs) ∷ listed_nodes (err e) ∷ failed_event dj e ∷ [])
          × IsRetry e result)
        ⊎ ((jobs : List Job) × (nodes : List Node) × (x : DaemonJob) × (r : Result (Unit {0}))
            × (events : List Call) × (after : List Call) × (calls
                ≡ listed_jobs (ok jobs)
                  ∷ listed_nodes (ok nodes)
                  ∷ (events ++ updated_daemon_job x r ∷ after))
            × All IsEvent events
            × (x.metadata ≡ dj.metadata)
            × (x.status ≡ daemon_job_status dj jobs nodes)
            × Ends dj r after result))

module _ {S : Type 0} (client : Client S) where
  report_finished-events :
      (dj : DaemonJob) (s : S) → All IsEvent (report_finished client dj s).calls
  report_finished-events dj s =
      elim (Bool-cases (dj.status.state == succeed || dj.status.state == failed)) [
        | inl t ↦ rw t (tt, tt)
        | inr f ↦ rw f tt
      ]

  -- What a pass does with the result of the update.
  abbrev pub finish_update : DaemonJob → Result (Unit {0}) → Action S Reconciled
  finish_update dj updated = elim updated [ ok _ ↦ pure done | err e ↦ report_failure client dj e ]

  -- The update of the DaemonJob `d` that the deployment leaves is one of the DaemonJob that was read.
  pub update_status-Updates :
      (d dj : DaemonJob) (same : IsSame d dj) (s : S)
      → let r = (update_status client d >>= finish_update dj) s in Updates dj r.calls r.value
  unfolding update_status get_all_job_status_from_daemon_job save_status
  update_status-Updates d dj same s = elim (Result-cases (client.list_jobs s).0) [
    | inr (e, q) ↦ inl (e, ground (arith, q), rw q (refl, refl, refl))
    | inl (jobs, q) ↦
        let s' = (client.list_jobs s).1 in
        elim (Result-cases (client.list_nodes s').0) [
          | inr (e, n) ↦ inr (inl (jobs, e, ground (arith, q, n), rw (q, n) (refl, refl, refl)))
          | inl (nodes, n) ↦
              let x = record d { status = daemon_job_status d jobs nodes } in
              let after_nodes = (client.list_nodes s').1 in
              let reported = report_finished client x after_nodes in
              let answer = (client.update_daemon_job_status x reported.state).0 in
              let events = report_finished-events x after_nodes in
              let write = updated_daemon_job x answer in
              let r = (update_status client d >>= finish_update dj) s in
              let lists =
                λ (rest : List Call). listed_jobs (ok jobs) ∷ listed_nodes (ok nodes) ∷ rest in
              let none_after = append-nil (reported.calls ++ write ∷ []) in
              elim (Result-cases answer) [
                | inl (u, p) ↦
                    let v : r.value ≡ done = ground (arith, q, n, p) in
                    let c : r.calls ≡ lists (reported.calls ++ write ∷ []) =
                      ground (arith, q, n, p, none_after) in
                    inr (
                      inr (
                        jobs,
                        nodes,
                        x,
                        answer,
                        reported.calls,
                        [],
                        c,
                        events,
                        same.metadata,
                        daemon_job_status-IsSame d dj jobs nodes same,
                        rw p (refl, rw v (refl, refl)),
                      ))
                | inr (e, p) ↦ elim (Bool-cases (is_not_found e)) [
                  | inl g ↦
                      let v : r.value ≡ done = ground (arith, q, n, p, g) in
                      let c : r.calls ≡ lists (reported.calls ++ write ∷ []) =
                        ground (arith, q, n, p, g, none_after) in
                      inr (
                        inr (
                          jobs,
                          nodes,
                          x,
                          answer,
                          reported.calls,
                          [],
                          c,
                          events,
                          same.metadata,
                          daemon_job_status-IsSame d dj jobs nodes same,
                          rw p (inl (g, refl, rw v (refl, refl))),
                        ))
                  | inr g ↦
                      let event = failed_event dj e ∷ [] in
                      let v : r.value ≡ retry_later e = ground (arith, q, n, p, g) in
                      let c : r.calls ≡ lists (reported.calls ++ write ∷ event) =
                        ground
                          (arith, q, n, p, g, append_assoc reported.calls (write ∷ []) event) in
                      inr (
                        inr (
                          jobs,
                          nodes,
                          x,
                          answer,
                          reported.calls,
                          event,
                          c,
                          events,
                          same.metadata,
                          daemon_job_status-IsSame d dj jobs nodes same,
                          rw p (inr (g, refl, rw v (refl, refl, refl))),
                        ))
                ]
              ]
        ]
  ]
