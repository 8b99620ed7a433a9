-- ===== src/Controller/Daemon/Reconcile/Outcome.antt =====
-- What a pass of the DaemonJob controller does, whatever the client answers.
use job_deploy_operator.Base.{
  text_eq, text_beq_iff, codes, ◌≡◌, refl, sym, subst, ◌≢◌, ◌⊎◌, inl, inr, Bool-cases, true, false,
  some, List, [], ◌∷◌, ◌++◌, ◌==◌, arith,
}
use job_deploy_operator.Api.Kube.{NamespacedName, Error, is_not_found, Reconciled, Result, ok, err}
use job_deploy_operator.Api.DaemonJob.{DaemonJob, failed}
use job_deploy_operator.Controller.Client.{Client, Call, got_daemon_job, recorded, ◌>>=◌}
use job_deploy_operator.Controller.Trace.{Result-cases}
use job_deploy_operator.Controller.Flow.Reconcile.{done, retry_later, failure_event, unread}
use job_deploy_operator.Controller.Flow.Reconcile.Updates.{IsFinished, IsRetry}
use job_deploy_operator.Controller.Daemon.Deploy.{deploy_daemon_job}
use job_deploy_operator.Controller.Daemon.Deploy.Keeps.{deploy_daemon_job-IsSame}
use job_deploy_operator.Controller.Daemon.Status.{update_status}
use job_deploy_operator.Controller.Daemon.Reconcile.{give_up, deploy_and_update, reconcile}
use job_deploy_operator.Controller.Daemon.Reconcile.Updates.{
  failed_event, Updates, finish_update, update_status-Updates,
}

module _ {S : Type 0} (client : Client S) where
  -- The calls and the result of a pass that has read a DaemonJob which has not failed: all calls of
  -- `deployDaemonJob`, and then, if it succeeds, the update of the status; else an event, and its
  -- error is returned.
  abbrev pub DeploysAndUpdates : DaemonJob → S → List Call → Reconciled → Type 0
  DeploysAndUpdates dj s calls result =
      let d = deploy_daemon_job client dj s in
      ((d.value.0 ≡ ok tt)
        × (rest : List Call) × (calls ≡ d.calls ++ rest)
        × Updates dj rest result)
      ⊎ ((e : Error) × (d.value.0 ≡ err e)
          × (calls ≡ d.calls ++ failed_event dj e ∷ [])
          × IsRetry e result)

  deploy_and_update-DeploysAndUpdates :
      (dj : DaemonJob) (s : S)
      → let r = deploy_and_update client dj s in DeploysAndUpdates dj s r.calls r.value
  unfolding deploy_and_update
  deploy_and_update-DeploysAndUpdates dj s =
      let r = deploy_and_update client dj s in
      let d = deploy_daemon_job client dj s in
      let rest = (update_status client d.value.1 >>= finish_update client dj) d.state in
      let updates =
        update_status-Updates client d.value.1 dj (deploy_daemon_job-IsSame client dj s) d.state in
      elim (Result-cases d.value.0) [
        | inl (u, q) ↦
            let v : rest.value ≡ r.value = ground (arith, q) in
            inl (q, rest.calls, ground (arith, q), subst (Updates dj rest.calls) v updates)
        | inr (e, q) ↦
            let v : r.value ≡ retry_later e = ground (arith, q) in
            inr (e, q, ground (arith, q), rw v (refl, refl, refl))
      ]

  -- What a pass does after the read, for what it has read.
  abbrev pub Outcome : Result DaemonJob → S → List Call → Reconciled → Type 0
  Outcome (ok dj) s calls result =
      ((dj.status.state ≡ codes "Failed") × (calls ≡ []) × IsFinished result)
      ⊎ ((dj.status.state ≢ codes "Failed") × DeploysAndUpdates dj s calls result)
  Outcome (err e) s calls result =
      ((is_not_found e ≡ true) × (calls ≡ []) × IsFinished result)
      ⊎ ((is_not_found e ≡ false)
          × (calls ≡ recorded (failure_event unread (codes "Created") e) ∷ [])
          × (result.error ≡ some e)
          × (result.requeue ≡ false))

  Outcome-known :
      (s : S) (calls : List Call) {x y : Result DaemonJob} {v w : Reconciled}
      → x ≡ y
      → v ≡ w
      → Outcome y s calls w
      → Outcome x s calls v
  Outcome-known s calls {x} {y} {v} {w} e f h =
      subst (λ z. Outcome z s calls v) (sym e) (subst (Outcome y s calls) (sym f) h)

  -- A pass reads the DaemonJob. If it is gone, or its state is Failed, there is no other call, and no
  -- error. If the read fails otherwise, there is one event, and the error is returned. Else all calls
  -- of `deployDaemonJob` follow. If that fails, there is an event, and the error is returned. If not,
  -- the jobs and then the nodes are listed and, after events at most, the DaemonJob is written with
  -- the status that is computed from these listings for the DaemonJob that was read; if a listing or
  -- the write fails there is an event, and the error is returned, but for a write to a DaemonJob that
  -- is gone. With each error that is returned, but that of the read, the result asks for another pass
  -- in 60 seconds.
  pub daemon_reconcile-Outcome :
      (req : NamespacedName) (s : S)
      → let answer = client.get_daemon_job req s in
        let r = reconcile client req s in
        (calls : List Call) × (r.calls ≡ got_daemon_job req answer.0 ∷ calls)
        × Outcome answer.0 answer.1 calls r.value
  unfolding reconcile failed
  daemon_reconcile-Outcome req s =
      let r = reconcile client req s in
      let answer = client.get_daemon_job req s in
      elim (Result-cases answer.0) [
        | inr (e, q) ↦ elim (Bool-cases (is_not_found e)) [
          | inl t ↦
              let v : r.value ≡ done = ground (arith, q, t) in
              ([], ground (arith, q, t), Outcome-known _ _ q v (inl (t, refl, (refl, refl))))
          | inr f ↦
              let v : r.value ≡ give_up e = ground (arith, q, f) in
              (
                recorded (failure_event unread (codes "Created") e) ∷ [],
                ground (arith, q, f),
                Outcome-known _ _ q v (inr (f, refl, refl, refl)),
              )
        ]
        | inl (dj, q) ↦ elim (Bool-cases (dj.status.state == failed)) [
          | inl t ↦
              let v : r.value ≡ done = ground (arith, q, t) in
              let state = (text_beq_iff dj.status.state failed).0 t in
              ([], ground (arith, q, t), Outcome-known _ _ q v (inl (state, refl, (refl, refl))))
          | inr f ↦
              let run = deploy_and_update client dj answer.1 in
              let v : r.value ≡ run.value = ground (arith, q, f) in
              let live : dj.status.state ≢ failed =
                λ e. ground (arith, f, (text_beq_iff dj.status.state failed).1 e) in
              let rest = deploy_and_update-DeploysAndUpdates dj answer.1 in
              (run.calls, ground (arith, q, f), Outcome-known _ _ q v (inr (live, rest)))
        ]
      ]
