-- ===== src/Controller/Flow/Reconcile/Outcome.antt =====
-- How a pass of the JobFlow controller ends, whatever the client answers.
use job_deploy_operator.Base.{
  text_eq, text_beq_iff, ◌≡◌, refl, sym, subst, codes, append_assoc, ◌⊎◌, inl, inr, Bool-cases,
  true, false, ◌≢◌, List, [], ◌∷◌, ◌++◌, ◌==◌, arith,
}
use job_deploy_operator.Api.Kube.{
  NamespacedName, Error, is_not_found, is_bad_request, Reconciled, Result, ok, err,
}
use job_deploy_operator.Api.JobFlow.{JobFlow, failed}
use job_deploy_operator.Controller.Client.{Client, Call, got_job_flow, recorded}
use job_deploy_operator.Controller.Trace.{Result-cases}
use job_deploy_operator.Controller.Flow.Deploy.{deploy_job_flow}
use job_deploy_operator.Controller.Flow.Reconcile.{
  done, retry_later, unread, failure_event, continue_execution, deploy_and_update, reconcile,
}
use job_deploy_operator.Controller.Flow.Reconcile.Updates.{
  IsFinished, IsRetry, failed_event, Updates, continue_execution-Updates, Updates-deployed,
}

module _ {S : Type 0} (client : Client S) where
  -- The calls and the result of a pass that has read a JobFlow which has not failed: all calls of
  -- `deployJobFlow`, and then, if it succeeds or fails with BadRequest (which is an event), the update
  -- of the status; else an event, and its error is returned.
  abbrev pub DeploysAndUpdates : JobFlow → S → List Call → Reconciled → Type 0
  DeploysAndUpdates jf s calls result =
      let d = deploy_job_flow client jf s in
      ((d.value.0 ≡ ok tt)
        × (rest : List Call) × (calls ≡ d.calls ++ rest)
        × Updates jf rest result)
      ⊎ (((e : Error) × (d.value.0 ≡ err e)
            × (is_bad_request e ≡ true)
            × (rest : List Call) × (calls ≡ d.calls ++ failed_event jf e ∷ rest)
            × Updates jf rest result)
          ⊎ ((e : Error) × (d.value.0 ≡ err e)
              × (is_bad_request e ≡ false)
              × (calls ≡ d.calls ++ failed_event jf e ∷ [])
              × IsRetry e result))

  deploy_and_update-DeploysAndUpdates :
      (jf : JobFlow) (s : S)
      → let r = deploy_and_update client jf s in DeploysAndUpdates jf s r.calls r.value
  unfolding deploy_and_update
  deploy_and_update-DeploysAndUpdates jf s =
      let r = deploy_and_update client jf s in
      let d = deploy_job_flow client jf s in
      let rest = continue_execution client d.value.1 d.state in
      let updates =
        Updates-deployed client jf s rest.calls rest.value
          (continue_execution-Updates client d.value.1 d.state) in
      elim (Result-cases d.value.0) [
        | inl (u, q) ↦
            let v : rest.value ≡ r.value = ground (arith, q) in
            inl (q, rest.calls, ground (arith, q), subst (Updates jf rest.calls) v updates)
        | inr (e, q) ↦ elim (Bool-cases (is_bad_request e)) [
          | inl t ↦
              let v : rest.value ≡ r.value = ground (arith, q, t) in
              inr (
                inl (
                  e,
                  q,
                  t,
                  rest.calls,
                  ground (arith, q, t, append_assoc d.calls (failed_event jf e ∷ []) rest.calls),
                  subst (Updates jf rest.calls) v updates,
                ))
          | inr f ↦
              let v : r.value ≡ retry_later e = ground (arith, q, f) in
              inr (inr (e, q, f, ground (arith, q, f), rw v (refl, refl, refl)))
        ]
      ]

  -- What a pass does after the read, for what it has read.
  abbrev pub Outcome : Result JobFlow → S → List Call → Reconciled → Type 0
  Outcome (ok jf) s calls result =
      ((jf.status.state ≡ codes "Failed") × (calls ≡ []) × IsFinished result)
      ⊎ ((jf.status.state ≢ codes "Failed") × DeploysAndUpdates jf s calls result)
  Outcome (err e) s calls result =
      ((is_not_found e ≡ true) × (calls ≡ []) × IsFinished result)
      ⊎ ((is_not_found e ≡ false)
          × (calls ≡ recorded (failure_event unread (codes "Created") e) ∷ [])
          × IsRetry e result)

  Outcome-known :
      (s : S) (calls : List Call) {x y : Result JobFlow} {v w : Reconciled}
      → x ≡ y
      → v ≡ w
      → Outcome y s calls w
      → Outcome x s calls v
  Outcome-known s calls {x} {y} {v} {w} e f h =
      subst (λ z. Outcome z s calls v) (sym e) (subst (Outcome y s calls) (sym f) h)

  -- A pass reads the JobFlow. If it is gone, or its state is Failed, there is no other call, and no
  -- error. If the read fails otherwise, there is one event, and the error is returned. Else all calls
  -- of `deployJobFlow` follow. If that fails, there is an event, and unless the error is BadRequest it
  -- is returned. In the other cases the jobs are listed and, after events at most, the JobFlow is
  -- written with the status that `getAllJobStatus` computes from this listing for the JobFlow that
  -- was read; if the listing or the write fails there is an event, and the error is returned, but
  -- for a write to a JobFlow that is gone. With each error that is returned, the result asks for
  -- another pass in 60 seconds.
  pub reconcile-Outcome :
      (req : NamespacedName) (s : S)
      → let answer = client.get_job_flow req s in
        let r = reconcile client req s in
        (calls : List Call) × (r.calls ≡ got_job_flow req answer.0 ∷ calls)
        × Outcome answer.0 answer.1 calls r.value
  unfolding reconcile failed
  reconcile-Outcome req s =
      let r = reconcile client req s in
      let answer = client.get_job_flow req s in
      elim (Result-cases answer.0) [
        | inr (e, q) ↦ elim (Bool-cases (is_not_found e)) [
          | inl t ↦
              let v : r.value ≡ done = ground (arith, q, t) in
              ([], ground (arith, q, t), Outcome-known _ _ q v (inl (t, refl, (refl, refl))))
          | inr f ↦
              let v : r.value ≡ retry_later e = ground (arith, q, f) in
              (
                recorded (failure_event unread (codes "Created") e) ∷ [],
                ground (arith, q, f),
                Outcome-known _ _ q v (inr (f, refl, (refl, refl, refl))),
              )
        ]
        | inl (jf, q) ↦ elim (Bool-cases (jf.status.state == failed)) [
          | inl t ↦
              let v : r.value ≡ done = ground (arith, q, t) in
              let state = (text_beq_iff jf.status.state failed).0 t in
              ([], ground (arith, q, t), Outcome-known _ _ q v (inl (state, refl, (refl, refl))))
          | inr f ↦
              let run = deploy_and_update client jf answer.1 in
              let v : r.value ≡ run.value = ground (arith, q, f) in
              let live : jf.status.state ≢ failed =
                λ e. ground (arith, f, (text_beq_iff jf.status.state failed).1 e) in
              let rest = deploy_and_update-DeploysAndUpdates jf answer.1 in
              (run.calls, ground (arith, q, f), Outcome-known _ _ q v (inr (live, rest)))
        ]
      ]
