-- ===== src/Controller/Flow/Passes/Cluster.antt =====
-- A cluster whose jobs only creations change, and what `Reconcile` leaves of them.
use job_deploy_operator.Base.{
  text_eq, ◌≡◌, ap, ◌∙◌, ◌≢◌, inl, inr, Bool-cases, ◌∷◌, ◌++◌, ◌==◌, ◌||◌, beq_of_ne, arith,
}
use job_deploy_operator.Api.Kube.{NamespacedName, ok}
use job_deploy_operator.Api.JobFlow.{JobFlow, succeed, failed}
use job_deploy_operator.Controller.Client.{Client, got_job_flow}
use job_deploy_operator.Controller.Trace.{Result-cases}
use job_deploy_operator.Controller.Flow.Deploy.{deploy_job_flow}
use job_deploy_operator.Controller.Flow.Status.{get_all_job_status, save_status, update_status}
use job_deploy_operator.Controller.Flow.Reconcile.{continue_execution, deploy_and_update, reconcile}
use job_deploy_operator.Controller.Flow.Passes.Answers.{IsAnswering}

-- A store in which also the reads of JobFlows change nothing, and a listing and the write of a status
-- leave the jobs as they are.
pub record IsCluster {S : Type 0} (client : Client S) : Type 0 where
  pub answering : IsAnswering client
  pub reads_flows : (req : NamespacedName) (s : S) → (client.get_job_flow req s).1 ≡ s
  pub lists :
      (key : NamespacedName) (s : S)
      → (client.get_job key (client.list_jobs s).1).0 ≡ (client.get_job key s).0
  pub writes :
      (x : JobFlow) (key : NamespacedName) (s : S)
      → (client.get_job key (client.update_job_flow_status x s).1).0 ≡ (client.get_job key s).0

module _ {S : Type 0} (client : Client S) (cluster : IsCluster client) where
  save_status-jobs :
      (x : JobFlow) (key : NamespacedName) (s : S)
      → (client.get_job key (save_status client x s).state).0 ≡ (client.get_job key s).0
  unfolding save_status
  save_status-jobs x key s =
      elim (Bool-cases (x.status.state == succeed || x.status.state == failed)) [
        | inl t ↦ ground (arith, t, cluster.writes x key s)
        | inr f ↦ ground (arith, f, cluster.writes x key s)
      ]

  update_status-jobs :
      (jf : JobFlow) (key : NamespacedName) (s : S)
      → (client.get_job key (update_status client jf s).state).0 ≡ (client.get_job key s).0
  unfolding update_status
  update_status-jobs jf key s = elim (Result-cases (client.list_jobs s).0) [
    | inr (e, q) ↦ ground (arith, q, cluster.lists key s)
    | inl (jobs, q) ↦
        let x = record jf { status = get_all_job_status jf jobs } in
        rw q (save_status-jobs x key (client.list_jobs s).1 ∙ cluster.lists key s)
  ]

  pub continue_execution-jobs :
      (jf : JobFlow) (key : NamespacedName) (s : S)
      → (client.get_job key (continue_execution client jf s).state).0 ≡ (client.get_job key s).0
  unfolding continue_execution
  continue_execution-jobs jf key s = elim (Result-cases (update_status client jf s).value) [
    | inr (e, q) ↦ ground (arith, q, update_status-jobs jf key s)
    | inl (u, q) ↦ ground (arith, q, update_status-jobs jf key s)
  ]

  -- A pass that deploys without an error goes on with the update of the status.
  pub deploy_and_update-runs :
      (jf : JobFlow) (s : S)
      → (deploy_job_flow client jf s).value.0 ≡ ok tt
      → let d = deploy_job_flow client jf s in
        let rest = continue_execution client d.value.1 d.state in
        ((deploy_and_update client jf s).state ≡ rest.state)
        × ((deploy_and_update client jf s).value ≡ rest.value)
        × ((deploy_and_update client jf s).calls ≡ d.calls ++ rest.calls)
  unfolding deploy_and_update
  deploy_and_update-runs jf s v = (ground (arith, v), ground (arith, v), ground (arith, v))

  pub reconcile-runs :
      (req : NamespacedName) (jf : JobFlow) (s : S)
      → (client.get_job_flow req s).0 ≡ ok jf
      → jf.status.state ≢ failed
      → let run = deploy_and_update client jf s in
        ((reconcile client req s).state ≡ run.state)
        × ((reconcile client req s).value ≡ run.value)
        × ((reconcile client req s).calls ≡ got_job_flow req (ok jf) ∷ run.calls)
  unfolding reconcile
  reconcile-runs req jf s q not_failed =
      let t = beq_of_ne jf.status.state failed not_failed in
      let moved = ap (deploy_and_update client jf) (cluster.reads_flows req s) in
      (ground (arith, q, t, moved), ground (arith, q, t, moved), ground (arith, q, t, moved))
