-- ===== src/Controller/Flow/Passes/Reconciles.antt =====
-- The whole of `Reconcile`, pass after pass, until it writes that the JobFlow has succeeded.
use mathlib.Core.List.{Memᴰ}
use job_deploy_operator.Base.{
  ℕ, suc, ◌<◌, Text, text_eq, ◌≡◌, refl, sym, ap, subst, ◌∙◌, ◌≢◌, inl, inr, none, List, All, Any,
  Any-append_left, Any-append_right, arith,
}
use job_deploy_operator.Api.Kube.{NamespacedName, Job, Result, ok}
use job_deploy_operator.Api.JobFlow.{Flow, JobFlow, JobFlowStatus, succeed, failed}
use job_deploy_operator.Controller.Client.{Client, Call, updated_job_flow}
use job_deploy_operator.Controller.Flow.Deploy.{job_key, deploy_job_flow}
use job_deploy_operator.Controller.Flow.Deploy.Ready.{IsDone}
use job_deploy_operator.Controller.Flow.Status.{
  get_all_job_status, report_finished, save_status, update_status,
}
use job_deploy_operator.Controller.Flow.Reconcile.{continue_execution, reconcile}
use job_deploy_operator.Controller.Flow.Passes.{IsPresent, AreDistinct}
use job_deploy_operator.Controller.Flow.Passes.Answers.{Conflicts}
use job_deploy_operator.Controller.Flow.Passes.Progress.{ready_jobs_are_there, deploy_job_flow-Kept}
use job_deploy_operator.Controller.Flow.Passes.Ranks.{
  All-Memᴰ, IsRanked, IsListing, all_done_succeeds,
}
use job_deploy_operator.Controller.Flow.Reconcile.Updates.{status-deployed}
use job_deploy_operator.Controller.Flow.Passes.Cluster.{
  IsCluster, continue_execution-jobs, deploy_and_update-runs, reconcile-runs,
}

module _ {S : Type 0} (client : Client S) (cluster : IsCluster client) where
  module _ (jf : JobFlow) (req : NamespacedName) where
    abbrev pub with_status : JobFlowStatus → JobFlow
    with_status status = record jf { status = status }

    -- A number of passes of `Reconcile`. Each reads the JobFlow with some status that is not Failed
    -- and deploys without an error and without the answer AlreadyExists to a creation, and after it
    -- every job of the JobFlow that is there comes to its success.
    pub data Reconciles : ℕ → S → S → Type 0 where
      begin : (s : S) → Reconciles 0 s s
      pass :
          (k : ℕ) (s s' s'' : S) (status : JobFlowStatus)
          → Reconciles k s s'
          → (client.get_job_flow req s').0 ≡ ok (with_status status)
          → status.state ≢ failed
          → (deploy_job_flow client (with_status status) s').value.0 ≡ ok tt
          → ((flow : Flow)
              → Memᴰ flow jf.spec.flows
              → ¬ Conflicts jf (deploy_job_flow client (with_status status) s').calls flow)
          → ((name : Text)
              → IsPresent client jf (reconcile client req s').state name
              → IsDone client jf s'' name)
          → Reconciles (suc k) s s''

    -- What the pass leaves of a job that the deployment left.
    reconcile-IsPresent :
        (status : JobFlowStatus) (s : S) (name : Text)
        → (client.get_job_flow req s).0 ≡ ok (with_status status)
        → status.state ≢ failed
        → (deploy_job_flow client (with_status status) s).value.0 ≡ ok tt
        → IsPresent client jf (deploy_job_flow client (with_status status) s).state name
        → IsPresent client jf (reconcile client req s).state name
    reconcile-IsPresent status s name q not_failed v (job, there) =
        let read = with_status status in
        let d = deploy_job_flow client read s in
        let (state, _, _) = reconcile-runs client cluster req read s q not_failed in
        let (state', _, _) = deploy_and_update-runs client cluster read s v in
        (
          job,
          ap (λ x. (client.get_job (job_key jf name) x).0) (state ∙ state')
              ∙ continue_execution-jobs client cluster d.value.1 (job_key jf name) d.state
              ∙ there,
        )

    module _ (distinct : AreDistinct client jf jf.spec.flows) (rank : Text → ℕ)
        (ranked : IsRanked rank jf.spec.flows) where
      reconciled_flows_finish :
          (k : ℕ) (s s' : S)
          → Reconciles k s s'
          → (flow : Flow) → Memᴰ flow jf.spec.flows
          → rank flow.name < k
          → IsDone client jf s' flow.name
      reconciled_flows_finish _ _ _ (begin s) flow member below = absurd (omega (arith, below))
      reconciled_flows_finish _ _ _ (pass k s s' s'' status before q not_failed v free finishes)
            flow member below =
          let ready : All (IsDone client jf s') flow.dependencies =
            All-Memᴰ (IsDone client jf s') flow.dependencies (λ d m.
              let (needed, listed, named, lower) = ranked flow member d m in
              let lower' : rank needed.name < k =
                subst (λ n. rank n < k) (sym named) (omega (arith, lower, below)) in
              subst (IsDone client jf s') named
                (reconciled_flows_finish k s s' before needed listed lower')) in
          elim (ready_jobs_are_there client cluster.answering (with_status status) distinct s' flow
            member v (λ g mem needed. free g mem) ready) [
              | inl there ↦
                  finishes flow.name (reconcile-IsPresent status s' flow.name q not_failed v there)
              | inr conflict ↦ absurd (free flow member conflict)
            ]

-- A write of a status whose state is Succeed.
abbrev pub WritesSucceed : Call → Type 0
WritesSucceed c =
    (x : JobFlow) × (r : Result (Unit {0})) × (c ≡ updated_job_flow x r)
    × (x.status.state ≡ succeed)

module _ {S : Type 0} (client : Client S) where
  save_status-WritesSucceed :
      (x : JobFlow) (s : S)
      → x.status.state ≡ succeed
      → Any WritesSucceed (save_status client x s).calls
  unfolding save_status
  save_status-WritesSucceed x s e =
      let reported = report_finished client x s in
      let answer = (client.update_job_flow_status x reported.state).0 in
      Any-append_right WritesSucceed reported.calls _ (inl (x, answer, refl, e))

  update_status-WritesSucceed :
      (jf : JobFlow) (s : S) (jobs : List Job)
      → (client.list_jobs s).0 ≡ ok jobs
      → (get_all_job_status jf jobs).state ≡ succeed
      → Any WritesSucceed (update_status client jf s).calls
  unfolding update_status
  update_status-WritesSucceed jf s jobs q e = rw q (
      inr (
        save_status-WritesSucceed (record jf { status = get_all_job_status jf jobs })
          (client.list_jobs s).1 e))

  continue_execution-WritesSucceed :
      (jf : JobFlow) (s : S) (jobs : List Job)
      → (client.list_jobs s).0 ≡ ok jobs
      → (get_all_job_status jf jobs).state ≡ succeed
      → Any WritesSucceed (continue_execution client jf s).calls
  unfolding continue_execution
  continue_execution-WritesSucceed jf s jobs q e =
      Any-append_left WritesSucceed (update_status client jf s).calls _
        (update_status-WritesSucceed jf s jobs q e)

-- Let the client be a store as in IsCluster, where also a created job is there and a creation touches
-- one key. Let the flows have different names, let each dependency be the name of a flow of a lower
-- rank, let all ranks be below `k`, and let the JobFlow not be marked for deletion. After `k` passes
-- of `Reconcile`, which deploy without an error and without the answer AlreadyExists to a creation,
-- and between which the jobs that are there succeed, let one more pass read the JobFlow, with a
-- status that is not Failed, deploy without an error, and then list, in any order, the job of each
-- flow once, as it is and with one owner reference to the JobFlow by kind and name, and else only
-- jobs without such a reference (so no job of a JobFlow of the same name in another namespace). This
-- pass writes the state Succeed.
pub reconcile-WritesSucceed :
    {S : Type 0} (client : Client S) (cluster : IsCluster client) (jf : JobFlow)
    (req : NamespacedName) (distinct : AreDistinct client jf jf.spec.flows) (rank : Text → ℕ)
    (ranked : IsRanked rank jf.spec.flows) (k : ℕ) (s s' : S) (status : JobFlowStatus)
    (jobs : List Job)
    → ((flow : Flow) → Memᴰ flow jf.spec.flows → rank flow.name < k)
    → jf.metadata.deletion_timestamp ≡ none
    → Reconciles client cluster jf req k s s'
    → (client.get_job_flow req s').0 ≡ ok (with_status client cluster jf req status)
    → status.state ≢ failed
    → (deploy_job_flow client (with_status client cluster jf req status) s').value.0 ≡ ok tt
    → IsListing client jf
        (deploy_job_flow client (with_status client cluster jf req status) s').state
        jobs
    → Any WritesSucceed (reconcile client req s').calls
unfolding get_all_job_status
reconcile-WritesSucceed client cluster jf req distinct rank ranked k s s' status jobs below kept
      passes q not_failed v listing =
    let read = with_status client cluster jf req status in
    let d = deploy_job_flow client read s' in
    let stays = deploy_job_flow-Kept client cluster.answering read distinct s' in
    let all = λ (flow : Flow) (member : Memᴰ flow jf.spec.flows). stays.finished flow.name (
      reconciled_flows_finish client cluster jf req distinct rank ranked k s s' passes flow member
        (below flow member)) in
    let succeeded : (get_all_job_status read jobs).state ≡ succeed =
      all_done_succeeds client jf d.state jobs kept all listing in
    let succeeded' : (get_all_job_status d.value.1 jobs).state ≡ succeed =
      ap (λ (x : JobFlowStatus). x.state) (status-deployed client read s' jobs) ∙ succeeded in
    let rest = continue_execution client d.value.1 d.state in
    let (_, _, calls) = reconcile-runs client cluster req read s' q not_failed in
    let (_, _, calls') = deploy_and_update-runs client cluster read s' v in
    subst (Any WritesSucceed) (sym calls) (
      inr (
        subst (Any WritesSucceed) (sym calls') (
          Any-append_right WritesSucceed d.calls rest.calls (
            continue_execution-WritesSucceed client d.value.1 d.state jobs listing.listed
              succeeded'))))
