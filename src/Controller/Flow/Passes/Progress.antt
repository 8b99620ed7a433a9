-- ===== src/Controller/Flow/Passes/Progress.antt =====
-- What a pass of `deployJobFlow` that ends without an error has created.
use mathlib.Core.List.{Memᴰ}
use job_deploy_operator.Base.{
  Any, Any-append_left, Any-append_right, append-nil, ◌++◌, text_eq, nat_eq, ◌≡◌, ◌≢◌, refl, sym,
  ◌∙◌, subst, ◌⊎◌, inl, inr, List, [], ◌∷◌, All, All-self, arith,
}
use job_deploy_operator.Api.Kube.{ok}
use job_deploy_operator.Api.JobFlow.{Flow, JobFlow}
use job_deploy_operator.Controller.Client.{Client}
use job_deploy_operator.Controller.Common.{get_job_name}
use job_deploy_operator.Controller.Flow.Deploy.{
  next, stop, Control-cases, deploy_flow, deploy_flows, deploy_job_flow,
}
use job_deploy_operator.Controller.Flow.Deploy.Ready.{IsDone}
use job_deploy_operator.Controller.Flow.Passes.{IsPresent, All-stays, AreDistinct}
use job_deploy_operator.Controller.Flow.Passes.Answers.{
  IsAnswering, IsConflict, Conflicts, HasNoConflict,
}
use job_deploy_operator.Controller.Flow.Passes.Iterations.{
  Kept, Kept-same, Kept-then, deploy_flow-Iteration,
}

module _ {S : Type 0} (client : Client S) (answering : IsAnswering client) (jf : JobFlow)
    (distinct : AreDistinct client jf jf.spec.flows) where
  deploy_flows-Kept :
      (flows : List Flow) (s : S)
      → All (λ flow. Memᴰ flow jf.spec.flows) flows
      → Kept client answering jf s (deploy_flows client jf flows s).state
  unfolding deploy_flows
  deploy_flows-Kept [] s h = Kept-same client answering jf s s refl
  deploy_flows-Kept (flow ∷ flows) s (listed, h) =
      let step = deploy_flow client jf flow s in
      let whole = deploy_flows client jf (flow ∷ flows) s in
      let first = (deploy_flow-Iteration client answering jf distinct flow listed s).kept in
      elim (Control-cases step.value.0) [
        | inr (inl q) ↦
            let w : step.state ≡ whole.state = ground (arith, q) in
            subst (λ x. Kept client answering jf s x) w first
        | inr (inr (e, q)) ↦
            let w : step.state ≡ whole.state = ground (arith, q) in
            subst (λ x. Kept client answering jf s x) w first
        | inl q ↦
            let rest = deploy_flows client jf flows step.state in
            let w : rest.state ≡ whole.state = ground (arith, q) in
            subst (λ x. Kept client answering jf s x) w
              (Kept-then client answering jf s step.state rest.state first
                (deploy_flows-Kept flows step.state h))
      ]

  -- The loop ends early without an error only after a conflict of a flow with dependencies.
  deploy_flows-stops :
      (flow : Flow) (flows : List Flow) (s : S)
      → Memᴰ flow jf.spec.flows
      → (deploy_flow client jf flow s).value.0 ≡ stop
      → (flow.dependencies ≢ []) × Conflicts jf (deploy_flows client jf (flow ∷ flows) s).calls flow
  unfolding deploy_flows
  deploy_flows-stops flow flows s listed q =
      let step = deploy_flow client jf flow s in
      let whole = deploy_flows client jf (flow ∷ flows) s in
      let c : step.calls ++ [] ≡ whole.calls = ground (arith, q) in
      elim (deploy_flow-Iteration client answering jf distinct flow listed s).goes_on [
        | inl never ↦ absurd (never q)
        | inr (needed, conflict) ↦
            (needed, subst (λ cs. Conflicts jf cs flow) (sym (append-nil step.calls) ∙ c) conflict)
      ]

  -- The first flow of a loop that goes on.
  deploy_flows-head :
      (flow : Flow) (flows : List Flow) (s : S)
      → Memᴰ flow jf.spec.flows
      → All (λ flow. Memᴰ flow jf.spec.flows) flows
      → (deploy_flow client jf flow s).value.0 ≡ next
      → All (IsDone client jf s) flow.dependencies
      → IsPresent client jf (deploy_flows client jf (flow ∷ flows) s).state flow.name
        ⊎ Conflicts jf (deploy_flows client jf (flow ∷ flows) s).calls flow
  unfolding deploy_flows
  deploy_flows-head flow flows s listed h q ready =
      let step = deploy_flow client jf flow s in
      let whole = deploy_flows client jf (flow ∷ flows) s in
      let rest = deploy_flows client jf flows step.state in
      let own = IsConflict (get_job_name jf.metadata.name flow.name) in
      let w : rest.state ≡ whole.state = ground (arith, q) in
      let c : step.calls ++ rest.calls ≡ whole.calls = ground (arith, q, append-nil rest.calls) in
      elim ((deploy_flow-Iteration client answering jf distinct flow listed s).creates ready) [
        | inl p ↦ inl (
            subst (λ x. IsPresent client jf x flow.name) w
              ((deploy_flows-Kept flows step.state h).present flow.name p))
        | inr (inl (e, p)) ↦ absurd (ground (arith, p, q))
        | inr (inr conflict) ↦
            inr (subst (Any own) c (Any-append_left own step.calls rest.calls conflict))
      ]

  deploy_flows-creates :
      (flows : List Flow) (s : S)
      → All (λ flow. Memᴰ flow jf.spec.flows) flows
      → (deploy_flows client jf flows s).value.0 ≡ ok tt
      → HasNoConflict jf (deploy_flows client jf flows s).calls flows
      → (f : Flow) → Memᴰ f flows
      → All (IsDone client jf s) f.dependencies
      → IsPresent client jf (deploy_flows client jf flows s).state f.name
        ⊎ Conflicts jf (deploy_flows client jf flows s).calls f
  unfolding deploy_flows
  deploy_flows-creates [] s h v free f m ready = elim m [ ]
  deploy_flows-creates (flow ∷ flows) s (listed, h) v free f m ready =
      let step = deploy_flow client jf flow s in
      let whole = deploy_flows client jf (flow ∷ flows) s in
      let rest = deploy_flows client jf flows step.state in
      let kept = (deploy_flow-Iteration client answering jf distinct flow listed s).kept in
      elim (Control-cases step.value.0) [
        | inr (inl q) ↦
            let (needed, conflict) = deploy_flows-stops flow flows s listed q in
            absurd (free flow (Memᴰ.head refl) needed conflict)
        | inr (inr (e, q)) ↦ absurd (ground (arith, q, v))
        | inl q ↦
            let w : rest.state ≡ whole.state = ground (arith, q) in
            let c : step.calls ++ rest.calls ≡ whole.calls =
              ground (arith, q, append-nil rest.calls) in
            let ok_rest : rest.value.0 ≡ ok tt = ground (arith, q, v) in
            let later : (g : Flow) → Conflicts jf rest.calls g → Conflicts jf whole.calls g =
              λ g conflict.
                let own = IsConflict (get_job_name jf.metadata.name g.name) in
                subst (Any own) c (Any-append_right own step.calls rest.calls conflict) in
            elim m [
              | Memᴰ.head e ↦
                  subst
                    (λ (g : Flow).
                      All (IsDone client jf s) g.dependencies
                      → IsPresent client jf whole.state g.name ⊎ Conflicts jf whole.calls g)
                    (sym e) (deploy_flows-head flow flows s listed h q) ready
              | Memᴰ.tail m' ↦
                  elim (deploy_flows-creates flows step.state h ok_rest
                    (λ g mem needed conflict. free g (Memᴰ.tail mem) needed (later g conflict)) f m'
                    (All-stays client jf s step.state kept.finished f.dependencies ready)) [
                      | inl p ↦ inl (subst (λ x. IsPresent client jf x f.name) w p)
                      | inr conflict ↦ inr (later f conflict)
                    ]
            ]
      ]

  -- Let reading change nothing; let a created job be there, and a creation touch one key; and let
  -- the flows have different names. If a pass of `deployJobFlow` ends without an error, and
  -- AlreadyExists answers the creation of no job of a flow with dependencies (this answer would end
  -- the loop), then for every flow whose dependencies were all done before the pass, the job is
  -- there after it, or AlreadyExists has answered its creation.
  pub ready_jobs_are_there :
      (s : S) (flow : Flow)
      → Memᴰ flow jf.spec.flows
      → (deploy_job_flow client jf s).value.0 ≡ ok tt
      → HasNoConflict jf (deploy_job_flow client jf s).calls jf.spec.flows
      → All (IsDone client jf s) flow.dependencies
      → IsPresent client jf (deploy_job_flow client jf s).state flow.name
        ⊎ Conflicts jf (deploy_job_flow client jf s).calls flow
  unfolding deploy_job_flow
  ready_jobs_are_there s flow member v free ready =
      let calls = append-nil (deploy_flows client jf jf.spec.flows s).calls in
      let there =
        deploy_flows-creates jf.spec.flows s (All-self jf.spec.flows) v
          (subst (λ cs. HasNoConflict jf cs jf.spec.flows) calls free) flow member ready in
      elim there [
        | inl p ↦ inl p
        | inr conflict ↦ inr (subst (λ cs. Conflicts jf cs flow) (sym calls) conflict)
      ]

  -- A pass keeps what is there and what is done.
  pub deploy_job_flow-Kept :
      (s : S) → Kept client answering jf s (deploy_job_flow client jf s).state
  unfolding deploy_job_flow
  deploy_job_flow-Kept s = deploy_flows-Kept jf.spec.flows s (All-self jf.spec.flows)
