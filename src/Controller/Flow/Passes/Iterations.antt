-- ===== src/Controller/Flow/Passes/Iterations.antt =====
-- What one iteration of the loop of `deployJobFlow` keeps and creates.
use mathlib.Core.Path.{ap₂}
use mathlib.Core.List.{Memᴰ}
use job_deploy_operator.Base.{
  Any, Any-append_right, append-nil, ◌++◌, Text, text_eq, nat_eq, ◌≡◌, sym, ap, subst, ◌∙◌, ◌≢◌,
  ◌⊎◌, inl, inr, [], All, arith,
}
use job_deploy_operator.Api.Kube.{Error, Job, ok}
use job_deploy_operator.Api.JobFlow.{Flow, JobFlow}
use job_deploy_operator.Controller.Client.{Client, Run}
use job_deploy_operator.Controller.Common.{get_job_name}
use job_deploy_operator.Controller.Trace.{Result-cases}
use job_deploy_operator.Controller.Flow.Prepare.{prepare_job}
use job_deploy_operator.Controller.Flow.Prepare.Shape.{prepare_job-named}
use job_deploy_operator.Controller.Flow.Deploy.{
  Control, stop, fail, job_key, start_job, deploy_flow,
}
use job_deploy_operator.Controller.Flow.Deploy.Ready.{IsDone}
use job_deploy_operator.Controller.Flow.Passes.{
  key, IsPresent, other_name, IsDone-stays, AreDistinct,
}
use job_deploy_operator.Controller.Flow.Passes.States.{prepare_job-state, start_job-state}
use job_deploy_operator.Controller.Flow.Passes.Answers.{
  IsAnswering, IsConflict, Conflicts, start_job-IsAnswered,
}

module _ {S : Type 0} (client : Client S) (answering : IsAnswering client) (jf : JobFlow) where
  -- What is there stays there, and what is done stays done.
  pub record Kept (before after : S) : Type 0 where
    pub present : (name : Text) → IsPresent client jf before name → IsPresent client jf after name
    pub finished : (name : Text) → IsDone client jf before name → IsDone client jf after name

  pub Kept-same : (s s' : S) → s' ≡ s → Kept s s'
  Kept-same s s' e =
      subst (λ x. Kept s x) (sym e) (record { present = λ name h. h; finished = λ name h. h })

  pub Kept-then : (a b c : S) → Kept a b → Kept b c → Kept a c
  Kept-then a b c h k = record {
    present = λ name p. k.present name (h.present name p);
    finished = λ name p. k.finished name (h.finished name p);
  }

  module _ (distinct : AreDistinct client jf jf.spec.flows) where
    start_job-Kept :
        (flow : Flow) (listed : Memᴰ flow jf.spec.flows) (job : Job) (s : S)
        → job.metadata.name ≡ get_job_name jf.metadata.name flow.name
        → job.metadata.namespace ≡ jf.metadata.namespace
        → Kept s (start_job client jf flow job s).state
    start_job-Kept flow listed job s named placed =
        elim (start_job-state client answering.store.reads jf flow job s) [
          | inl e ↦ Kept-same s (start_job client jf flow job s).state e
          | inr ((e, q, missing), ready, w) ↦
              subst (λ x. Kept s x) (sym w)
                (record {
                  present = λ name (j, p).
                      let other : name ≢ flow.name = λ same.
                        let p' = subst (λ n. (client.get_job (job_key jf n) s).0 ≡ ok j) same p in
                        ground (arith, p', q) in
                      let untouched = answering.store.creates_one job (job_key jf name) s (
                        other_name client jf answering.store distinct flow listed job s named placed
                          name other) in
                      (j, untouched ∙ p);
                  finished =
                      IsDone-stays client jf answering.store distinct flow listed job s named placed
                        (e, q, missing);
                })
        ]

    -- One iteration: it keeps what is there; it leaves the loop without an error only after a
    -- conflict of a flow with dependencies; and if the dependencies are done then the job is there
    -- after it, or there was an error or a conflict.
    pub record Iteration (flow : Flow) (s : S) (r : Run S (Control × Flow)) : Type 0 where
      pub kept : Kept s r.state
      pub goes_on : (r.value.0 ≢ stop) ⊎ ((flow.dependencies ≢ []) × Conflicts jf r.calls flow)
      pub creates :
          All (IsDone client jf s) flow.dependencies
          → IsPresent client jf r.state flow.name
            ⊎ (((e : Error) × (r.value.0 ≡ fail e)) ⊎ Conflicts jf r.calls flow)

    pub deploy_flow-Iteration :
        (flow : Flow) (listed : Memᴰ flow jf.spec.flows) (s : S)
        → Iteration flow s (deploy_flow client jf flow s)
    unfolding deploy_flow
    deploy_flow-Iteration flow listed s =
        let name = get_job_name jf.metadata.name flow.name in
        let prepared = prepare_job client jf flow name s in
        let r = deploy_flow client jf flow s in
        let same = prepare_job-state client answering.store.reads_templates jf flow name s in
        elim (Result-cases prepared.value.0) [
          | inr (e, q) ↦
              let v : r.value.0 ≡ fail e = ground (arith, q) in
              let w : r.state ≡ prepared.state = ground (arith, q) in
              record {
                kept = Kept-same s r.state (w ∙ same);
                goes_on = inl (λ h. ground (arith, v, h));
                creates = λ ready. inr (inl (e, v));
              }
          | inl (job, q) ↦
              let (named, placed) = prepare_job-named client jf flow name s job q in
              let started = start_job client jf flow job s in
              let moved = ap (λ x. start_job client jf flow job x) same in
              let later = start_job client jf flow job prepared.state in
              let v : r.value.0 ≡ later.value = ground (arith, q) in
              let w : r.state ≡ later.state = ground (arith, q) in
              let c : prepared.calls ++ later.calls ≡ r.calls =
                ground (arith, q, append-nil later.calls) in
              let v' : started.value ≡ r.value.0 = sym (v ∙ ap (λ x. x.value) moved) in
              let w' : started.state ≡ r.state = sym (w ∙ ap (λ x. x.state) moved) in
              let c' : prepared.calls ++ started.calls ≡ r.calls =
                ap (λ x. prepared.calls ++ x.calls) (sym moved) ∙ c in
              let conflict : Any (IsConflict job.metadata.name) started.calls
                  → Conflicts jf r.calls flow =
                λ h.
                  subst (λ n. Any (IsConflict n) r.calls) named
                    (subst (Any (IsConflict job.metadata.name)) c' (
                      Any-append_right (IsConflict job.metadata.name) prepared.calls started.calls
                        h)) in
              let (goes, answer) =
                start_job-IsAnswered client answering jf flow job s (ap₂ key placed named) in
              record {
                kept = subst (λ x. Kept s x) w' (start_job-Kept flow listed job s named placed);
                goes_on = elim goes [
                  | inl never ↦ inl (λ h. never (v' ∙ h))
                  | inr (needed, h) ↦ inr (needed, conflict h)
                ];
                creates = λ ready. elim (answer ready) [
                  | inl h ↦ inl (subst (λ x. IsPresent client jf x flow.name) w' h)
                  | inr (inl (e, h)) ↦ inr (inl (e, sym v' ∙ h))
                  | inr (inr h) ↦ inr (inr (conflict h))
                ];
              }
        ]
