-- ===== src/Controller/Flow/Passes/Once.antt =====
-- How often the job of a flow is created, over many passes of `deployJobFlow`.
use mathlib.Core.List.{Memᴰ}
use job_deploy_operator.Base.{
  ◌≤◌, Text, text_eq, text_beq_iff, nat_eq, ◌≡◌, refl, sym, subst, ◌⊎◌, inl, inr, true, false,
  Bool-cases, List, [], ◌∷◌, ◌++◌, All, All-self, count, ◌==◌, beq_of_ne, eq_of_beq, eq_refl, arith,
  append-nil, append_assoc,
}
use job_deploy_operator.Api.Kube.{ok}
use job_deploy_operator.Api.JobFlow.{Flow, JobFlow}
use job_deploy_operator.Controller.Client.{Client, Call}
use job_deploy_operator.Controller.Common.{get_job_name}
use job_deploy_operator.Controller.Common.Names.{get_job_name-injective}
use job_deploy_operator.Controller.Flow.Deploy.{
  Control-cases, job_key, deploy_flow, deploy_flows, deploy_job_flow,
}
use job_deploy_operator.Controller.Flow.Passes.{IsPresent, AreDistinct}
use job_deploy_operator.Controller.Flow.Passes.Iterations.{deploy_flow-Iteration}
use job_deploy_operator.Controller.Flow.Passes.Answers.{IsAnswering}
use job_deploy_operator.Controller.Flow.Passes.Calls.{creations, creations-append}
use job_deploy_operator.Controller.Flow.Passes.Creations.{deploy_flow-creations}

module _ {S : Type 0} (client : Client S) (answering : IsAnswering client) (jf : JobFlow) where
  -- What was created so far of the job of this flow: nothing, or it once, and then it is there.
  abbrev Books : Text → List Call → S → Type 0
  Books flow_name cs s =
      let made = creations (get_job_name jf.metadata.name flow_name) cs in
      (made ≡ 0) ⊎ ((made ≡ 1) × IsPresent client jf s flow_name)

  module _ (distinct : AreDistinct client jf jf.spec.flows) where
    deploy_flow-Books :
        (flow : Flow) (listed : Memᴰ flow jf.spec.flows) (flow_name : Text) (cs : List Call) (s : S)
        → Books flow_name cs s
        → let r = deploy_flow client jf flow s in Books flow_name (cs ++ r.calls) r.state
    deploy_flow-Books flow listed flow_name cs s books =
        let r = deploy_flow client jf flow s in
        let job_name = get_job_name jf.metadata.name flow_name in
        let kept = (deploy_flow-Iteration client answering jf distinct flow listed s).kept in
        let added = creations-append job_name cs r.calls in
        let unchanged : creations job_name r.calls ≡ 0 → Books flow_name (cs ++ r.calls) r.state =
          λ e. elim books [
            | inl n ↦ inl (omega (arith, added, e, n))
            | inr (n, there) ↦ inr (omega (arith, added, e, n), kept.present flow_name there)
          ] in
        elim (deploy_flow-creations client answering jf flow s) [
          | inl none_made ↦ unchanged (none_made job_name)
          | inr (absent, there, one_made) ↦ elim (Bool-cases (flow.name == flow_name)) [
            | inl t ↦
                let same = eq_of_beq {A = Text} flow.name flow_name t in
                let made : creations job_name r.calls ≡ 1 =
                  let e : (get_job_name jf.metadata.name flow.name == job_name) ≡ true =
                    subst (λ n. (get_job_name jf.metadata.name n == job_name) ≡ true) (sym same)
                      (eq_refl {A = Text} job_name) in
                  ground (arith, e, one_made job_name) in
                elim books [
                  | inl n ↦ inr (
                    omega (arith, added, made, n),
                    subst (IsPresent client jf r.state) same there,
                  )
                  | inr (n, (j, p)) ↦
                      let (e, q, missing) = absent in
                      let p' =
                        subst (λ n. (client.get_job (job_key jf n) s).0 ≡ ok j) (sym same) p in
                      absurd (ground (arith, q, p'))
                ]
            | inr f ↦
                let other : (get_job_name jf.metadata.name flow.name == job_name) ≡ false =
                  beq_of_ne {A = Text} (get_job_name jf.metadata.name flow.name) job_name (λ e.
                    ground (
                      arith,
                      f,
                      text_beq_iff flow.name flow_name,
                      get_job_name-injective jf.metadata.name flow.name flow_name e,
                    )) in
                unchanged (ground (arith, other, one_made job_name))
          ]
        ]

    deploy_flows-Books :
        (flows : List Flow) (flow_name : Text) (cs : List Call) (s : S)
        → All (λ flow. Memᴰ flow jf.spec.flows) flows
        → Books flow_name cs s
        → let r = deploy_flows client jf flows s in Books flow_name (cs ++ r.calls) r.state
    unfolding deploy_flows
    deploy_flows-Books [] flow_name cs s h books =
        subst (λ c. Books flow_name c s) (sym (append-nil cs)) books
    deploy_flows-Books (flow ∷ flows) flow_name cs s (listed, h) books =
        let step = deploy_flow client jf flow s in
        let whole = deploy_flows client jf (flow ∷ flows) s in
        let rest = deploy_flows client jf flows step.state in
        let first = deploy_flow-Books flow listed flow_name cs s books in
        let ends : whole.calls ≡ step.calls
            → whole.state ≡ step.state
            → Books flow_name (cs ++ whole.calls) whole.state =
          λ c e.
            subst (λ x. Books flow_name (cs ++ x) whole.state) (sym c)
              (subst (Books flow_name (cs ++ step.calls)) (sym e) first) in
        elim (Control-cases step.value.0) [
          | inl q ↦
              let calls : whole.calls ≡ step.calls ++ rest.calls =
                ground (arith, q, append-nil rest.calls) in
              let state : whole.state ≡ rest.state = ground (arith, q) in
              let second =
                deploy_flows-Books flows flow_name (cs ++ step.calls) step.state h first in
              subst (λ x. Books flow_name (cs ++ x) whole.state) (sym calls)
                (subst (λ x. Books flow_name x whole.state) (append_assoc cs step.calls rest.calls)
                  (subst (Books flow_name (cs ++ step.calls ++ rest.calls)) (sym state) second))
          | inr (inl q) ↦ ends (ground (arith, q, append-nil step.calls)) (ground (arith, q))
          | inr (inr (e, q)) ↦ ends (ground (arith, q, append-nil step.calls)) (ground (arith, q))
        ]

  -- Passes of `deployJobFlow`, with all their calls. Between them others may do anything but delete
  -- a job of the JobFlow.
  pub data History : S → List Call → S → Type 0 where
    begin : (s : S) → History s [] s
    pass :
        (s s' : S) (cs : List Call)
        → History s cs s'
        → History s
            (cs ++ (deploy_job_flow client jf s').calls)
            (deploy_job_flow client jf s').state
    others :
        (s s' s'' : S) (cs : List Call)
        → History s cs s'
        → ((flow_name : Text)
            → IsPresent client jf s' flow_name
            → IsPresent client jf s'' flow_name)
        → History s cs s''

  History-Books :
      (distinct : AreDistinct client jf jf.spec.flows) (flow_name : Text) (s s' : S)
      (cs : List Call)
      → History s cs s'
      → Books flow_name cs s'
  unfolding deploy_job_flow
  History-Books distinct flow_name _ _ _ (begin s) = inl (unfold creations count in refl)
  History-Books distinct flow_name _ _ _ (pass s s' cs h) =
      subst (λ x. Books flow_name (cs ++ x) (deploy_job_flow client jf s').state)
        (sym (append-nil (deploy_flows client jf jf.spec.flows s').calls))
        (deploy_flows-Books distinct jf.spec.flows flow_name cs s' (All-self jf.spec.flows)
          (History-Books distinct flow_name s s' cs h))
  History-Books distinct flow_name _ _ _ (others s s' s'' cs h keeps) =
      elim (History-Books distinct flow_name s s' cs h) [
        | inl n ↦ inl n
        | inr (n, there) ↦ inr (n, keeps flow_name there)
      ]

  -- Let reading change nothing, let a created job be there, let a creation touch one key, and let
  -- the flows have different names. Then over any number of passes of `deployJobFlow`, with or
  -- without errors, between which nobody deletes a job of the JobFlow, the job of a flow is created
  -- at most once.
  pub created_at_most_once :
      (distinct : AreDistinct client jf jf.spec.flows) (flow_name : Text) (s s' : S)
      (cs : List Call)
      → History s cs s'
      → creations (get_job_name jf.metadata.name flow_name) cs ≤ 1
  created_at_most_once distinct flow_name s s' cs h =
      elim (History-Books distinct flow_name s s' cs h) [
        | inl n ↦ omega (arith, n)
        | inr (n, there) ↦ omega (arith, n)
      ]
