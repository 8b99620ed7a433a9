-- ===== src/Controller/Flow/Deploy/Order.antt =====
-- The order in which `deployJobFlow` creates jobs.
use mathlib.Core.List.{Memᴰ}
use job_deploy_operator.Base.{
  Text, nat_eq, ◌≡◌, refl, inl, inr, true, List, [], ◌∷◌, ◌++◌, All, All-self, Any, length,
  Any-append_left, Any-append_right, arith, ◌==◌, sym, ap, subst, ◌∙◌, Bool-cases, append-nil,
}
use job_deploy_operator.Api.Kube.{Error, is_not_found, Job, Result, ok, err}
use job_deploy_operator.Api.JobFlow.{Flow, JobFlow}
use job_deploy_operator.Controller.Client.{Client, Call, created_job, got_job}
use job_deploy_operator.Controller.Common.{get_job_name}
use job_deploy_operator.Controller.Trace.{
  Result-cases, Justifies, Justifies-append, Justifies-All, Justifies-split, IsSilent,
}
use job_deploy_operator.Controller.Flow.Prepare.{prepare_job}
use job_deploy_operator.Controller.Flow.Prepare.Shape.{prepare_job-IsSilent, prepare_job-named}
use job_deploy_operator.Controller.Flow.Deploy.{
  job_key, Control-cases, check_dependencies, create_independent, create_dependent,
  create_when_ready, start_job, deploy_flow, deploy_flows, deploy_job_flow,
}
use job_deploy_operator.Controller.Flow.Deploy.Checks.{
  SawSuccess, AllSeen-append_right, check_dependencies-AllSeen, check_dependencies-IsSilent,
}

-- The call found no job of the flow.
abbrev pub SawAbsent : JobFlow → Text → Call → Type 0
SawAbsent jf flow_name c =
    (e : Error) × (is_not_found e ≡ true) × (c ≡ got_job (job_key jf flow_name) (err e))

-- What the calls before a creation show: the job is that of a flow of the JobFlow, it was looked
-- for and was not there, and each dependency of the flow was read as succeeded.
pub record IsReady (jf : JobFlow) (before : List Call) (job : Job) : Type 0 where
  pub flow : Flow
  pub listed : Memᴰ flow jf.spec.flows
  pub named : job.metadata.name ≡ get_job_name jf.metadata.name flow.name
  pub placed : job.metadata.namespace ≡ jf.metadata.namespace
  pub absent : Any (SawAbsent jf flow.name) before
  pub succeeded : All (λ d. Any (SawSuccess jf d) before) flow.dependencies

abbrev InOrder : JobFlow → List Call → Call → Type 0
InOrder jf before (created_job job r) = IsReady jf before job
InOrder jf before _ = Unit

InOrder-silent : (jf : JobFlow) (before : List Call) (c : Call) → IsSilent c → InOrder jf before c
InOrder-silent jf before (created_job job r) h = absurd h
InOrder-silent jf before _ h = tt

All-nil_of_length : (P : Text → Type 0) (ds : List Text) → (length ds == 0) ≡ true → All P ds
All-nil_of_length P [] h = tt
All-nil_of_length P (d ∷ ds) h = absurd (ground arith)

module _ {S : Type 0} (client : Client S) (jf : JobFlow) where
  abbrev Ordered : List Call → List Call → Type 0
  Ordered = Justifies (InOrder jf)

  Ordered-silent : (before cs : List Call) → All IsSilent cs → Ordered before cs
  Ordered-silent = Justifies-All (InOrder jf) IsSilent (InOrder-silent jf)

  create_independent-Ordered :
      (before : List Call) (job : Job) (s : S)
      → IsReady jf before job
      → Ordered before (create_independent client jf job s).calls
  unfolding create_independent
  create_independent-Ordered before job s ready = elim (Result-cases (client.create_job job s).0) [
    | inr (e, q) ↦ rw q (ready, ground arith)
    | inl (u, q) ↦ rw (q) (ready, (tt, tt))
  ]

  create_dependent-Ordered :
      (before : List Call) (job : Job) (s : S)
      → IsReady jf before job
      → Ordered before (create_dependent client jf job s).calls
  unfolding create_dependent
  create_dependent-Ordered before job s ready = elim (Result-cases (client.create_job job s).0) [
    | inr (e, q) ↦ rw q (ready, ground arith)
    | inl (u, q) ↦ rw (q) (ready, (tt, tt))
  ]

  create_when_ready-Ordered :
      (before : List Call) (flow : Flow) (job : Job) (s : S)
      → Memᴰ flow jf.spec.flows
      → job.metadata.name ≡ get_job_name jf.metadata.name flow.name
      → job.metadata.namespace ≡ jf.metadata.namespace
      → Any (SawAbsent jf flow.name) before
      → Ordered before (create_when_ready client jf flow job s).calls
  unfolding create_when_ready
  create_when_ready-Ordered before flow job s listed named placed absent =
      let checked = check_dependencies client jf true flow.dependencies s in
      let silent =
        Ordered-silent before checked.calls
          (check_dependencies-IsSilent client jf true flow.dependencies s) in
      let ready : All (λ d. Any (SawSuccess jf d) before) flow.dependencies
          → IsReady jf before job =
        λ seen. record {
          flow = flow;
          listed = listed;
          named = named;
          placed = placed;
          absent = absent;
          succeeded = seen;
        } in
      elim (Bool-cases (length flow.dependencies == 0)) [
        | inl z ↦ rw z (
            create_independent-Ordered before job s
              (ready (All-nil_of_length _ flow.dependencies z)))
        | inr z ↦ elim (Result-cases checked.value) [
          | inr (e, q) ↦ rw (z, q) (rw append-nil silent)
          | inl (flag, q) ↦ elim (Bool-cases flag) [
            | inr f ↦ rw (z, q, f) (rw append-nil silent)
            | inl t ↦
                rw (z, q, t)
                  (Justifies-append (InOrder jf) before checked.calls _ silent (
                    create_dependent-Ordered (before ++ checked.calls) job checked.state (record {
                      flow = flow;
                      listed = listed;
                      named = named;
                      placed = placed;
                      absent = Any-append_left (SawAbsent jf flow.name) before checked.calls absent;
                      succeeded =
                          AllSeen-append_right client jf before checked.calls flow.dependencies
                            (check_dependencies-AllSeen client jf true flow.dependencies s
                              (q ∙ ap ok t)).1;
                    })))
          ]
        ]
      ]

  start_job-Ordered :
      (before : List Call) (flow : Flow) (job : Job) (s : S)
      → Memᴰ flow jf.spec.flows
      → job.metadata.name ≡ get_job_name jf.metadata.name flow.name
      → job.metadata.namespace ≡ jf.metadata.namespace
      → Ordered before (start_job client jf flow job s).calls
  unfolding start_job
  start_job-Ordered before flow job s listed named placed =
      elim (Result-cases (client.get_job (job_key jf flow.name) s).0) [
        | inl (j, q) ↦ rw q (tt, tt)
        | inr (e, q) ↦ elim (Bool-cases (is_not_found e)) [
          | inr f ↦ rw (q, f) (tt, tt)
          | inl t ↦
              rw (q, t)
                (
                  tt,
                  create_when_ready-Ordered (before ++ got_job (job_key jf flow.name) (err e) ∷ [])
                      flow job (client.get_job (job_key jf flow.name) s).1 listed named placed
                      (Any-append_right (SawAbsent jf flow.name) before
                        (got_job (job_key jf flow.name) (err e) ∷ []) (inl (e, t, refl))),
                )
        ]
      ]

  deploy_flow-Ordered :
      (before : List Call) (flow : Flow) (s : S)
      → Memᴰ flow jf.spec.flows
      → Ordered before (deploy_flow client jf flow s).calls
  unfolding deploy_flow
  deploy_flow-Ordered before flow s listed =
      let name = get_job_name jf.metadata.name flow.name in
      let prepared = prepare_job client jf flow name s in
      let silent =
        Ordered-silent before prepared.calls (prepare_job-IsSilent client jf flow name s) in
      elim (Result-cases prepared.value.0) [
        | inr (e, q) ↦ rw q (rw append-nil silent)
        | inl (job, q) ↦
            let (named, placed) = prepare_job-named client jf flow name s job q in
            rw q (
              Justifies-append (InOrder jf) before prepared.calls _ silent (
                rw append-nil (
                  start_job-Ordered (before ++ prepared.calls) flow job prepared.state listed named
                    placed)))
      ]

  deploy_flows-Ordered :
      (before : List Call) (flows : List Flow) (s : S)
      → All (λ flow. Memᴰ flow jf.spec.flows) flows
      → Ordered before (deploy_flows client jf flows s).calls
  unfolding deploy_flows
  deploy_flows-Ordered before [] s h = tt
  deploy_flows-Ordered before (flow ∷ flows) s (listed, h) =
      let step = deploy_flow client jf flow s in
      let first = deploy_flow-Ordered before flow s listed in
      elim (Control-cases step.value.0) [
        | inl q ↦ rw q (
            Justifies-append (InOrder jf) before step.calls _ first
              (rw append-nil (deploy_flows-Ordered (before ++ step.calls) flows step.state h)))
        | inr (inl q) ↦ rw q (rw append-nil first)
        | inr (inr (e, q)) ↦ rw q (rw append-nil first)
      ]

-- Whatever the client answers, a job is created only for a flow of the JobFlow, under the flow's
-- name and in the namespace of the JobFlow, and only after calls of the same pass have shown that
-- the job is not there and that the job of every dependency has succeeded once and not failed once.
pub creations_in_order :
    {S : Type 0} (client : Client S) (jf : JobFlow) (s : S) (before after : List Call) (job : Job)
    (r : Result (Unit {0}))
    → (deploy_job_flow client jf s).calls ≡ before ++ created_job job r ∷ after
    → IsReady jf before job
unfolding deploy_job_flow
creations_in_order client jf s before after job r e =
    Justifies-split (InOrder jf) [] before (created_job job r) after (
      subst (Justifies (InOrder jf) []) (sym (append-nil _) ∙ e)
        (deploy_flows-Ordered client jf [] jf.spec.flows s (All-self jf.spec.flows)))
