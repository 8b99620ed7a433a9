-- ===== src/Controller/Flow/Passes/States.antt =====
-- In which state the step of a flow leaves a cluster in which reading changes nothing.
use job_deploy_operator.Base.{
  Text, text_eq, nat_eq, ◌≡◌, refl, ap, subst, ◌∙◌, ◌⊎◌, inl, inr, Bool, true, false, Bool-cases,
  List, [], ◌∷◌, All, length, ◌==◌, if◌then◌else◌, arith,
}
use job_deploy_operator.Api.Kube.{NamespacedName, is_not_found, Job, ok}
use job_deploy_operator.Api.JobFlow.{Flow, JobFlow}
use job_deploy_operator.Controller.Client.{Client}
use job_deploy_operator.Controller.Trace.{ReadsOnly, Result-cases}
use job_deploy_operator.Controller.Flow.Prepare.{prepare_job}
use job_deploy_operator.Controller.Flow.Deploy.{
  job_key, check_dependencies, create_independent, create_dependent, create_when_ready, start_job,
}
use job_deploy_operator.Controller.Flow.Deploy.Ready.{
  IsDone, IsAbsent, check_dependencies_iff, All-nil,
}

pub prepare_job-state :
    {S : Type 0} (client : Client S)
    → ((key : NamespacedName) (s : S) → (client.get_job_template key s).1 ≡ s)
    → (jf : JobFlow) (flow : Flow) (job_name : Text) (s : S)
    → (prepare_job client jf flow job_name s).state ≡ s
unfolding prepare_job
prepare_job-state client reads jf flow job_name s =
    elim (Bool-cases (flow.job_template_ref == [])) [ inl t ↦ rw t refl | inr f ↦ rw f (reads _ s) ]

module _ {S : Type 0} (client : Client S) (reads : ReadsOnly client) (jf : JobFlow) where
  pub check_dependencies-state :
      (flag : Bool) (ds : List Text) (s : S) → (check_dependencies client jf flag ds s).state ≡ s
  unfolding check_dependencies
  check_dependencies-state flag [] s = refl
  check_dependencies-state flag (d ∷ ds) s =
      elim (Result-cases (client.get_job (job_key jf d) s).0) [
        | inr (e, q) ↦ elim (Bool-cases (is_not_found e)) [
          | inl t ↦ ground (arith, q, t, reads (job_key jf d) s)
          | inr f ↦ ground (arith, q, f, reads (job_key jf d) s)
        ]
        | inl (job, q) ↦ elim (Bool-cases (job.status.failed == 1)) [
          | inl t ↦ ground (arith, q, t, reads (job_key jf d) s)
          | inr f ↦
              let flag' = if job.status.succeeded == 1 then flag else false in
              rw (q, f)
                (check_dependencies-state flag' ds (client.get_job (job_key jf d) s).1
                  ∙ reads (job_key jf d) s)
        ]
      ]

  pub create_independent-state :
      (job : Job) (s : S) → (create_independent client jf job s).state ≡ (client.create_job job s).1
  unfolding create_independent
  create_independent-state job s = elim (Result-cases (client.create_job job s).0) [
    | inl (u, q) ↦ ground (arith, q)
    | inr (e, q) ↦ ground (arith, q)
  ]

  pub create_dependent-state :
      (job : Job) (s : S) → (create_dependent client jf job s).state ≡ (client.create_job job s).1
  unfolding create_dependent
  create_dependent-state job s = elim (Result-cases (client.create_job job s).0) [
    | inl (u, q) ↦ ground (arith, q)
    | inr (e, q) ↦ ground (arith, q)
  ]

  create_when_ready-state :
      (flow : Flow) (job : Job) (s : S)
      → ((create_when_ready client jf flow job s).state ≡ s)
        ⊎ (All (IsDone client jf s) flow.dependencies
            × ((create_when_ready client jf flow job s).state ≡ (client.create_job job s).1))
  unfolding create_when_ready
  create_when_ready-state flow job s =
      let checked = check_dependencies client jf true flow.dependencies s in
      let same = check_dependencies-state true flow.dependencies s in
      elim (Bool-cases (length flow.dependencies == 0)) [
        | inl z ↦ inr (
          All-nil client reads jf (IsDone client jf s) flow.dependencies z,
          rw z (create_independent-state job s),
        )
        | inr z ↦ elim (Result-cases checked.value) [
          | inr (e, q) ↦
              let e : (create_when_ready client jf flow job s).state ≡ checked.state =
                ground (arith, z, q) in
              inl (e ∙ same)
          | inl (flag, q) ↦ elim (Bool-cases flag) [
            | inr f ↦
                let e : (create_when_ready client jf flow job s).state ≡ checked.state =
                  ground (arith, z, q, f) in
                inl (e ∙ same)
            | inl t ↦
                let e : (create_when_ready client jf flow job s).state
                    ≡ (create_dependent client jf job checked.state).state =
                  ground (arith, z, q, t) in
                inr (
                  ((check_dependencies_iff client reads jf true flow.dependencies s).0
                      (q ∙ ap ok t)).1,
                  e
                      ∙ create_dependent-state job checked.state
                      ∙ ap (λ x. (client.create_job job x).1) same,
                )
          ]
        ]
      ]

  pub start_job-state :
      (flow : Flow) (job : Job) (s : S)
      → ((start_job client jf flow job s).state ≡ s)
        ⊎ (IsAbsent client jf s flow.name
            × All (IsDone client jf s) flow.dependencies
            × ((start_job client jf flow job s).state ≡ (client.create_job job s).1))
  unfolding start_job
  start_job-state flow job s =
      let key = job_key jf flow.name in
      let after = (client.get_job key s).1 in
      elim (Result-cases (client.get_job key s).0) [
        | inl (j, q) ↦ inl (ground (arith, q, reads key s))
        | inr (e, q) ↦ elim (Bool-cases (is_not_found e)) [
          | inr f ↦ inl (ground (arith, q, f, reads key s))
          | inl t ↦
              let c : (start_job client jf flow job s).state
                  ≡ (create_when_ready client jf flow job after).state =
                ground (arith, q, t) in
              elim (create_when_ready-state flow job after) [
                | inl h ↦ inl (c ∙ h ∙ reads key s)
                | inr (ready, h) ↦ inr (
                  (e, q, t),
                  subst (λ x. All (IsDone client jf x) flow.dependencies) (reads key s) ready,
                  c ∙ h ∙ ap (λ x. (client.create_job job x).1) (reads key s),
                )
              ]
        ]
      ]
