-- ===== src/Controller/Flow/Passes/Answers.antt =====
-- What the step of one flow answers, over a store that answers for its objects.
use mathlib.Core.List.{Memᴰ}
use job_deploy_operator.Base.{
  Text, Any, Any-append_right, List, [], ◌∷◌, ◌++◌, text_eq, nat_eq, ◌≡◌, refl, sym, ap, subst, ◌∙◌,
  ◌≢◌, ◌⊎◌, inl, inr, true, Bool-cases, All, length, ◌==◌, arith,
}
use job_deploy_operator.Api.Kube.{Error, is_not_found, is_already_exists, Job, ok, err}
use job_deploy_operator.Api.JobFlow.{Flow, JobFlow}
use job_deploy_operator.Controller.Client.{Client, Run, Call, created_job, got_job}
use job_deploy_operator.Controller.Common.{get_job_name}
use job_deploy_operator.Controller.Trace.{Result-cases}
use job_deploy_operator.Controller.Flow.Deploy.{
  Control, stop, fail, job_key, check_dependencies, create_independent, create_dependent,
  create_when_ready, start_job,
}
use job_deploy_operator.Controller.Flow.Deploy.Ready.{IsDone, check_dependencies_iff}
use job_deploy_operator.Controller.Flow.Passes.{key_of, IsStore, IsPresent}
use job_deploy_operator.Controller.Flow.Passes.States.{
  create_independent-state, create_dependent-state,
}

-- A store that answers for its objects: a job that is created is there.
pub record IsAnswering {S : Type 0} (client : Client S) : Type 0 where
  pub store : IsStore client
  pub creates :
      (job : Job) (s : S)
      → (client.create_job job s).0 ≡ ok tt
      → (j : Job) × ((client.get_job (key_of job) (client.create_job job s).1).0 ≡ ok j)

-- The creation of a job with this name was answered by AlreadyExists.
abbrev pub IsConflict : Text → Call → Type 0
IsConflict name c =
    (job : Job) × (e : Error) × (c ≡ created_job job (err e))
    × (job.metadata.name ≡ name)
    × (is_already_exists e ≡ true)

-- The creation of the job of this flow was answered by AlreadyExists.
abbrev pub Conflicts : JobFlow → List Call → Flow → Type 0
Conflicts jf calls flow = Any (IsConflict (get_job_name jf.metadata.name flow.name)) calls

-- Of the flows with dependencies, none has a conflict.
abbrev pub HasNoConflict : JobFlow → List Call → List Flow → Type 0
HasNoConflict jf calls flows =
    (g : Flow) → Memᴰ g flows → g.dependencies ≢ [] → ¬ Conflicts jf calls g

module _ {S : Type 0} (client : Client S) (answering : IsAnswering client) (jf : JobFlow) where
  abbrev pub HasAt : S → Job → Type 0
  HasAt s job = (j : Job) × ((client.get_job (key_of job) s).0 ≡ ok j)

  abbrev pub HasFailed : Run S Control → Type 0
  HasFailed r = (e : Error) × (r.value ≡ fail e)

  abbrev pub HasConflict : Job → Run S Control → Type 0
  HasConflict job r = Any (IsConflict job.metadata.name) r.calls

  -- After a creation the job is there, or there is an error or a conflict.
  abbrev IsAnswered : Job → Run S Control → Type 0
  IsAnswered job r = HasAt r.state job ⊎ (HasFailed r ⊎ HasConflict job r)

  create_independent-IsAnswered :
      (job : Job) (s : S)
      → let r = create_independent client jf job s in (r.value ≢ stop) × IsAnswered job r
  unfolding create_independent
  create_independent-IsAnswered job s = elim (Result-cases (client.create_job job s).0) [
    | inl (u, q) ↦ (
      λ h. ground (arith, q, h),
      inl (
          subst (λ x. HasAt x job)
            (sym (create_independent-state client answering.store.reads jf job s))
            (answering.creates job s q)),
    )
    | inr (e, q) ↦ elim (Bool-cases (is_already_exists e)) [
      | inl t ↦ (λ h. ground (arith, q, t, h), inr (inr (rw q (inl (job, e, refl, refl, t)))))
      | inr f ↦ (λ h. ground (arith, q, f, h), inr (inl (e, ground (arith, q, f))))
    ]
  ]

  create_dependent-IsAnswered :
      (job : Job) (s : S)
      → let r = create_dependent client jf job s in
        ((r.value ≢ stop) ⊎ HasConflict job r) × IsAnswered job r
  unfolding create_dependent
  create_dependent-IsAnswered job s = elim (Result-cases (client.create_job job s).0) [
    | inl (u, q) ↦ (
      inl (λ h. ground (arith, q, h)),
      inl (
          subst (λ x. HasAt x job)
            (sym (create_dependent-state client answering.store.reads jf job s))
            (answering.creates job s q)),
    )
    | inr (e, q) ↦ elim (Bool-cases (is_already_exists e)) [
      | inl t ↦
          let conflict : HasConflict job (create_dependent client jf job s) =
            rw q (inl (job, e, refl, refl, t)) in
          (inr conflict, inr (inr conflict))
      | inr f ↦ (inl (λ h. ground (arith, q, f, h)), inr (inl (e, ground (arith, q, f))))
    ]
  ]

  -- The loop goes on, but for a conflict of a flow with dependencies.
  abbrev pub GoesOn : Flow → Job → Run S Control → Type 0
  GoesOn flow job r = (r.value ≢ stop) ⊎ ((flow.dependencies ≢ []) × HasConflict job r)

  -- The same for the step, if the dependencies are done.
  create_when_ready-IsAnswered :
      (flow : Flow) (job : Job) (s : S)
      → let r = create_when_ready client jf flow job s in
        GoesOn flow job r × (All (IsDone client jf s) flow.dependencies → IsAnswered job r)
  unfolding create_when_ready
  create_when_ready-IsAnswered flow job s =
      let reads = answering.store.reads in
      let r = create_when_ready client jf flow job s in
      let checked = check_dependencies client jf true flow.dependencies s in
      elim (Bool-cases (length flow.dependencies == 0)) [
        | inl z ↦
            let e : create_independent client jf job s ≡ r = ground (arith, z) in
            let (never, answer) =
              subst (λ x. (x.value ≢ stop) × IsAnswered job x) e
                (create_independent-IsAnswered job s) in
            (inl never, λ _. answer)
        | inr z ↦ elim (Result-cases checked.value) [
          | inr (e, q) ↦
              (inl (λ h. ground (arith, z, q, h)), λ ready. inr (inl (e, ground (arith, z, q))))
          | inl (flag, q) ↦ elim (Bool-cases flag) [
            | inr f ↦ (
              inl (λ h. ground (arith, z, q, f, h)),
              λ ready. absurd (
                  ground (
                    arith,
                    q,
                    f,
                    (check_dependencies_iff client reads jf true flow.dependencies s).1
                        (refl, ready),
                  )),
            )
            | inl t ↦
                let made = create_dependent client jf job checked.state in
                let (goes, answer) = create_dependent-IsAnswered job checked.state in
                let v : made.value ≡ r.value = ground (arith, z, q, t) in
                let w : made.state ≡ r.state = ground (arith, z, q, t) in
                let c : checked.calls ++ made.calls ≡ r.calls = ground (arith, z, q, t) in
                let moved : HasConflict job made → HasConflict job r = λ h.
                  subst (Any (IsConflict job.metadata.name)) c
                    (Any-append_right (IsConflict job.metadata.name) checked.calls made.calls h) in
                let some_needed : flow.dependencies ≢ [] = λ e. ground (arith, z, e) in
                (
                  elim goes [
                    | inl never ↦ inl (λ h. never (v ∙ h))
                    | inr h ↦ inr (some_needed, moved h)
                  ],
                  λ ready. elim answer [
                    | inl h ↦ inl (subst (λ x. HasAt x job) w h)
                    | inr (inl (e, h)) ↦ inr (inl (e, sym v ∙ h))
                    | inr (inr h) ↦ inr (inr (moved h))
                  ],
                )
          ]
        ]
      ]

  pub start_job-IsAnswered :
      (flow : Flow) (job : Job) (s : S)
      → key_of job ≡ job_key jf flow.name
      → let r = start_job client jf flow job s in
        GoesOn flow job r
        × (All (IsDone client jf s) flow.dependencies
            → IsPresent client jf r.state flow.name ⊎ (HasFailed r ⊎ HasConflict job r))
  unfolding start_job
  start_job-IsAnswered flow job s key_eq =
      let r = start_job client jf flow job s in
      let reads = answering.store.reads in
      let own = job_key jf flow.name in
      let after = (client.get_job own s).1 in
      elim (Result-cases (client.get_job own s).0) [
        | inl (j, q) ↦
            let w : s ≡ r.state = ground (arith, q, reads own s) in
            (
              inl (λ h. ground (arith, q, h)),
              λ ready. inl (subst (λ x. IsPresent client jf x flow.name) w (j, q)),
            )
        | inr (e, q) ↦ elim (Bool-cases (is_not_found e)) [
          | inr f ↦
              (inl (λ h. ground (arith, q, f, h)), λ ready. inr (inl (e, ground (arith, q, f))))
          | inl t ↦
              let made = create_when_ready client jf flow job s in
              let moved = ap (λ x. create_when_ready client jf flow job x) (reads own s) in
              let v : (create_when_ready client jf flow job after).value ≡ r.value =
                ground (arith, q, t) in
              let w : (create_when_ready client jf flow job after).state ≡ r.state =
                ground (arith, q, t) in
              let c : got_job own (err e) ∷ (create_when_ready client jf flow job after).calls
                  ≡ r.calls =
                ground (arith, q, t) in
              let (goes, answer) = create_when_ready-IsAnswered flow job s in
              let back : made.value ≡ r.value = sym (ap (λ x. x.value) moved) ∙ v in
              let there : made.state ≡ r.state = sym (ap (λ x. x.state) moved) ∙ w in
              let calls : got_job own (err e) ∷ made.calls ≡ r.calls =
                ap (λ x. got_job own (err e) ∷ x.calls) (sym moved) ∙ c in
              let conflict : HasConflict job made → HasConflict job r =
                λ h. subst (Any (IsConflict job.metadata.name)) calls (inr h) in
              (
                elim goes [
                  | inl never ↦ inl (λ h. never (back ∙ h))
                  | inr (needed, h) ↦ inr (needed, conflict h)
                ],
                λ ready. elim (answer ready) [
                  | inl (j, p) ↦ inl (
                      subst (λ x. IsPresent client jf x flow.name) there
                        (j, subst (λ k. (client.get_job k made.state).0 ≡ ok j) key_eq p))
                  | inr (inl (x, h)) ↦ inr (inl (x, sym back ∙ h))
                  | inr (inr h) ↦ inr (inr (conflict h))
                ],
              )
        ]
      ]
