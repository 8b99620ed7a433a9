-- ===== src/Controller/Flow/Passes/Creations.antt =====
-- What the step of one flow creates.
use mathlib.Core.Path.{ap₂}
use job_deploy_operator.Base.{
  Text, text_eq, nat_eq, ◌≡◌, sym, ap, subst, ◌∙◌, ◌⊎◌, inl, inr, true, Bool-cases, List, [], ◌∷◌,
  ◌++◌, All, length, count, ◌==◌, if◌then◌else◌, arith, append-nil,
}
use job_deploy_operator.Api.Kube.{is_not_found, is_already_exists, Job, ok}
use job_deploy_operator.Api.JobFlow.{Flow, JobFlow}
use job_deploy_operator.Controller.Client.{Client, Run, Call, got_job}
use job_deploy_operator.Controller.Common.{get_job_name}
use job_deploy_operator.Controller.Trace.{IsSilent, Result-cases}
use job_deploy_operator.Controller.Flow.Prepare.{prepare_job}
use job_deploy_operator.Controller.Flow.Deploy.{
  job_key, check_dependencies, create_independent, create_dependent, create_when_ready, start_job,
  deploy_flow,
}
use job_deploy_operator.Controller.Flow.Passes.{key, key_of, IsPresent}
use job_deploy_operator.Controller.Flow.Passes.Calls.{creations, creations-silent, creations-after}
use job_deploy_operator.Controller.Flow.Passes.States.{prepare_job-state}
use job_deploy_operator.Controller.Flow.Passes.Answers.{IsAnswering}
use job_deploy_operator.Controller.Flow.Prepare.Shape.{prepare_job-IsSilent, prepare_job-named}
use job_deploy_operator.Controller.Flow.Deploy.Ready.{IsAbsent}
use job_deploy_operator.Controller.Flow.Deploy.Checks.{check_dependencies-IsSilent}

module _ {S : Type 0} (client : Client S) (answering : IsAnswering client) (jf : JobFlow) where
  abbrev Has : S → Job → Type 0
  Has s job = (j : Job) × ((client.get_job (key_of job) s).0 ≡ ok j)

  abbrev pub CreatesNone : {A : Type 0} → Run S A → Type 0
  CreatesNone r = (name : Text) → creations name r.calls ≡ 0

  -- The job is created, once and alone, and is there after it.
  abbrev CreatesOne : {A : Type 0} → Job → Run S A → Type 0
  CreatesOne job r =
      Has r.state job
      × ((name : Text) → creations name r.calls ≡ (if job.metadata.name == name then 1 else 0))

  create_independent-creations :
      (job : Job) (s : S)
      → let r = create_independent client jf job s in CreatesNone r ⊎ CreatesOne job r
  unfolding create_independent creations count
  create_independent-creations job s = elim (Result-cases (client.create_job job s).0) [
    | inl (u, q) ↦ inr (rw q (answering.creates job s q), λ name. ground (arith, q))
    | inr (e, q) ↦ elim (Bool-cases (is_already_exists e)) [
      | inl t ↦ inl (λ name. ground (arith, q, t))
      | inr f ↦ inl (λ name. ground (arith, q, f))
    ]
  ]

  create_dependent-creations :
      (job : Job) (s : S)
      → let r = create_dependent client jf job s in CreatesNone r ⊎ CreatesOne job r
  unfolding create_dependent creations count
  create_dependent-creations job s = elim (Result-cases (client.create_job job s).0) [
    | inl (u, q) ↦ inr (rw q (answering.creates job s q), λ name. ground (arith, q))
    | inr (e, q) ↦ elim (Bool-cases (is_already_exists e)) [
      | inl t ↦ inl (λ name. ground (arith, q, t))
      | inr f ↦ inl (λ name. ground (arith, q, f))
    ]
  ]

  abbrev CreatesAtMostOne : {A : Type 0} → Job → Run S A → Type 0
  CreatesAtMostOne job r = CreatesNone r ⊎ CreatesOne job r

  -- The same after calls that create nothing.
  CreatesAtMostOne-after :
      {A B : Type 0} (job : Job) (pre : List Call) (r : Run S A) (r' : Run S B)
      → All IsSilent pre
      → r'.calls ≡ pre ++ r.calls
      → r'.state ≡ r.state
      → CreatesAtMostOne job r
      → CreatesAtMostOne job r'
  CreatesAtMostOne-after job pre r r' silent calls state h =
      let same = λ (name : Text). creations-after name pre r.calls r'.calls silent calls in
      elim h [
        | inl none_made ↦ inl (λ name. same name ∙ none_made name)
        | inr (has, one_made) ↦
            inr (subst (λ x. Has x job) (sym state) has, λ name. same name ∙ one_made name)
      ]

  create_when_ready-creations :
      (flow : Flow) (job : Job) (s : S)
      → CreatesAtMostOne job (create_when_ready client jf flow job s)
  unfolding create_when_ready
  create_when_ready-creations flow job s =
      let r = create_when_ready client jf flow job s in
      let checked = check_dependencies client jf true flow.dependencies s in
      let silent = check_dependencies-IsSilent client jf true flow.dependencies s in
      let ends : r.calls ≡ checked.calls ++ [] → CreatesAtMostOne job r = λ e. inl (λ name.
        ap (creations name) (e ∙ append-nil checked.calls)
        ∙ creations-silent name checked.calls silent) in
      elim (Bool-cases (length flow.dependencies == 0)) [
        | inl z ↦
            let e : create_independent client jf job s ≡ r = ground (arith, z) in
            subst (CreatesAtMostOne job) e (create_independent-creations job s)
        | inr z ↦ elim (Result-cases checked.value) [
          | inr (e, q) ↦ ends (ground (arith, z, q))
          | inl (flag, q) ↦ elim (Bool-cases flag) [
            | inr f ↦ ends (ground (arith, z, q, f))
            | inl t ↦
                let made = create_dependent client jf job checked.state in
                CreatesAtMostOne-after job checked.calls made r silent (ground (arith, z, q, t))
                  (ground (arith, z, q, t)) (create_dependent-creations job checked.state)
          ]
        ]
      ]

  -- A job is created only if the job of the flow was absent.
  start_job-creations :
      (flow : Flow) (job : Job) (s : S)
      → let r = start_job client jf flow job s in
        CreatesNone r ⊎ (IsAbsent client jf s flow.name × CreatesOne job r)
  unfolding start_job
  start_job-creations flow job s =
      let r = start_job client jf flow job s in
      let own = job_key jf flow.name in
      let answer = (client.get_job own s).0 in
      let after = (client.get_job own s).1 in
      let read : All IsSilent (got_job own answer ∷ []) = (tt, tt) in
      let ends : r.calls ≡ got_job own answer ∷ [] → CreatesNone r =
        λ e name. ap (creations name) e ∙ creations-silent name (got_job own answer ∷ []) read in
      elim (Result-cases answer) [
        | inl (j, q) ↦ inl (ends (ground (arith, q)))
        | inr (e, q) ↦ elim (Bool-cases (is_not_found e)) [
          | inr f ↦ inl (ends (ground (arith, q, f)))
          | inl t ↦
              let made = create_when_ready client jf flow job after in
              elim (CreatesAtMostOne-after job (got_job own answer ∷ []) made r read
                (ground (arith, q, t)) (ground (arith, q, t))
                (create_when_ready-creations flow job after)) [
                  | inl h ↦ inl h
                  | inr h ↦ inr ((e, q, t), h)
                ]
        ]
      ]

  pub deploy_flow-creations :
      (flow : Flow) (s : S)
      → let r = deploy_flow client jf flow s in
        CreatesNone r
        ⊎ (IsAbsent client jf s flow.name
            × IsPresent client jf r.state flow.name
            × ((name : Text)
                → creations name r.calls
                  ≡ (if get_job_name jf.metadata.name flow.name == name then 1 else 0)))
  unfolding deploy_flow
  deploy_flow-creations flow s =
      let job_name = get_job_name jf.metadata.name flow.name in
      let prepared = prepare_job client jf flow job_name s in
      let silent = prepare_job-IsSilent client jf flow job_name s in
      let r = deploy_flow client jf flow s in
      elim (Result-cases prepared.value.0) [
        | inr (e, q) ↦
            let calls : r.calls ≡ prepared.calls ++ [] = ground (arith, q) in
            inl (λ name.
              ap (creations name) (calls ∙ append-nil prepared.calls)
              ∙ creations-silent name prepared.calls silent)
        | inl (job, q) ↦
            let (named, placed) = prepare_job-named client jf flow job_name s job q in
            let same =
              prepare_job-state client answering.store.reads_templates jf flow job_name s in
            let started = start_job client jf flow job prepared.state in
            let calls : r.calls ≡ prepared.calls ++ started.calls =
              ground (arith, q, append-nil started.calls) in
            let state : started.state ≡ r.state = ground (arith, q) in
            let counted = λ (name : Text).
              creations-after name prepared.calls started.calls r.calls silent calls in
            elim (start_job-creations flow job prepared.state) [
              | inl none_made ↦ inl (λ name. counted name ∙ none_made name)
              | inr (absent, ((j, has), one_made)) ↦ inr (
                subst (λ x. IsAbsent client jf x flow.name) same absent,
                subst (λ x. IsPresent client jf x flow.name) state
                    (
                      j,
                      subst (λ k. (client.get_job k started.state).0 ≡ ok j) (ap₂ key placed named)
                          has,
                    ),
                λ name.
                    subst (λ n. creations name r.calls ≡ (if n == name then 1 else 0)) named
                      (counted name ∙ one_made name),
              )
            ]
      ]
