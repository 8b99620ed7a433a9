-- ===== src/Controller/Flow/Deploy/Ready.antt =====
-- When the job of a flow is created, over a client whose reads change nothing.
use job_deploy_operator.Base.{
  Text, nat_eq, ◌≡◌, refl, sym, ap, subst, ◌∙◌, ◌≢◌, ◌↔◌, inl, inr, Bool, true, false, Bool-cases,
  List, [], ◌∷◌, All, Any, Any-append_right, length, ◌==◌, if◌then◌else◌, arith, append-nil,
}
use job_deploy_operator.Api.Kube.{Error, is_not_found, Job, Result, ok, err}
use job_deploy_operator.Api.JobFlow.{Flow, JobFlow}
use job_deploy_operator.Controller.Client.{Client, Call, created_job, got_job}
use job_deploy_operator.Controller.Trace.{Result-cases, IsSilent, ReadsOnly}
use job_deploy_operator.Controller.Flow.Deploy.{
  job_key, check_dependencies, create_independent, create_dependent, create_when_ready, start_job,
}
use job_deploy_operator.Controller.Flow.Deploy.Checks.{
  check_dependencies-cons, check_dependencies-stops, check_dependencies-IsSilent,
}

-- The call asks for the creation of this job.
abbrev pub Creates : Job → Call → Type 0
Creates job c = (r : Result (Unit {0})) × (c ≡ created_job job r)

not-Creates_silent : (job : Job) (cs : List Call) → All IsSilent cs → ¬ Any (Creates job) cs
not-Creates_silent job [] h a = a
not-Creates_silent job (c ∷ cs) (h, hs) (inl (r, e)) = rw e at h
not-Creates_silent job (c ∷ cs) (h, hs) (inr a) = not-Creates_silent job cs hs a

module _ {S : Type 0} (client : Client S) (jf : JobFlow) (s : S) where
  -- The job of the flow is there, has succeeded exactly once, and has not failed exactly once.
  abbrev pub IsDone : Text → Type 0
  IsDone flow_name =
      (job : Job) × ((client.get_job (job_key jf flow_name) s).0 ≡ ok job)
      × (job.status.succeeded ≡ 1)
      × (job.status.failed ≢ 1)

  abbrev pub IsAbsent : Text → Type 0
  IsAbsent flow_name =
      (e : Error) × ((client.get_job (job_key jf flow_name) s).0 ≡ err e) × (is_not_found e ≡ true)

module _ {S : Type 0} (client : Client S) (reads : ReadsOnly client) (jf : JobFlow) where
  pub check_dependencies_iff :
      (flag : Bool) (ds : List Text) (s : S)
      → ((check_dependencies client jf flag ds s).value ≡ ok true)
        ↔ ((flag ≡ true) × All (IsDone client jf s) ds)
  check_dependencies_iff flag [] s =
      unfold check_dependencies in (λ h. (ground arith, tt), λ h. ap ok h.0)
  check_dependencies_iff flag (d ∷ ds) s = elim (Result-cases (client.get_job (job_key jf d) s).0) [
    | inr (e, q) ↦ (
      λ h. absurd (check_dependencies-stops client jf flag d ds s (err e) q tt h),
      λ (up, ((job, p, _, _), _)). absurd (ground (arith, p, q)),
    )
    | inl (job, q) ↦ elim (Bool-cases (job.status.failed == 1)) [
      | inl f ↦ (
        λ h. absurd (check_dependencies-stops client jf flag d ds s (ok job) q f h),
        λ (up, ((job', p, one, none_failed), _)). absurd (ground (arith, p, q, f, none_failed)),
      )
      | inr f ↦
          let e = check_dependencies-cons client jf flag d ds s job q f in
          let (to, from) =
            check_dependencies_iff (if job.status.succeeded == 1 then flag else false) ds
              (client.get_job (job_key jf d) s).1 in
          (
            λ h.
                let (up, all) = to (ap (λ r. r.value) (sym e) ∙ h) in
                (
                  ground (arith, up),
                  ((job, q, ground (arith, up), ground (arith, f)), rw reads at all),
                ),
            λ (up, ((job', p, one, none_failed), all)).
                ap (λ r. r.value) e ∙ from (ground (arith, p, q, one, up), rw reads all),
          )
    ]
  ]

  Creates-independent :
      (job : Job) (s : S) → Any (Creates job) (create_independent client jf job s).calls
  unfolding create_independent
  Creates-independent job s = inl ((client.create_job job s).0, refl)

  Creates-dependent :
      (job : Job) (s : S) → Any (Creates job) (create_dependent client jf job s).calls
  unfolding create_dependent
  Creates-dependent job s = inl ((client.create_job job s).0, refl)

  pub All-nil : (P : Text → Type 0) (ds : List Text) → (length ds == 0) ≡ true → All P ds
  All-nil P [] h = tt
  All-nil P (d ∷ ds) h = absurd (ground arith)

  create_when_ready_iff :
      (flow : Flow) (job : Job) (s : S)
      → Any (Creates job) (create_when_ready client jf flow job s).calls
        ↔ All (IsDone client jf s) flow.dependencies
  unfolding create_when_ready
  create_when_ready_iff flow job s =
      let checked = check_dependencies client jf true flow.dependencies s in
      let silent = check_dependencies-IsSilent client jf true flow.dependencies s in
      let (to, from) = check_dependencies_iff true flow.dependencies s in
      elim (Bool-cases (length flow.dependencies == 0)) [
        | inl z ↦
            rw z (
              λ _. All-nil (IsDone client jf s) flow.dependencies z,
              λ _. Creates-independent job s,
            )
        | inr z ↦ elim (Result-cases checked.value) [
          | inr (e, q) ↦
              rw (z, q, append-nil)
                (
                  λ a. absurd (not-Creates_silent job checked.calls silent a),
                  λ all. absurd (ground (arith, q, from (refl, all))),
                )
          | inl (flag, q) ↦ elim (Bool-cases flag) [
            | inr f ↦
                rw (z, q, f, append-nil)
                  (
                    λ a. absurd (not-Creates_silent job checked.calls silent a),
                    λ all. absurd (ground (arith, q, f, from (refl, all))),
                  )
            | inl t ↦
                rw (z, q, t)
                  (
                    λ _. (to (q ∙ ap ok t)).1,
                    λ _.
                        Any-append_right (Creates job) checked.calls
                          (create_dependent client jf job checked.state).calls
                          (Creates-dependent job checked.state),
                  )
          ]
        ]
      ]

  -- If reading a job changes nothing, the step of a flow asks for the creation of its job exactly
  -- when the job is not there and the job of every dependency is there, has succeeded exactly
  -- once and has not failed exactly once.
  pub created_exactly_when_ready :
      (flow : Flow) (job : Job) (s : S)
      → Any (Creates job) (start_job client jf flow job s).calls
        ↔ (IsAbsent client jf s flow.name × All (IsDone client jf s) flow.dependencies)
  unfolding start_job
  created_exactly_when_ready flow job s =
      elim (Result-cases (client.get_job (job_key jf flow.name) s).0) [
        | inl (j, q) ↦
            let quiet : All IsSilent (start_job client jf flow job s).calls = rw q (tt, tt) in
            (
              λ a. absurd (not-Creates_silent job (start_job client jf flow job s).calls quiet a),
              λ ((e, p, _), _). absurd (ground (arith, p, q)),
            )
        | inr (e, q) ↦ elim (Bool-cases (is_not_found e)) [
          | inr f ↦
              let quiet : All IsSilent (start_job client jf flow job s).calls =
                rw (q, f) (tt, tt) in
              (
                λ a. absurd (not-Creates_silent job (start_job client jf flow job s).calls quiet a),
                λ ((e', p, t), _). absurd (ground (arith, p, q, t, f)),
              )
          | inl t ↦
              let after = (client.get_job (job_key jf flow.name) s).1 in
              let rest = create_when_ready client jf flow job after in
              let c : (start_job client jf flow job s).calls
                  ≡ got_job (job_key jf flow.name) (err e) ∷ rest.calls =
                ground (arith, q, t) in
              let (to, from) = create_when_ready_iff flow job after in
              (
                λ a. elim (subst (Any (Creates job)) c a) [
                  | inl (r, p) ↦ absurd (ground (arith, p))
                  | inr b ↦ ((e, q, t), rw reads at (to b))
                ],
                λ (_, all). subst (Any (Creates job)) (sym c) (inr (from (rw reads all))),
              )
        ]
      ]
