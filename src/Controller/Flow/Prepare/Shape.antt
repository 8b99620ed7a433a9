-- ===== src/Controller/Flow/Prepare/Shape.antt =====
-- Which calls `prepareJob` makes, and what every job that it prepares has.
use job_deploy_operator.Base.{
  Text, text_eq, text_beq_iff, beq_of_ne, insert, ◌≢◌, ◌≡◌, refl, ap, inl, inr, [], All, Bool-cases,
  ◌==◌, arith,
}
use job_deploy_operator.Api.Kube.{Job, ok}
use job_deploy_operator.Api.JobFlow.{Flow, JobFlow}
use job_deploy_operator.Controller.Client.{Client}
use job_deploy_operator.Controller.Common.{
  create_by_job_template, get_connection_of_job_and_job_template,
}
use job_deploy_operator.Controller.Trace.{IsSilent, Result-cases}
use job_deploy_operator.Controller.Flow.Prepare.{
  Chosen, assemble_job, choose_spec, write_back, prepare_job,
}

module _ {S : Type 0} (client : Client S) (jf : JobFlow) (flow : Flow) (job_name : Text)
    (s : S) where
  pub prepare_job-IsSilent : All IsSilent (prepare_job client jf flow job_name s).calls
  unfolding prepare_job
  prepare_job-IsSilent = elim (Bool-cases (flow.job_template_ref == [])) [
    | inl t ↦ rw t tt
    | inr f ↦ rw f (tt, tt)
  ]

  pub prepare_job-chosen :
      (job : Job)
      → (prepare_job client jf flow job_name s).value.0 ≡ ok job
      → (c : Chosen) × ((choose_spec client jf flow s).value ≡ ok c)
        × (job ≡ assemble_job jf flow job_name c)
  unfolding prepare_job
  prepare_job-chosen job h = elim (Result-cases (choose_spec client jf flow s).value) [
    | inl (c, q) ↦ (c, q, cc (rw q at h))
    | inr (e, q) ↦ cc (rw q at h)
  ]

  pub prepare_job-flow :
      (job : Job)
      → (prepare_job client jf flow job_name s).value.0 ≡ ok job
      → (prepare_job client jf flow job_name s).value.1 ≡ write_back flow job
  unfolding prepare_job
  prepare_job-flow job h = elim (Result-cases (choose_spec client jf flow s).value) [
    | inl (c, q) ↦
        let same : assemble_job jf flow job_name c ≡ job = cc (rw q at h) in
        rw (q, prepare_job) (ap (write_back flow) same)
    | inr (e, q) ↦ cc (rw q at h)
  ]

  pub prepare_job-named :
      (job : Job)
      → (prepare_job client jf flow job_name s).value.0 ≡ ok job
      → (job.metadata.name ≡ job_name) × (job.metadata.namespace ≡ jf.metadata.namespace)
  prepare_job-named job h =
      let (c, q, e) = prepare_job-chosen job h in unfold assemble_job in rw e (refl, refl)

  -- A flow that names a template marks its job with the template.
  pub choose_spec-marked :
      (c : Chosen)
      → flow.job_template_ref ≢ []
      → (choose_spec client jf flow s).value ≡ ok c
      → c.annotations
        ≡ insert create_by_job_template
            (get_connection_of_job_and_job_template jf.metadata.namespace flow.job_template_ref)
            []
  unfolding choose_spec
  choose_spec-marked c ne h =
      let f = beq_of_ne {A = Text} flow.job_template_ref [] ne in ground (arith, f, h)

  -- A flow that names none has its own specification, and its job no mark.
  pub choose_spec-own :
      (c : Chosen)
      → flow.job_template_ref ≡ []
      → (choose_spec client jf flow s).value ≡ ok c
      → (c.spec ≡ flow.job_template) × (c.annotations ≡ [])
  unfolding choose_spec
  choose_spec-own c e h =
      let t = (text_beq_iff flow.job_template_ref []).1 e in ground (arith, t, h)
