-- ===== src/Program/Main/Errors.antt =====
-- Which errors of the set-up the program reacts to.
use job_deploy_operator.Base.{◌≡◌, refl, ap, ◌∙◌, ◌≢◌, inl, inr, Option, none, some, arith}
use job_deploy_operator.Api.Kube.{Result}
use job_deploy_operator.Api.JobFlow.Register.{add_known_types as add_job_flow}
use job_deploy_operator.Api.DaemonJob.Register.{add_known_types as add_daemon_job}
use job_deploy_operator.Api.JobTemplate.Register.{add_known_types as add_job_template}
use job_deploy_operator.Controller.Trace.{Result-cases}
use job_deploy_operator.Program.Main.{
  Controller, job_flow_ctl, daemon_job_ctl, job_template_ctl, Runtime, exited, run_manager,
  set_up_controllers, register_types, main,
}

module _ {C S : Type 0} (runtime : Runtime C S) where
  run_manager-exited : (s : S) → (run_manager runtime s).0 ≢ exited
  unfolding run_manager
  run_manager-exited s h = elim (Result-cases (runtime.start s).0) [
    | inl (u, q) ↦ ground (arith, q, h)
    | inr (e, q) ↦ ground (arith, q, h)
  ]

  main-exited : (config : Option C) (s : S) → (main runtime config s).0 ≡ exited → config ≡ none
  unfolding main register_types set_up_controllers add_job_flow add_daemon_job add_job_template
  main-exited none s h = refl
  main-exited (some c) s h = elim (Result-cases (runtime.new_manager c s).0) [
    | inr (e, q) ↦ absurd (ground (arith, q, h))
    | inl (u, q) ↦
        let made = (runtime.new_manager c s).1 in
        let e : (register_types runtime made).0 ≡ (main runtime (some c) s).0 = ground (arith, q) in
        absurd (run_manager-exited _ (e ∙ h))
  ]

  module _ (complete : Controller → S → Result (Unit {0}) × S)
      (same : (ctl : Controller) (s : S) → (complete ctl s).1 ≡ (runtime.complete ctl s).1) where
    abbrev other : Runtime C S
    other = record runtime { complete = complete }

    set_up_controllers-same : (s : S) → set_up_controllers other s ≡ set_up_controllers runtime s
    unfolding set_up_controllers run_manager
    set_up_controllers-same s =
        let flows = same job_flow_ctl s in
        let daemons =
          ap (λ x. (complete daemon_job_ctl x).1) flows
          ∙ same daemon_job_ctl (runtime.complete job_flow_ctl s).1 in
        let templates =
          ap (λ x. (complete job_template_ctl x).1) daemons
          ∙ same job_template_ctl
              (runtime.complete daemon_job_ctl (runtime.complete job_flow_ctl s).1).1 in
        ap (run_manager runtime) templates

    main-same : (config : Option C) (s : S) → main other config s ≡ main runtime config s
    unfolding main register_types add_job_flow add_daemon_job add_job_template
    main-same none s = refl
    main-same (some c) s =
        let made = runtime.new_manager c s in
        elim (Result-cases made.0) [
          | inr (e, q) ↦ ground (arith, q)
          | inl (u, q) ↦
              let registered : register_types other made.1 ≡ register_types runtime made.1 =
                set_up_controllers-same _ in
              ground (arith, q, registered)
        ]

  -- Let another set-up of the controllers leave the same state, with any errors. Then the program
  -- runs and ends in the same way: an error of the set-up of a controller is lost. And the program
  -- exits only if there is no configuration: the errors of the registration of types do not occur.
  pub controller_errors_are_lost :
      (complete : Controller → S → Result (Unit {0}) × S)
      → ((ctl : Controller) (s : S) → (complete ctl s).1 ≡ (runtime.complete ctl s).1)
      → (config : Option C) (s : S)
      → (main (record runtime { complete = complete }) config s ≡ main runtime config s)
        × ((main runtime config s).0 ≡ exited → config ≡ none)
  controller_errors_are_lost complete same config s =
      (main-same complete same config s, main-exited config s)
