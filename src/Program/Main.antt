-- ===== src/Program/Main.antt =====
-- main.go: the set-up of the manager and of the three controllers, and the end of the program. The
-- manager is part of the state `S`, which its methods change.
pub mod Errors
use job_deploy_operator.Base.{
  Text, ◌≡◌, refl, sym, ap, subst, ◌∙◌, inl, inr, Option, none, some, Option-cases, arith,
}
use job_deploy_operator.Api.Kube.{Result, ok, err}
use job_deploy_operator.Api.Scheme.{Scheme}
use job_deploy_operator.Api.JobFlow.Register.{add_known_types as add_job_flow}
use job_deploy_operator.Api.DaemonJob.Register.{add_known_types as add_daemon_job}
use job_deploy_operator.Api.JobTemplate.Register.{add_known_types as add_job_template}
use job_deploy_operator.Controller.Trace.{Result-cases}

pub data Controller : Type 0 where
  job_flow_ctl daemon_job_ctl job_template_ctl : Controller

-- controller-runtime. `manager.New` returns no manager with an error. `complete` is
-- `builder.ControllerManagedBy(mgr)` with the type of the controller and its handlers, up to
-- `Complete`; `start` is `mgr.Start`, which returns when the manager has stopped.
pub record Runtime (C S : Type 0) : Type 0 where
  pub new_manager : C → S → Result (Unit {0}) × S
  pub scheme : Scheme S
  pub complete : Controller → S → Result (Unit {0}) × S
  pub start : S → Result (Unit {0}) × S

pub data Ending : Type 0 where
  finished : Ending
  -- `os.Exit` or `klog.Fatal`
  exited : Ending
  -- A method of a nil interface is called.
  panicked : Ending
  -- A send on a channel that nobody receives from.
  blocked : Ending

module _ {C S : Type 0} (runtime : Runtime C S) where
  unfoldable pub run_manager : S → Ending × S
  run_manager s =
      let stopped = runtime.start s in
      (elim stopped.0 [ ok u ↦ finished | err e ↦ blocked ], stopped.1)

  -- The errors of `Complete` are overwritten by the next assignment to `err`.
  unfoldable pub set_up_controllers : S → Ending × S
  unfolding run_manager
  set_up_controllers s =
      run_manager
        (runtime.complete job_template_ctl
          (runtime.complete daemon_job_ctl (runtime.complete job_flow_ctl s).1).1).1

  -- `SchemeBuilder.AddToScheme` calls the one function that the builder was made with.
  unfoldable pub register_types : S → Ending × S
  unfolding set_up_controllers
  register_types s =
      let flows = add_job_flow runtime.scheme s in
      let daemons = add_daemon_job runtime.scheme flows.1 in
      let templates = add_job_template runtime.scheme daemons.1 in
      elim flows.0 [
        | err e ↦ (exited, flows.1)
        | ok u ↦ elim daemons.0 [
          | err e ↦ (exited, daemons.1)
          | ok u ↦ elim templates.0 [
            | err e ↦ (exited, templates.1)
            | ok u ↦ set_up_controllers templates.1
          ]
        ]
      ]

  -- `config` is what `K8sRestConfigOrDie` returns, where `none` is its end of the program.
  unfoldable pub main : Option C → S → Ending × S
  unfolding register_types
  main none s = (exited, s)
  main (some config) s =
      let made = runtime.new_manager config s in
      elim made.0 [ err e ↦ (panicked, made.1) | ok u ↦ register_types made.1 ]
