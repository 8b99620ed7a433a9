-- ===== src/Controller/Flow/Prepare/Spec.antt =====
-- The containers of a prepared job.
use mathlib.Core.Path.{fun_ext}
use mathlib.Core.List.{map-map, map-id}
use job_deploy_operator.Base.{
  Text, text_eq, ◌≡◌, refl, sym, ap, ◌∙◌, inl, inr, Bool, ◌&&◌, not, map, length, Option, none,
  some, Bool-cases, ◌==◌, nat_eq, if◌then◌else◌, arith,
}
use job_deploy_operator.Api.Kube.{Slice, items, EnvVar, Volume, VolumeMount, Container, JobSpec}
use job_deploy_operator.Api.JobFlow.{Flow, JobFlow}
use job_deploy_operator.Controller.Flow.Prepare.{
  extend, finish_spec, mount_shared, set_env, set_node_name, set_template_globals, never_restart,
}

-- Both the volumes of the JobFlow and the mounts of the flow are there.
abbrev pub shares : Slice Volume → Slice VolumeMount → Bool
shares volumes mounts = not (length (items volumes) == 0) && not (length (items mounts) == 0)

abbrev pub or_own {ℓ} : {A : Type ℓ} → Option A → Option A → Option A
or_own none own = own
or_own (some a) own = some a

-- What one container of the template becomes.
abbrev pub prepared_container : JobFlow → Flow → Container → Container
prepared_container jf flow c = record c {
  env = or_own jf.spec.global_params.env c.env;
  volume_mounts =
      if shares jf.spec.share_volumes flow.share_volume_mounts
      then extend c.volume_mounts flow.share_volume_mounts
      else c.volume_mounts;
}

abbrev with_mounts : Slice Volume → Slice VolumeMount → Container → Container
with_mounts volumes mounts c = record c {
  volume_mounts = if shares volumes mounts then extend c.volume_mounts mounts else c.volume_mounts;
}

containers-mount_shared :
    (volumes : Slice Volume) (mounts : Slice VolumeMount) (spec : JobSpec)
    → (mount_shared volumes mounts spec).template.spec.containers
      ≡ map (with_mounts volumes mounts) spec.template.spec.containers
unfolding mount_shared
containers-mount_shared volumes mounts spec = elim (Bool-cases (shares volumes mounts)) [
  | inl t ↦ rw t (ap (λ f. map f spec.template.spec.containers) (fun_ext λ c. rw t))
  | inr f ↦ rw f (
      sym (map-id spec.template.spec.containers)
      ∙ ap (λ g. map g spec.template.spec.containers) (fun_ext λ c. rw f))
]

abbrev with_env : Slice EnvVar → Container → Container
with_env env c = record c { env = or_own env c.env }

containers-set_env :
    (env : Slice EnvVar) (spec : JobSpec)
    → (set_env env spec).template.spec.containers ≡ map (with_env env) spec.template.spec.containers
unfolding set_env
containers-set_env none spec = sym (map-id spec.template.spec.containers)
containers-set_env (some env) spec = refl

containers-set_node_name :
    (node_name : Text) (spec : JobSpec)
    → (set_node_name node_name spec).template.spec.containers ≡ spec.template.spec.containers
unfolding set_node_name
containers-set_node_name node_name spec = ground arith

containers-finish_spec :
    (jf : JobFlow) (flow : Flow) (chosen : JobSpec)
    → (finish_spec jf flow chosen).template.spec.containers
      ≡ map
          (with_env jf.spec.global_params.env)
          (mount_shared jf.spec.share_volumes flow.share_volume_mounts
            chosen).template.spec.containers
unfolding finish_spec
containers-finish_spec jf flow chosen =
    let params = jf.spec.global_params in
    let mounted = mount_shared jf.spec.share_volumes flow.share_volume_mounts chosen in
    let global = set_template_globals params (never_restart mounted) in
    containers-set_env params.env (set_node_name params.node_name global)
    ∙ ap (map (with_env params.env)) (containers-set_node_name params.node_name global)

pub finish_spec-containers :
    (jf : JobFlow) (flow : Flow) (chosen : JobSpec)
    → (finish_spec jf flow chosen).template.spec.containers
      ≡ map (prepared_container jf flow) chosen.template.spec.containers
finish_spec-containers jf flow chosen =
    containers-finish_spec jf flow chosen
    ∙ rw (containers-mount_shared jf.spec.share_volumes flow.share_volume_mounts chosen, map-map)
