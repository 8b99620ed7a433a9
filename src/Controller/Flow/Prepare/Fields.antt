-- ===== src/Controller/Flow/Prepare/Fields.antt =====
-- The specification of a prepared job, field by field, without the functions that make it.
use job_deploy_operator.Base.{
  Text, codes, GoMap, lookup, copy_into, lookup-copy_into, true, false, text_beq_iff, ◌≢◌, ◌⊎◌, ◌∷◌,
  ◌++◌, Pairwise, Pairwise-map, text_eq, ◌≡◌, refl, ◌∙◌, inl, inr, [], length, Option, none, some,
  Bool-cases, ◌==◌, nat_eq, if◌then◌else◌, arith,
}
use job_deploy_operator.Api.Kube.{Slice, items, Container, JobSpec}
use job_deploy_operator.Api.JobFlow.{Flow, JobFlow}
use job_deploy_operator.Controller.Common.{restart_policy_never}
use job_deploy_operator.Controller.Flow.Prepare.Globals.{IsMapOrNil, prefer-none}
use job_deploy_operator.Controller.Flow.Prepare.{extend, finish_spec, template_global}
use job_deploy_operator.Controller.Flow.Prepare.Spec.{
  shares, or_own, prepared_container, finish_spec-containers,
}

-- A slice of the prepared job: if the JobFlow has volumes to share and the flow has mounts, the
-- elements of the chosen slice and then the added ones; else the chosen slice.
abbrev pub IsShared : {A : Type 0} → JobFlow → Flow → Slice A → Slice A → Slice A → Type 0
IsShared jf flow added own result =
    ((items jf.spec.share_volumes ≢ [])
      × (items flow.share_volume_mounts ≢ [])
      × (items result ≡ items own ++ items added))
    ⊎ (((items jf.spec.share_volumes ≡ []) ⊎ (items flow.share_volume_mounts ≡ []))
        × (result ≡ own))

-- The global value, unless it is nil.
abbrev pub IsReplaced : {A : Type 0} → Option A → Option A → Option A → Type 0
IsReplaced none own result = result ≡ own
IsReplaced (some global) own result = result ≡ some global

-- A map of global values takes the place of the chosen one, of which nothing is left.
abbrev pub IsReplacedMap : Option (GoMap Text) → Option (GoMap Text) → Option (GoMap Text) → Type 0
IsReplacedMap none own result = result ≡ own
IsReplacedMap (some globals) own result =
    (m : GoMap Text) × (result ≡ some m) × ((k : Text) → lookup k m ≡ lookup k globals)

-- What one container becomes: its environment is the global one unless that is nil, and its mounts
-- are its own and then those of the flow.
pub record IsPreparedContainer (jf : JobFlow) (flow : Flow) (own c : Container) : Type 0 where
  pub name : c.name ≡ own.name
  pub env : IsReplaced jf.spec.global_params.env own.env c.env
  pub mounts : IsShared jf flow flow.share_volume_mounts own.volume_mounts c.volume_mounts
  pub rest : c.rest ≡ own.rest

-- The specification of the prepared job, from the one that was chosen.
pub record IsPrepared (jf : JobFlow) (flow : Flow) (chosen spec : JobSpec) : Type 0 where
  pub never_restarts : spec.template.spec.restart_policy ≡ codes "Never"
  pub never_retries : spec.backoff_limit ≡ some 0
  pub containers :
      Pairwise
        (IsPreparedContainer jf flow)
        chosen.template.spec.containers
        spec.template.spec.containers
  pub volumes :
      IsShared jf flow jf.spec.share_volumes chosen.template.spec.volumes spec.template.spec.volumes
  pub node_name :
      ((jf.spec.global_params.node_name ≡ [])
        × (spec.template.spec.node_name ≡ chosen.template.spec.node_name))
      ⊎ ((jf.spec.global_params.node_name ≢ [])
          × (spec.template.spec.node_name ≡ jf.spec.global_params.node_name))
  pub annotations :
      IsReplacedMap jf.spec.global_params.annotations chosen.template.annotations
        spec.template.annotations
  pub labels :
      IsReplacedMap jf.spec.global_params.labels chosen.template.labels spec.template.labels
  pub rest :
      (spec.rest ≡ chosen.rest)
      × (spec.template.rest ≡ chosen.template.rest)
      × (spec.template.spec.rest ≡ chosen.template.spec.rest)

items-cases :
    {A : Type 0} (xs : Slice A)
    → (items xs ≡ []) × ((length (items xs) == 0) ≡ true)
      ⊎ ((items xs ≢ []) × ((length (items xs) == 0) ≡ false))
items-cases none = inl (refl, refl)
items-cases (some []) = inl (refl, refl)
items-cases (some (x ∷ xs)) = inr (λ h. cc, ground arith)

items-extend :
    {A : Type 0} (own added : Slice A) → items (extend own added) ≡ items own ++ items added
items-extend none added = refl
items-extend (some xs) added = refl

when-IsShared :
    {A : Type 0} (jf : JobFlow) (flow : Flow) (added own : Slice A)
    → IsShared jf flow added own
        (if shares jf.spec.share_volumes flow.share_volume_mounts then extend own added else own)
when-IsShared jf flow added own = elim (items-cases jf.spec.share_volumes) [
  | inl (e, q) ↦ inr (inl e, rw q refl)
  | inr (e, q) ↦ elim (items-cases flow.share_volume_mounts) [
    | inl (f, p) ↦ inr (inr f, rw (q, p) refl)
    | inr (f, p) ↦ inl (e, f, rw (q, p) (items-extend own added))
  ]
]

IsReplaced-or_own : {A : Type 0} (global own : Option A) → IsReplaced global own (or_own global own)
IsReplaced-or_own none own = refl
IsReplaced-or_own (some global) own = refl

template_global-IsReplacedMap :
    (globals own : Option (GoMap Text))
    → IsMapOrNil globals
    → IsReplacedMap globals own (template_global globals own)
unfolding template_global
template_global-IsReplacedMap none own h = refl
template_global-IsReplacedMap (some globals) own h = (
  copy_into globals [],
  refl,
  λ k. lookup-copy_into k globals [] h ∙ unfold lookup in prefer-none (lookup k globals),
)

prepared_container-IsPreparedContainer :
    (jf : JobFlow) (flow : Flow) (c : Container)
    → IsPreparedContainer jf flow c (prepared_container jf flow c)
prepared_container-IsPreparedContainer jf flow c = record {
  name = refl;
  env = IsReplaced-or_own jf.spec.global_params.env c.env;
  mounts = when-IsShared jf flow flow.share_volume_mounts c.volume_mounts;
  rest = refl;
}

pub finish_spec-IsPrepared :
    (jf : JobFlow) (flow : Flow) (chosen : JobSpec)
    → IsMapOrNil jf.spec.global_params.annotations
    → IsMapOrNil jf.spec.global_params.labels
    → IsPrepared jf flow chosen (finish_spec jf flow chosen)
unfolding finish_spec restart_policy_never
finish_spec-IsPrepared jf flow chosen ha hl =
    let volumes : (finish_spec jf flow chosen).template.spec.volumes ≡ (
        if shares jf.spec.share_volumes flow.share_volume_mounts
        then extend chosen.template.spec.volumes jf.spec.share_volumes
        else chosen.template.spec.volumes) =
      ground arith in
    let annotations : (finish_spec jf flow chosen).template.annotations
        ≡ template_global jf.spec.global_params.annotations chosen.template.annotations =
      ground arith in
    let labels : (finish_spec jf flow chosen).template.labels
        ≡ template_global jf.spec.global_params.labels chosen.template.labels =
      ground arith in
    record {
      never_restarts = ground arith;
      never_retries = ground arith;
      containers = rw (finish_spec-containers jf flow chosen) (
          Pairwise-map (IsPreparedContainer jf flow) (prepared_container jf flow)
            (prepared_container-IsPreparedContainer jf flow) chosen.template.spec.containers);
      volumes =
          rw volumes (when-IsShared jf flow jf.spec.share_volumes chosen.template.spec.volumes);
      node_name = elim (Bool-cases (jf.spec.global_params.node_name == [])) [
        | inl t ↦ inl ((text_beq_iff jf.spec.global_params.node_name []).0 t, ground (arith, t))
        | inr f ↦ inr (
          λ e. ground (arith, f, text_beq_iff jf.spec.global_params.node_name [], e),
          ground (arith, f),
        )
      ];
      annotations = rw annotations (
          template_global-IsReplacedMap jf.spec.global_params.annotations
            chosen.template.annotations ha);
      labels =
          rw labels
            (template_global-IsReplacedMap jf.spec.global_params.labels chosen.template.labels hl);
      rest = ground arith;
    }
