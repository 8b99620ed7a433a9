-- ===== src/Informers/Generic/Found.antt =====
-- Which informer `ForResource` finds, and what the informers of a factory ask the cluster for.
use job_deploy_operator.Base.{
  ℕ, Text, text_eq, text_beq_iff, codes, ◌≡◌, refl, sym, ap, subst, ◌≢◌, inl, inr, true, lookup,
  Bool-cases, Option, GoMap, [], ◌∷◌, eq_refl, arith,
}
use job_deploy_operator.Api.Kube.{ok, err}
use job_deploy_operator.Api.Scheme.{Resource, with_resource, group_resource}
use job_deploy_operator.Api.JobFlow.{JobFlow, JobFlowList}
use job_deploy_operator.Api.JobFlow.Register.{scheme_group_version, job_flow_type}
use job_deploy_operator.Clientset.Rest.{Rest, list_params, get_verb, start, timeout_of}
use job_deploy_operator.Clientset.JobFlows.{JobFlowInterface, new_job_flows, list, watch}
use job_deploy_operator.Informers.Cache.{Cache, TweakListOptionsFunc, tweaked}
use job_deploy_operator.Informers.Factory.{
  SharedInformerFactory, with_namespace, with_tweak_list_options, apply_options,
  new_shared_informer_factory_with_options, new_filtered_shared_informer_factory, informer_for,
  resync_period,
}
use job_deploy_operator.Informers.Factory.Shared.{Steps, one_informer_per_type}
use job_deploy_operator.Informers.JobFlows.{
  v1alpha1, job_flows, list_watch, new_filtered_job_flow_informer, default_informer, informer,
}
use job_deploy_operator.Informers.Generic.{api, same_resource, no_informer, for_resource}

same_resource_refl : (r : Resource) → same_resource r r ≡ true
same_resource_refl r =
    let g = eq_refl {A = Text} r.group in
    let v = eq_refl {A = Text} r.version in
    let n = eq_refl {A = Text} r.resource in ground (arith, g, v, n)

same_resource-eq : (r q : Resource) → same_resource r q ≡ true → r ≡ q
same_resource-eq r q h =
    let g : r.group ≡ q.group = (text_beq_iff r.group q.group).0 (ground (arith, h)) in
    let v : r.version ≡ q.version = (text_beq_iff r.version q.version).0 (ground (arith, h)) in
    let n : r.resource ≡ q.resource = (text_beq_iff r.resource q.resource).0 (ground (arith, h)) in
    ground (arith, g, v, n)

module _ {S W I F C : Type 0} (cache : Cache S JobFlow JobFlowList W I F)
    (client_of : C → Text → JobFlowInterface S W) (show : Resource → Text) where
  -- Whatever happens to the factory after the informer of JobFlows was requested through
  -- `Api().V1alpha1().JobFlows()`: `ForResource` returns this informer for the resource jobflows of
  -- the group and version of JobFlow, and an error for every other resource; and it changes nothing.
  pub for_resource_finds :
      (w w' : SharedInformerFactory C I × S) (runs : GoMap I) (gvr : Resource)
      → let first = informer cache client_of (job_flows (v1alpha1 (api w.0))) w in
        let known = with_resource scheme_group_version (codes "jobflows") in
        Steps first.1 runs w'
        → (gvr ≡ known
            → for_resource cache client_of show gvr w'
              ≡ (ok (record { informer = first.0; resource = group_resource gvr }), w'))
          × (gvr ≢ known
              → for_resource cache client_of show gvr w'
                ≡ (err (no_informer cache client_of show gvr), w'))
  unfolding for_resource informer
  for_resource_finds w w' runs gvr steps =
      let known = with_resource scheme_group_version (codes "jobflows") in
      let again =
        one_informer_per_type job_flow_type
          (default_informer cache client_of (job_flows (v1alpha1 (api w.0))))
          (default_informer cache client_of (job_flows (v1alpha1 (api w'.0)))) w w' runs steps in
      (
        λ e.
            let same : same_resource gvr known ≡ true =
              subst (λ x. same_resource x known ≡ true) (sym e) (same_resource_refl known) in
            rw (same, for_resource)
              (ap (λ r. (ok (record { informer = r.0; resource = group_resource gvr }), r.1))
                again),
        λ ne. elim (Bool-cases (same_resource gvr known)) [
          | inl e ↦ absurd (ne (same_resource-eq gvr known e))
          | inr e ↦ rw (e, for_resource) refl
        ],
      )

-- A new factory that is limited to a namespace and has a filter makes, over the generated client of
-- JobFlows, an informer with the default period whose lists and watches are requests for the
-- JobFlows of that namespace, with the options that the filter makes of those of the informer.
pub filtered_informer_requests :
    {S W I F C : Type 0} (cache : Cache S JobFlow JobFlowList W I F)
    (rest_of : C → Rest S JobFlow JobFlowList W) (client : C) (default_resync : ℕ) (ns : Text)
    (tweak : Option TweakListOptionsFunc) (s : S)
    → let f = new_filtered_shared_informer_factory client default_resync ns tweak in
      let client_of : C → Text → JobFlowInterface S W =
        λ c namespace. new_job_flows (rest_of c) namespace in
      (informer cache client_of (job_flows (v1alpha1 (api f))) (f, s)).0
      ≡ (cache.new_shared_index_informer
          (record {
            list_func = λ options.
                let opts = tweaked tweak options in
                (rest_of client).into_list (record (start get_verb ns (codes "jobflows")) {
                  params = list_params opts;
                  timeout = timeout_of opts;
                });
            watch_func = λ options.
                let opts = tweaked tweak options in
                (rest_of client).watch (record (start get_verb ns (codes "jobflows")) {
                  params = list_params (record opts { watch = true });
                  timeout = timeout_of opts;
                });
          })
          job_flow_type
          default_resync
          ((cache.namespace_index, cache.meta_namespace_index_func) ∷ [])
          s).0
unfolding api informer informer_for default_informer new_filtered_job_flow_informer list_watch
    new_job_flows list watch resync_period new_filtered_shared_informer_factory
    new_shared_informer_factory_with_options apply_options with_namespace with_tweak_list_options
    lookup
filtered_informer_requests cache rest_of client default_resync ns tweak s = refl
