-- ===== src/Clientset/Fake/Simple.antt =====
-- pkg/client/clientset/versioned/fake/clientset_generated.go: the fake clientset. The object tracker
-- is memory that the clientset and its reactors share: `T` is what it holds.
pub mod Refused
use job_deploy_operator.Base.{
  Text, codes, Bool, true, false, List, [], ◌∷◌, ◌++◌, Option, none, some,
}
use job_deploy_operator.Api.Kube.{Error, Result, ok, err}
use job_deploy_operator.Clientset.Testing.{
  Resource, TestAction, get_action, list_action, watch_action, create_action, update_action,
  update_subresource_action, delete_action, delete_collection_action, patch_action,
}

-- `testing.ObjectTracker` and `testing.ObjectReaction`, where `S` is the scheme that the tracker was
-- made with.
pub record Tracking (S O T W : Type 0) : Type 0 where
  pub new_object_tracker : S → T
  pub add : S → O → T → Result (Unit {0}) × T
  pub watch : Resource → Text → T → Result W × T
  pub object_reaction : S → TestAction O → T → (Bool × Option O × Option Error) × T

-- A reactor with the verb and the resource that it is for, and one for watches.
pub record Reactor (O T : Type 0) : Type 0 where
  pub verb : Text
  pub resource : Text
  pub reaction : TestAction O → T → (Bool × Option O × Option Error) × T

pub record WatchReactor (O T W : Type 0) : Type 0 where
  pub resource : Text
  pub reaction : TestAction O → T → (Bool × Option W × Option Error) × T

-- The chains of `testing.Fake`.
pub record Chains (O T W : Type 0) : Type 0 where
  pub reaction_chain : List (Reactor O T)
  pub watch_reaction_chain : List (WatchReactor O T W)

abbrev add_reactor : {O T W : Type 0} → Reactor O T → Chains O T W → Chains O T W
add_reactor r c = record c { reaction_chain = c.reaction_chain ++ r ∷ [] }

abbrev add_watch_reactor : {O T W : Type 0} → WatchReactor O T W → Chains O T W → Chains O T W
add_watch_reactor r c = record c { watch_reaction_chain = c.watch_reaction_chain ++ r ∷ [] }

-- `FakeDiscovery` and `FakeApiV1alpha1` hold the address of the chains of the clientset.
pub record FakeDiscovery (O T W : Type 0) : Type 0 where
  pub fake : Chains O T W

pub record FakeApiV1alpha1 (O T W : Type 0) : Type 0 where
  pub fake : Chains O T W

-- The field `discovery` is the address of these chains in every clientset that is made.
pub record Clientset (O T W : Type 0) : Type 0 where
  pub fake : Chains O T W
  pub tracker : T

unfoldable pub discovery : {O T W : Type 0} → Clientset O T W → FakeDiscovery O T W
discovery c = record { fake = c.fake }

unfoldable pub tracker : {O T W : Type 0} → Clientset O T W → T
tracker c = c.tracker

unfoldable pub api_v1alpha1 : {O T W : Type 0} → Clientset O T W → FakeApiV1alpha1 O T W
api_v1alpha1 c = record { fake = c.fake }

-- `action.GetResource()` and `action.GetNamespace()`
abbrev pub get_resource : {A : Type 0} → TestAction A → Resource
get_resource (get_action r ns name) = r
get_resource (list_action r kind ns opts) = r
get_resource (watch_action r ns opts) = r
get_resource (create_action r ns a) = r
get_resource (update_action r ns a) = r
get_resource (update_subresource_action r sub ns a) = r
get_resource (delete_action r ns name) = r
get_resource (delete_collection_action r ns opts) = r
get_resource (patch_action r ns name pt content subs) = r

abbrev pub get_namespace : {A : Type 0} → TestAction A → Text
get_namespace (get_action r ns name) = ns
get_namespace (list_action r kind ns opts) = ns
get_namespace (watch_action r ns opts) = ns
get_namespace (create_action r ns a) = ns
get_namespace (update_action r ns a) = ns
get_namespace (update_subresource_action r sub ns a) = ns
get_namespace (delete_action r ns name) = ns
get_namespace (delete_collection_action r ns opts) = ns
get_namespace (patch_action r ns name pt content subs) = ns

module _ {S O T W : Type 0} (tracking : Tracking S O T W) where
  -- `none` is a panic.
  unfoldable pub add_each : S → List O → T → Option T
  add_each scheme [] t = some t
  add_each scheme (obj ∷ objects) t =
      let added = tracking.add scheme obj t in
      elim added.0 [ ok u ↦ add_each scheme objects added.1 | err e ↦ none ]

  -- A watch that the tracker refuses is not handled.
  unfoldable pub watch_reaction : TestAction O → T → (Bool × Option W × Option Error) × T
  watch_reaction action t =
      let opened = tracking.watch (get_resource action) (get_namespace action) t in
      (elim opened.0 [ ok w ↦ (true, some w, none) | err e ↦ (false, none, some e) ], opened.1)

  unfoldable pub new_simple_clientset : S → List O → Option (Clientset O T W)
  unfolding add_each watch_reaction
  new_simple_clientset scheme objects =
      let chains : Chains O T W = record { reaction_chain = []; watch_reaction_chain = [] } in
      let reactor : Reactor O T = record {
        verb = codes "*";
        resource = codes "*";
        reaction = tracking.object_reaction scheme;
      } in
      let watch_reactor : WatchReactor O T W = record {
        resource = codes "*";
        reaction = watch_reaction;
      } in
      let fake = add_watch_reactor watch_reactor (add_reactor reactor chains) in
      elim (add_each scheme objects (tracking.new_object_tracker scheme)) [
        | none ↦ none
        | some t ↦ some (record { fake = fake; tracker = t })
      ]
