-- ===== src/Informers/Factory.antt =====
-- pkg/client/informers/externalversions/factory.go, and internalinterfaces: the shared factory of
-- informers. Each method holds the lock from its start to its end, and so is one step on the state;
-- `WaitForCacheSync` holds it while it copies the started informers. A type is the text of its
-- package and name, a duration the number of its nanoseconds.
pub mod Shared
pub mod Runs
pub mod Resync
pub mod Waits
use job_deploy_operator.Base.{
  ℕ, Text, codes, GoMap, lookup, insert, copy_into, Bool, true, false, Option, none, some, List, [],
  ◌∷◌, if◌then◌else◌,
}
use job_deploy_operator.Informers.Cache.{TweakListOptionsFunc}

pub record SharedInformerFactory (C I : Type 0) : Type 0 where
  pub client : C
  pub namespace : Text
  pub tweak_list_options : Option TweakListOptionsFunc
  pub default_resync : ℕ
  pub custom_resync : GoMap ℕ
  pub informers : GoMap I
  pub started_informers : GoMap Bool

-- `v1.NamespaceAll`
abbrev pub namespace_all : Text
namespace_all = codes ""

abbrev pub SharedInformerOption : Type 0 → Type 0 → Type 0
SharedInformerOption C I = SharedInformerFactory C I → SharedInformerFactory C I

-- The periods of objects by the types of the objects.
abbrev pub by_type : {O : Type 0} → (type_of : O → Text) → List (O × ℕ) → GoMap ℕ
by_type type_of [] = []
by_type type_of ((object, period) ∷ config) = (type_of object, period) ∷ by_type type_of config

module _ {C I : Type 0} where
  -- The loop over the map of objects stores the periods by the types of the objects.
  unfoldable pub with_custom_resync_config :
      {O : Type 0} → (type_of : O → Text) → List (O × ℕ) → SharedInformerOption C I
  with_custom_resync_config type_of resync_config factory = record factory {
    custom_resync = copy_into (by_type type_of resync_config) factory.custom_resync;
  }

  unfoldable pub with_tweak_list_options : Option TweakListOptionsFunc → SharedInformerOption C I
  with_tweak_list_options tweak factory = record factory { tweak_list_options = tweak }

  unfoldable pub with_namespace : Text → SharedInformerOption C I
  with_namespace namespace factory = record factory { namespace = namespace }

  unfoldable pub apply_options : List (SharedInformerOption C I) → SharedInformerOption C I
  apply_options [] factory = factory
  apply_options (opt ∷ options) factory = apply_options options (opt factory)

  unfoldable pub new_shared_informer_factory_with_options :
      C → ℕ → List (SharedInformerOption C I) → SharedInformerFactory C I
  new_shared_informer_factory_with_options client default_resync options =
      apply_options options (record {
        client = client;
        namespace = namespace_all;
        tweak_list_options = none;
        default_resync = default_resync;
        custom_resync = [];
        informers = [];
        started_informers = [];
      })

  unfoldable pub new_shared_informer_factory : C → ℕ → SharedInformerFactory C I
  new_shared_informer_factory client default_resync =
      new_shared_informer_factory_with_options client default_resync []

  unfoldable pub new_filtered_shared_informer_factory :
      C → ℕ → Text → Option TweakListOptionsFunc → SharedInformerFactory C I
  new_filtered_shared_informer_factory client default_resync namespace tweak =
      new_shared_informer_factory_with_options client default_resync
        (with_namespace namespace ∷ with_tweak_list_options tweak ∷ [])

-- `m[k]` of a map to Booleans, which is false where the key is missing.
unfoldable pub is_set : Text → GoMap Bool → Bool
is_set k m = elim (lookup k m) [ none ↦ false | some b ↦ b ]

module _ {I : Type 0} where
  -- The loop of `Start`: the informers that it starts to run, each with its type, and the table of
  -- the started ones after it.
  unfoldable pub start_each : GoMap I → GoMap Bool → GoMap I × GoMap Bool
  start_each [] started = ([], started)
  start_each ((informer_type, informer) ∷ informers) started =
      let is_started = is_set informer_type started in
      let rest =
        start_each informers (if is_started then started else insert informer_type true started) in
      (if is_started then rest.0 else (informer_type, informer) ∷ rest.0, rest.1)

  -- The loop that copies the started informers.
  unfoldable pub copy_started : GoMap I → GoMap Bool → GoMap I → GoMap I
  copy_started [] started copied = copied
  copy_started ((informer_type, informer) ∷ informers) started copied =
      copy_started informers started
        (if is_set informer_type started then insert informer_type informer copied else copied)

  -- The loop that waits for the copied informers, one after the other. `wait` is
  -- `cache.WaitForCacheSync(stopCh, informer.HasSynced)`.
  unfoldable pub wait_for_each :
      {S : Type 0} → (wait : I → S → Bool × S) → GoMap I → GoMap Bool → S → GoMap Bool × S
  wait_for_each wait [] res s = (res, s)
  wait_for_each wait ((inform_type, informer) ∷ informers) res s =
      let answer = wait informer s in
      wait_for_each wait informers (insert inform_type answer.0 res) answer.1

module _ {C I : Type 0} where
  unfoldable pub start : SharedInformerFactory C I → GoMap I × SharedInformerFactory C I
  start f =
      let looped = start_each f.informers f.started_informers in
      (looped.0, record f { started_informers = looped.1 })

  unfoldable pub wait_for_cache_sync :
      {S : Type 0} → (wait : I → S → Bool × S) → SharedInformerFactory C I → S → GoMap Bool × S
  wait_for_cache_sync wait f s =
      wait_for_each wait (copy_started f.informers f.started_informers []) [] s

module _ {C I : Type 0} where
  -- The period with which an informer of the type is made.
  unfoldable pub resync_period : SharedInformerFactory C I → Text → ℕ
  resync_period f informer_type = elim (lookup informer_type f.custom_resync) [
    | some period ↦ period
    | none ↦ f.default_resync
  ]

-- `internalinterfaces.NewInformerFunc`
abbrev pub NewInformerFunc : Type 0 → Type 0 → Type 0 → Type 0
NewInformerFunc C S I = C → ℕ → S → I × S

module _ {C I S : Type 0} where
  unfoldable pub informer_for :
      Text
      → NewInformerFunc C S I
      → SharedInformerFactory C I × S
      → I × (SharedInformerFactory C I × S)
  informer_for informer_type new_func w = elim (lookup informer_type w.0.informers) [
    | some informer ↦ (informer, w)
    | none ↦
        let made = new_func w.0.client (resync_period w.0 informer_type) w.1 in
        (made.0, (record w.0 { informers = insert informer_type made.0 w.0.informers }, made.1))
  ]
