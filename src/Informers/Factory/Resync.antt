-- ===== src/Informers/Factory/Resync.antt =====
-- The client and the period that a new informer is made with.
use mathlib.Core.Path.{ap₂}
use job_deploy_operator.Base.{
  ℕ, Text, text_eq, GoMap, IsMap, lookup, lookup-copy_into, prefer, ◌≡◌, refl, ap, ◌∙◌, inl, inr,
  Option, none, some, Option-cases, List, [], ◌∷◌,
}
use job_deploy_operator.Informers.Cache.{TweakListOptionsFunc}
use job_deploy_operator.Informers.Factory.{
  SharedInformerFactory, by_type, with_custom_resync_config, with_namespace,
  with_tweak_list_options, apply_options, new_shared_informer_factory_with_options, NewInformerFunc,
  start, resync_period, informer_for,
}
use job_deploy_operator.Informers.Factory.Shared.{
  Step, request, starts, elsewhere, Steps, here, next,
}

module _ {C I : Type 0} where
  -- What no request and no start changes.
  record Same (f f' : SharedInformerFactory C I) : Type 0 where
    client : f'.client ≡ f.client
    default : f'.default_resync ≡ f.default_resync
    custom : f'.custom_resync ≡ f.custom_resync

  Same-refl : (f : SharedInformerFactory C I) → Same f f
  Same-refl f = record { client = refl; default = refl; custom = refl }

module _ {C I S : Type 0} where
  Step-Same :
      (w : SharedInformerFactory C I × S) (runs : GoMap I) (w' : SharedInformerFactory C I × S)
      → Step w runs w'
      → Same w.0 w'.0
  unfolding informer_for start
  Step-Same _ _ _ (request t new_func f s) = elim (Option-cases (lookup t f.informers)) [
    | inl q ↦ rw (q, informer_for) (record { client = refl; default = refl; custom = refl })
    | inr (i, q) ↦ rw (q, informer_for) (Same-refl f)
  ]
  Step-Same _ _ _ (starts f s) = record { client = refl; default = refl; custom = refl }
  Step-Same _ _ _ (elsewhere f s s') = Same-refl f

  informer_for-new :
      (t : Text) (new_func : NewInformerFunc C S I) (w : SharedInformerFactory C I × S)
      → lookup t w.0.informers ≡ none
      → let made = new_func w.0.client (resync_period w.0 t) w.1 in
        ((informer_for t new_func w).0 ≡ made.0) × ((informer_for t new_func w).1.1 ≡ made.1)
  unfolding informer_for
  informer_for-new t new_func w absent = rw (absent, informer_for) (refl, refl)

  Steps-Same :
      (w : SharedInformerFactory C I × S) (runs : GoMap I) (w' : SharedInformerFactory C I × S)
      → Steps w runs w'
      → Same w.0 w'.0
  Steps-Same _ _ _ (here w) = Same-refl w.0
  Steps-Same _ _ _ (next w w' w'' before runs steps step) =
      let a = Steps-Same w before w' steps in
      let b = Step-Same w' runs w'' step in
      record {
        client = b.client ∙ a.client;
        default = b.default ∙ a.default;
        custom = b.custom ∙ a.custom;
      }

-- A period that may be missing, or the default one.
abbrev pub or_default : Option ℕ → ℕ → ℕ
or_default none default = default
or_default (some period) default = period

prefer-none : {A : Type 0} (o : Option A) → prefer o none ≡ o
prefer-none none = refl
prefer-none (some a) = refl

resync_period-or_default :
    {C I : Type 0} (f : SharedInformerFactory C I) (t : Text)
    → resync_period f t ≡ or_default (lookup t f.custom_resync) f.default_resync
unfolding resync_period
resync_period-or_default f t = elim (Option-cases (lookup t f.custom_resync)) [
  | inl q ↦ rw (q, resync_period) refl
  | inr (period, q) ↦ rw (q, resync_period) refl
]

-- Let the configured periods be for objects of different types. Whatever happened since to a factory
-- that was made with these periods, a namespace and a filter: the first request for a type makes its
-- informer with the factory's client, and with the period that is configured for the type, or with
-- the default period if there is none.
pub first_informer_period :
    {C I S O : Type 0} (type_of : O → Text) (resync_config : List (O × ℕ)) (client : C)
    (default_resync : ℕ) (namespace : Text) (tweak : Option TweakListOptionsFunc) (s : S)
    (w : SharedInformerFactory C I × S) (runs : GoMap I) (t : Text)
    (new_func : NewInformerFunc C S I)
    → let options =
        with_custom_resync_config type_of resync_config
        ∷ with_namespace namespace
        ∷ with_tweak_list_options tweak
        ∷ [] in
      IsMap (by_type type_of resync_config)
      → Steps (new_shared_informer_factory_with_options client default_resync options, s) runs w
      → lookup t w.0.informers ≡ none
      → let made =
          new_func client
            (or_default (lookup t (by_type type_of resync_config)) default_resync)
            w.1 in
        ((informer_for t new_func w).0 ≡ made.0) × ((informer_for t new_func w).1.1 ≡ made.1)
unfolding with_custom_resync_config with_namespace with_tweak_list_options apply_options
    new_shared_informer_factory_with_options
first_informer_period type_of resync_config client default_resync namespace tweak s w runs t
      new_func h steps absent =
    let periods = by_type type_of resync_config in
    let same = Steps-Same _ runs w steps in
    let found : lookup t w.0.custom_resync ≡ prefer (lookup t periods) none =
      ap (lookup t) same.custom ∙ unfold lookup in lookup-copy_into t periods [] h in
    let configured : lookup t w.0.custom_resync ≡ lookup t periods =
      found ∙ prefer-none (lookup t periods) in
    let period : resync_period w.0 t ≡ or_default (lookup t periods) default_resync =
      resync_period-or_default w.0 t ∙ ap₂ or_default configured same.default in
    let (informer, state) = informer_for-new t new_func w absent in
    let made = ap₂ (λ c p. new_func c p w.1) same.client period in
    (informer ∙ ap (λ r. r.0) made, state ∙ ap (λ r. r.1) made)
