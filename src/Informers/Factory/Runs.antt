-- ===== src/Informers/Factory/Runs.antt =====
-- Which informers a factory has started to run.
use job_deploy_operator.Base.{
  Text, text_eq, text_beq_iff, GoMap, IsMap, IsMap-insert, IsMap-append, lookup, insert,
  lookup-insert, lookup-append, ◌≡◌, refl, subst, ◌⊎◌, inl, inr, Bool, true, false, ◌||◌,
  Bool-cases, Option, none, some, Option-cases, [], ◌∷◌, ◌++◌, append-nil, ◌==◌, if◌then◌else◌,
  arith,
}
use job_deploy_operator.Informers.Factory.{
  SharedInformerFactory, NewInformerFunc, is_set, start_each, start, resync_period, informer_for,
}
use job_deploy_operator.Informers.Factory.Shared.{
  Step, request, starts, elsewhere, Steps, here, next, Step-keeps,
}

abbrev has : {I : Type 0} → Option I → Bool
has none = false
has (some i) = true

is_set-insert :
    (new key : Text) (m : GoMap Bool)
    → is_set key (insert new true m) ≡ (if new == key then true else is_set key m)
unfolding is_set
is_set-insert new key m = rw (is_set, lookup-insert new key true m) (ground arith)

module _ {I : Type 0} where
  -- The loop starts the informers whose types are not in the table yet.
  lookup-start_each :
      (m : GoMap I) (started : GoMap Bool) (k : Text)
      → lookup k (start_each m started).0 ≡ (if is_set k started then none else lookup k m)
  unfolding start_each lookup
  lookup-start_each [] started k = ground arith
  lookup-start_each ((t, i) ∷ m) started k = elim (Bool-cases (is_set t started)) [
    | inl e ↦ ground (arith, e, lookup-start_each m started k, text_beq_iff t k)
    | inr e ↦ ground (
      arith,
      e,
      lookup-start_each m (insert t true started) k,
      is_set-insert t k started,
      text_beq_iff t k,
    )
  ]

  is_set-start_each :
      (m : GoMap I) (started : GoMap Bool) (k : Text)
      → is_set k (start_each m started).1 ≡ (is_set k started || has (lookup k m))
  unfolding start_each lookup
  is_set-start_each [] started k = ground arith
  is_set-start_each ((t, i) ∷ m) started k = elim (Bool-cases (is_set t started)) [
    | inl e ↦ ground (arith, e, is_set-start_each m started k, text_beq_iff t k)
    | inr e ↦ ground (
      arith,
      e,
      is_set-start_each m (insert t true started) k,
      is_set-insert t k started,
      text_beq_iff t k,
    )
  ]

  IsMap-start_each : (m : GoMap I) (started : GoMap Bool) → IsMap m → IsMap (start_each m started).0
  unfolding start_each
  IsMap-start_each [] started h = tt
  IsMap-start_each ((t, i) ∷ m) started (fresh, h) = elim (Bool-cases (is_set t started)) [
    | inl e ↦ rw e (IsMap-start_each m started h)
    | inr e ↦
        let started' = insert t true started in
        let missing : lookup t (start_each m started').0 ≡ none =
          ground (arith, lookup-start_each m started' t, fresh) in
        rw e (missing, IsMap-start_each m started' h)
  ]

module _ {C I : Type 0} where
  -- A factory from which no informer has been requested.
  abbrev pub IsFresh : SharedInformerFactory C I → Type 0
  IsFresh f = (f.informers ≡ []) × (f.started_informers ≡ [])

  -- The informers that run are those of the started types, each of which has one.
  pub record Running (f : SharedInformerFactory C I) (runs : GoMap I) : Type 0 where
    pub table : IsMap f.informers
    pub once : IsMap runs
    pub exactly :
        (t : Text)
        → lookup t runs ≡ (if is_set t f.started_informers then lookup t f.informers else none)
    pub requested :
        (t : Text) → is_set t f.started_informers ≡ true → (i : I) × (lookup t f.informers ≡ some i)

  start-Running :
      (f : SharedInformerFactory C I) (runs : GoMap I)
      → Running f runs
      → Running (start f).1 (runs ++ (start f).0)
        × ((t : Text) → lookup t (runs ++ (start f).0) ≡ lookup t f.informers)
  unfolding start
  start-Running f runs r =
      let started = f.started_informers in
      let new = start_each f.informers started in
      let both = λ (t : Text). lookup-append t runs new.0 in
      let found = λ (t : Text). lookup-start_each f.informers started t in
      let marked = λ (t : Text). is_set-start_each f.informers started t in
      let all : (t : Text) → lookup t (runs ++ new.0) ≡ lookup t f.informers = λ t.
        elim (Bool-cases (is_set t started)) [
          | inl e ↦
              let (i, q) = r.requested t e in ground (arith, e, q, both t, r.exactly t, found t)
          | inr e ↦ ground (arith, e, both t, r.exactly t, found t)
        ] in
      let apart : (t : Text) → (lookup t runs ≡ none) ⊎ (lookup t new.0 ≡ none) = λ t.
        elim (Bool-cases (is_set t started)) [
          | inl e ↦ inr (ground (arith, e, found t))
          | inr e ↦ inl (ground (arith, e, r.exactly t))
        ] in
      let has_one : (t : Text) → is_set t new.1 ≡ true → (i : I) × (lookup t f.informers ≡ some i) =
        λ t h. elim (Option-cases (lookup t f.informers)) [
          | inr found_one ↦ found_one
          | inl q ↦ elim (Bool-cases (is_set t started)) [
            | inl e ↦ r.requested t e
            | inr e ↦ absurd (ground (arith, h, q, e, marked t))
          ]
        ] in
      (
        record {
          table = r.table;
          once =
              IsMap-append runs new.0 r.once (IsMap-start_each f.informers started r.table) apart;
          exactly = λ t. elim (Option-cases (lookup t f.informers)) [
            | inr (i, q) ↦ ground (arith, q, marked t, all t)
            | inl q ↦ ground (arith, q, marked t, all t)
          ];
          requested = has_one;
        },
        all,
      )

module _ {C I S : Type 0} where
  informer_for-IsMap :
      (t : Text) (new_func : NewInformerFunc C S I) (w : SharedInformerFactory C I × S)
      → IsMap w.0.informers
      → IsMap (informer_for t new_func w).1.0.informers
  unfolding informer_for
  informer_for-IsMap t new_func w h = elim (Option-cases (lookup t w.0.informers)) [
    | inl q ↦
        let made = new_func w.0.client (resync_period w.0 t) w.1 in
        rw (q, informer_for) (IsMap-insert t made.0 w.0.informers h)
    | inr (i, q) ↦ rw (q, informer_for) h
  ]

  informer_for-started :
      (t : Text) (new_func : NewInformerFunc C S I) (w : SharedInformerFactory C I × S)
      → (informer_for t new_func w).1.0.started_informers ≡ w.0.started_informers
  unfolding informer_for
  informer_for-started t new_func w = elim (Option-cases (lookup t w.0.informers)) [
    | inl q ↦ rw (q, informer_for) refl
    | inr (i, q) ↦ rw (q, informer_for) refl
  ]

  Step-Running :
      (w : SharedInformerFactory C I × S) (new : GoMap I) (w' : SharedInformerFactory C I × S)
      → Step w new w'
      → (runs : GoMap I) → Running w.0 runs
      → Running w'.0 (runs ++ new)
  Step-Running _ _ _ (request k new_func f s) runs r =
      let w' = (informer_for k new_func (f, s)).1 in
      let same = informer_for-started k new_func (f, s) in
      let keeps = Step-keeps (f, s) [] w' (request k new_func f s) in
      rw append-nil (record {
        table = informer_for-IsMap k new_func (f, s) r.table;
        once = r.once;
        exactly = λ t. rw same (elim (Bool-cases (is_set t f.started_informers)) [
          | inl e ↦ let (i, q) = r.requested t e in ground (arith, e, q, keeps t i q, r.exactly t)
          | inr e ↦ ground (arith, e, r.exactly t)
        ]);
        requested = λ t h.
            let (i, q) = r.requested t (subst (λ m. is_set t m ≡ true) same h) in (i, keeps t i q);
      })
  Step-Running _ _ _ (starts f s) runs r = (start-Running f runs r).0
  Step-Running _ _ _ (elsewhere f s s') runs r = rw append-nil r

  pub Steps-Running :
      (w : SharedInformerFactory C I × S) (runs : GoMap I) (w' : SharedInformerFactory C I × S)
      → Steps w runs w'
      → IsFresh w.0
      → Running w'.0 runs
  Steps-Running _ _ _ (here w) (none_there, none_started) = record {
    table = rw none_there tt;
    once = tt;
    exactly = λ t. rw none_started (unfold lookup is_set in refl);
    requested = λ t. rw none_started (λ h. absurd (unfold lookup is_set in ground (arith, h)));
  }
  Steps-Running _ _ _ (next w w' w'' before runs steps step) fresh =
      Step-Running w' runs w'' step before (Steps-Running w before w' steps fresh)

  -- Whatever happened to a factory since it was made, requests and starts in any order: after one
  -- more `Start`, the informers that were started to run are exactly those that were requested, and
  -- that of each type was started once.
  pub each_runs_once :
      (w w' : SharedInformerFactory C I × S) (runs : GoMap I)
      → IsFresh w.0
      → Steps w runs w'
      → let all = runs ++ (start w'.0).0 in
        IsMap all × ((t : Text) → lookup t all ≡ lookup t w'.0.informers)
  each_runs_once w w' runs fresh steps =
      let (after, all) = start-Running w'.0 runs (Steps-Running w runs w' steps fresh) in
      (after.once, all)
