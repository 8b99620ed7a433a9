-- ===== src/Informers/Factory/Shared.antt =====
-- What happens to a factory, as steps, and that an informer that was made stays the one of its type.
use job_deploy_operator.Base.{
  Text, text_eq, GoMap, lookup, lookup-insert, ◌≡◌, refl, sym, ap, subst, ◌∙◌, some, Option-cases,
  [], ◌++◌, ◌==◌, eq_refl, eq_of_beq, Bool-cases, if◌then◌else◌, arith, inl, inr,
}
use job_deploy_operator.Informers.Factory.{
  SharedInformerFactory, NewInformerFunc, start, resync_period, informer_for,
}

module _ {C I S : Type 0} where
  -- A step of a factory and the rest of the process, with the informers that it starts to run: a
  -- request for an informer, a start, or anything that leaves the factory alone.
  pub data Step
      : SharedInformerFactory C I × S → GoMap I → SharedInformerFactory C I × S → Type 0 where
    request :
        (informer_type : Text) (new_func : NewInformerFunc C S I) (f : SharedInformerFactory C I)
        (s : S)
        → Step (f, s) [] (informer_for informer_type new_func (f, s)).1
    starts : (f : SharedInformerFactory C I) (s : S) → Step (f, s) (start f).0 ((start f).1, s)
    elsewhere : (f : SharedInformerFactory C I) (s s' : S) → Step (f, s) [] (f, s')

  pub data Steps
      : SharedInformerFactory C I × S → GoMap I → SharedInformerFactory C I × S → Type 0 where
    here : (w : SharedInformerFactory C I × S) → Steps w [] w
    next :
        (w w' w'' : SharedInformerFactory C I × S) (before runs : GoMap I)
        → Steps w before w'
        → Step w' runs w''
        → Steps w (before ++ runs) w''

  pub informer_for-found :
      (t : Text) (new_func : NewInformerFunc C S I) (w : SharedInformerFactory C I × S) (i : I)
      → lookup t w.0.informers ≡ some i
      → informer_for t new_func w ≡ (i, w)
  unfolding informer_for
  informer_for-found t new_func w i q = rw (q, informer_for) refl

  -- The informer of a request is in the table after it, and the table changes at no other type.
  pub informer_for-table :
      (t : Text) (new_func : NewInformerFunc C S I) (w : SharedInformerFactory C I × S) (k : Text)
      → let r = informer_for t new_func w in
        lookup k r.1.0.informers ≡ (if t == k then some r.0 else lookup k w.0.informers)
  unfolding informer_for
  informer_for-table t new_func w k = elim (Option-cases (lookup t w.0.informers)) [
    | inl q ↦
        let made = new_func w.0.client (resync_period w.0 t) w.1 in
        rw (q, informer_for) (lookup-insert t k made.0 w.0.informers)
    | inr (i, q) ↦ elim (Bool-cases (t == k)) [
      | inl e ↦
          let p = subst (λ x. lookup x w.0.informers ≡ some i) (eq_of_beq {A = Text} t k e) q in
          rw (q, informer_for, e) p
      | inr e ↦ rw (q, informer_for, e) refl
    ]
  ]

  pub Step-keeps :
      (w : SharedInformerFactory C I × S) (runs : GoMap I) (w' : SharedInformerFactory C I × S)
      → Step w runs w'
      → (t : Text) (i : I) → lookup t w.0.informers ≡ some i
      → lookup t w'.0.informers ≡ some i
  unfolding start
  Step-keeps _ _ _ (request k new_func f s) t i q =
      let table = informer_for-table k new_func (f, s) t in
      elim (Bool-cases (k == t)) [
        | inl e ↦
            let there = subst (λ x. lookup x f.informers ≡ some i) (sym (eq_of_beq k t e)) q in
            let same = informer_for-found k new_func (f, s) i there in
            ap (λ r. lookup t r.1.0.informers) same ∙ q
        | inr e ↦ ground (arith, table, e, q)
      ]
  Step-keeps _ _ _ (starts f s) t i q = q
  Step-keeps _ _ _ (elsewhere f s s') t i q = q

  pub Steps-keep :
      (w : SharedInformerFactory C I × S) (runs : GoMap I) (w' : SharedInformerFactory C I × S)
      → Steps w runs w'
      → (t : Text) (i : I) → lookup t w.0.informers ≡ some i
      → lookup t w'.0.informers ≡ some i
  Steps-keep _ _ _ (here w) t i q = q
  Steps-keep _ _ _ (next w w' w'' before runs steps step) t i q =
      Step-keeps w' runs w'' step t i (Steps-keep w before w' steps t i q)

  -- Whatever happens to the factory after `InformerFor` was called for a type: the next call for
  -- the type returns the same informer, makes no other one and changes nothing.
  pub one_informer_per_type :
      (t : Text) (new_func new_func' : NewInformerFunc C S I) (w w' : SharedInformerFactory C I × S)
      (runs : GoMap I)
      → Steps (informer_for t new_func w).1 runs w'
      → informer_for t new_func' w' ≡ ((informer_for t new_func w).0, w')
  one_informer_per_type t new_func new_func' w w' runs steps =
      let r = informer_for t new_func w in
      let stored : lookup t r.1.0.informers ≡ some r.0 =
        rw (informer_for-table t new_func w t, eq_refl t) refl in
      informer_for-found t new_func' w' r.0 (Steps-keep r.1 runs w' steps t r.0 stored)
