-- ===== src/Clientset/Fake/Simple/Refused.antt =====
-- Which objects a fake clientset can be made with.
use job_deploy_operator.Base.{
  Text, text_eq, ◌≡◌, inl, inr, Bool, true, false, List, [], ◌∷◌, Any, Any-map, none, some, arith,
}
use job_deploy_operator.Api.Kube.{Error, err}
use job_deploy_operator.Api.Scheme.{Scheme}
use job_deploy_operator.Api.JobFlow.Register.{job_flow_type, job_flow_list_type}
use job_deploy_operator.Controller.Trace.{Result-cases}
use job_deploy_operator.Clientset.Schemes.{init}
use job_deploy_operator.Clientset.Schemes.Known.{is_one_of, IsRecording, init-recognizes}
use job_deploy_operator.Clientset.Fake.Simple.{Tracking, add_each, new_simple_clientset}

module _ {S O T W : Type 0} (tracking : Tracking S O T W) where
  -- `ObjectTracker.Add` needs the kind of an object, which the scheme has if it knows the type.
  abbrev pub Refuses : S → O → Type 0
  Refuses scheme obj = (t : T) → (e : Error) × ((tracking.add scheme obj t).0 ≡ err e)

  add_each-refused :
      (scheme : S) (objects : List O) (t : T)
      → Any (Refuses scheme) objects
      → add_each tracking scheme objects t ≡ none
  unfolding add_each
  add_each-refused scheme (obj ∷ objects) t (inl refuses) =
      let (e, q) = refuses t in ground (arith, q)
  add_each-refused scheme (obj ∷ objects) t (inr later) =
      let added = tracking.add scheme obj t in
      elim (Result-cases added.0) [
        | inr (e, q) ↦ ground (arith, q)
        | inl (u, q) ↦
            let rest = add_each-refused scheme objects added.1 later in ground (arith, q, rest)
      ]
  add_each-refused scheme [] t h = absurd h

module _ {S O T W : Type 0} (tracking : Tracking S O T W) (scheme : Scheme S)
    (recognizes : Text → S → Bool) (is_meta : Text → Bool) (type_of : O → Text)
    (is_single : O → Bool) (recording : IsRecording scheme recognizes is_meta)
    (refuses : (s : S) (obj : O)
      → is_single obj ≡ true
      → recognizes (type_of obj) s ≡ false
      → Refuses tracking s obj) where
  -- A single object of another type than JobFlows, not known to the scheme and not of meta/v1.
  abbrev pub IsForeign : S → O → Type 0
  IsForeign s obj =
      (is_single obj ≡ true)
      × (is_meta (type_of obj) ≡ false)
      × (is_one_of (type_of obj) (job_flow_type ∷ job_flow_list_type ∷ []) ≡ false)
      × (recognizes (type_of obj) s ≡ false)

  -- Call an object single if it is neither a list nor unstructured. If a scheme knows the types that
  -- were added to it, and a tracker refuses a single object whose type its scheme does not know, then
  -- the scheme of the fake clientset is set up without a panic, and NewSimpleClientset panics if one
  -- of its objects is single and no JobFlow, and its type is neither one of a group version nor one
  -- that the scheme knew before.
  pub foreign_objects_are_refused :
      (s : S) (objects : List O)
      → Any (IsForeign s) objects
      → (s' : S) × (init scheme s ≡ some s') × (new_simple_clientset tracking s' objects ≡ none)
  unfolding new_simple_clientset
  foreign_objects_are_refused s objects h =
      let (s', set_up, known) = init-recognizes scheme recognizes is_meta recording s in
      let unknown : (obj : O) → IsForeign s obj → Refuses tracking s' obj = λ obj foreign.
        let (single, plain, other, new) = foreign in
        refuses s' obj single (ground (arith, known (type_of obj) plain, other, new)) in
      let stops =
        add_each-refused tracking s' objects (tracking.new_object_tracker s')
          (Any-map (IsForeign s) (Refuses tracking s') unknown objects h) in
      (s', set_up, ground (arith, stops))
