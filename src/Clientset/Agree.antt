-- ===== src/Clientset/Agree.antt =====
-- What a request of client-go asks for, as the action that a fake records for it.
pub mod JobFlows
pub mod DaemonJobs
pub mod JobTemplates
pub mod Fakes
use job_deploy_operator.Base.{
  Text, text_eq, GoMap, Bool, true, false, List, [], ◌∷◌, Option, none, some, IsSelection, ◌≡◌, ◌↔◌,
  refl, sym, ap, ◌∙◌, ◌==◌, if◌then◌else◌,
}
use job_deploy_operator.Api.Kube.{Error, Result, ok, err}
use job_deploy_operator.Clientset.Rest.{
  ListOptions, Params, list_params, Body, object, bytes, Verb, get_verb, post_verb, put_verb,
  delete_verb, patch_verb, Request, Rest,
}
use job_deploy_operator.Clientset.Testing.{
  Resource, Kind, TestAction, get_action, list_action, watch_action, create_action, update_action,
  update_subresource_action, delete_action, delete_collection_action, patch_action, Fake, returned,
  error_of,
}

-- The error of an answer, if it has one, is returned, and nothing else.
pub record IsErrorOf {S B : Type 0} (answer : (Option B × Option Error) × S)
    (faked : Result (Unit {0}) × S) : Type 0 where
  pub state : faked.1 ≡ answer.1
  pub fine : (faked.0 ≡ ok tt) ↔ (answer.0.1 ≡ none)
  pub error : (e : Error) → (faked.0 ≡ err e) ↔ (answer.0.1 ≡ some e)

module _ {A : Type 0} (name_of : A → Text) (r : Resource) (k : Kind) where
  abbrev read_list : Text → Params → Option (TestAction A)
  read_list ns (list_params opts) = some (list_action r k ns opts)
  read_list ns _ = none

  abbrev read_get : Text → Option Text → Params → Option (TestAction A)
  read_get ns none ps = read_list ns ps
  read_get ns (some name) _ = some (get_action r ns name)

  abbrev read_post : Text → Body A → Option (TestAction A)
  read_post ns (object a) = some (create_action r ns a)
  read_post ns _ = none

  abbrev update_for : Text → List Text → A → TestAction A
  update_for ns [] a = update_action r ns a
  update_for ns (subresource ∷ _) a = update_subresource_action r subresource ns a

  -- An update must name its object.
  abbrev read_put : Text → Option Text → List Text → Body A → Option (TestAction A)
  read_put ns (some name) subresources (object a) =
      if name == name_of a then some (update_for ns subresources a) else none
  read_put ns _ subresources _ = none

  abbrev read_delete : Text → Option Text → Params → Option (TestAction A)
  read_delete ns (some name) _ = some (delete_action r ns name)
  read_delete ns none (list_params opts) = some (delete_collection_action r ns opts)
  read_delete ns none _ = none

  abbrev read_patch : Text → Option Text → Text → List Text → Body A → Option (TestAction A)
  read_patch ns (some name) pt subresources (bytes content) =
      some (patch_action r ns name pt content subresources)
  read_patch ns _ pt subresources _ = none

  abbrev read_verb : Request A → Verb → Option (TestAction A)
  read_verb q get_verb = read_get q.namespace q.name q.params
  read_verb q post_verb = read_post q.namespace q.body
  read_verb q put_verb = read_put q.namespace q.name q.subresources q.body
  read_verb q delete_verb = read_delete q.namespace q.name q.params
  read_verb q (patch_verb pt) = read_patch q.namespace q.name pt q.subresources q.body

  -- The action that a request asks for, if it is one for this resource.
  abbrev pub read : Request A → Option (TestAction A)
  read q = if q.resource == r.resource then read_verb q q.verb else none

  -- The client sends one request, the fake records the action, and the request asks for the action;
  -- both return the answer as it is.
  abbrev pub SameObject :
      {S L W : Type 0}
      → Rest S A L W
      → Fake S A L W
      → TestAction A
      → S
      → Result A × S
      → (Option A × Option Error) × S
      → Type 0
  SameObject client fake a s real faked =
      (q : Request A) × (read q ≡ some a)
      × (real ≡ client.into_object q s)
      × (faked ≡ fake.invokes a s)

  -- The same for a watch, which the request asks for as a list with a flag.
  abbrev pub SameWatch :
      {S L W : Type 0}
      → Rest S A L W
      → Fake S A L W
      → Text
      → ListOptions
      → S
      → Result W × S
      → Result W × S
      → Type 0
  SameWatch client fake ns opts s real faked =
      (q : Request A) × (read q ≡ some (list_action r k ns (record opts { watch = true })))
      × (real ≡ client.watch q s)
      × (faked ≡ fake.invokes_watch (watch_action r ns opts) s)

  -- The same for a deletion, of which only the error is returned.
  abbrev pub SameError :
      {S L W B : Type 0}
      → Rest S A L W
      → TestAction A
      → (Option B × Option Error) × S
      → S
      → Result (Unit {0}) × S
      → Result (Unit {0}) × S
      → Type 0
  SameError client a answer s real faked =
      (q : Request A) × (read q ≡ some a) × (real ≡ client.error q s) × IsErrorOf answer faked

  -- What the fake makes of a list: with the same metadata, the items whose labels match, in order.
  abbrev pub IsNarrowed :
      {S L : Type 0}
      → (L → Text)
      → (L → List A)
      → (A → Bool)
      → (answer faked : (Option L × Option Error) × S) → Type 0
  IsNarrowed list_meta items_of matches ((none, e), s) faked = faked ≡ ((none, e), s)
  IsNarrowed {S} {L} list_meta items_of matches ((some l, e), s) faked =
      (l' : L) × (faked ≡ ((some l', e), s))
      × (list_meta l' ≡ list_meta l)
      × IsSelection (λ item. matches item ≡ true) (items_of l) (items_of l')

  abbrev pub SameList :
      {S L W : Type 0}
      → (L → Text)
      → (L → List A)
      → (A → Bool)
      → Rest S A L W
      → Fake S A L W
      → Text
      → ListOptions
      → S
      → Result L × S
      → (Option L × Option Error) × S
      → Type 0
  SameList list_meta items_of matches client fake ns opts s real faked =
      (q : Request A) × (read q ≡ some (list_action r k ns opts))
      × (real ≡ client.into_list q s)
      × IsNarrowed list_meta items_of matches (fake.invokes_list (list_action r k ns opts) s) faked

-- A label selector of the options, or all labels.
abbrev pub matches_labels :
    {S A L W : Type 0} → Fake S A L W → ListOptions → Option (GoMap Text) → Bool
matches_labels fake opts labels = elim (fake.label_of opts) [
  | none ↦ fake.everything labels
  | some selector ↦ selector labels
]

pub returned_lem : {S A : Type 0} (x : (Option A × Option Error) × S) → returned x ≡ x
returned_lem ((none, e), s) = refl
returned_lem ((some a, e), s) = refl

pub error_of_lem :
    {S A : Type 0} (answer : (Option A × Option Error) × S) → IsErrorOf answer (error_of answer)
error_of_lem ((a, none), s) = record {
  state = refl;
  fine = (λ h. refl, λ h. refl);
  error = λ e. (λ h. cc, λ h. cc);
}
error_of_lem ((a, some e), s) = record {
  state = refl;
  fine = (λ h. cc, λ h. cc);
  error = λ e. (λ h. cc, λ h. cc);
}
