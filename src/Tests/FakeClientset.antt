-- ===== src/Tests/FakeClientset.antt =====
-- A scheme that is a list of types, and a tracker that is a list of objects, each its own type.
use job_deploy_operator.Base.{
  true, Text, text_eq, text_beq, codes, ◌≡◌, refl, inl, inr, false, Bool-cases, ◌||◌, List, [], ◌∷◌,
  ◌++◌, ◌==◌, if◌then◌else◌, Option, none, some,
}
use job_deploy_operator.Api.Kube.{Result, ok, err}
use job_deploy_operator.Api.Scheme.{Scheme}
use job_deploy_operator.Api.JobFlow.Register.{job_flow_type, job_flow_list_type}
use job_deploy_operator.Clientset.Schemes.{init}
use job_deploy_operator.Clientset.Schemes.Known.{is_one_of, IsRecording}
use job_deploy_operator.Clientset.Fake.Simple.{Tracking, Clientset, new_simple_clientset}
use job_deploy_operator.Clientset.Fake.Simple.Refused.{Refuses, foreign_objects_are_refused}
use job_deploy_operator.Tests.Cluster.{missing}

abbrev types : Scheme (List Text)
types = record { add_known_types = λ gv ts s. ts ++ s; add_to_group_version = λ gv s. s }

abbrev add : List Text → Text → List Text → Result (Unit {0}) × List Text
add s obj t = if is_one_of obj s then (ok tt, obj ∷ t) else (err missing, t)

abbrev objects : Tracking (List Text) Text (List Text) (Unit {0})
objects = record {
  new_object_tracker = λ s. [];
  add = add;
  watch = λ r ns t. (err missing, t);
  object_reaction = λ s action t. ((false, none, none), t);
}

is_one_of-append :
    (t : Text) (xs ys : List Text) → is_one_of t (xs ++ ys) ≡ (is_one_of t xs || is_one_of t ys)
is_one_of-append t [] ys = refl
is_one_of-append t (x ∷ xs) ys = elim (Bool-cases (t == x)) [
  | inl h ↦ rw h refl
  | inr h ↦ rw h (is_one_of-append t xs ys)
]

types-IsRecording : IsRecording types is_one_of (λ t. false)
types-IsRecording = record {
  adds = λ gv ts t s. is_one_of-append t ts s;
  groups = λ gv t s plain. refl;
}

unknown_refused : (s : List Text) (obj : Text) → is_one_of obj s ≡ false → Refuses objects s obj
unknown_refused s obj unknown t = (missing, rw unknown refl)

abbrev daemon_job : Text
daemon_job = codes "pkg/apis/daemonjob/v1alpha1.DaemonJob"

abbrev known : List Text
known = job_flow_type ∷ job_flow_list_type ∷ []

abbrev held : Option (Clientset Text (List Text) (Unit {0})) → List Text
held none = []
held (some c) = c.tracker

-- A JobFlow is held.
job_flow_held : held (new_simple_clientset objects known (job_flow_type ∷ [])) ≡ job_flow_type ∷ []
unfolding new_simple_clientset text_beq
job_flow_held = refl

foreign_objects_are_refused_example :
    (s' : List Text) × (init types [] ≡ some s')
    × (new_simple_clientset objects s' (job_flow_type ∷ daemon_job ∷ []) ≡ none)
unfolding text_beq
foreign_objects_are_refused_example =
    foreign_objects_are_refused objects types is_one_of (λ t. false) (λ obj. obj) (λ obj. true)
      types-IsRecording (λ s obj single. unknown_refused s obj) [] (job_flow_type ∷ daemon_job ∷ [])
      (inr (inl (refl, refl, refl, refl)))
