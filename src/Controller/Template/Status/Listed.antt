-- ===== src/Controller/Template/Status/Listed.antt =====
-- Which jobs a JobTemplate lists.
use mathlib.Core.Path.{ap₂}
use job_deploy_operator.Base.{
  Text, codes, IsSelection, select-IsSelection, GoMap, Option, Option-cases, text_eq, text_beq_iff,
  lookup, lookup-insert, eq_refl, prefer, ◌≡◌, refl, sym, ap, ◌∙◌, ◌≢◌, ◌⊎◌, ◌↔◌, inl, inr, true,
  Bool-cases, List, [], ◌∷◌, ◌++◌, map, none, some, arith,
}
use job_deploy_operator.Api.Kube.{is_not_found, Job, Result, ok}
use job_deploy_operator.Api.JobFlow.{Flow, JobFlow}
use job_deploy_operator.Api.JobTemplate.{JobTemplate}
use job_deploy_operator.Controller.Client.{Client, Call, Run, listed_jobs, updated_job_template}
use job_deploy_operator.Controller.Common.{
  create_by_job_template, get_connection_of_job_and_job_template,
}
use job_deploy_operator.Controller.Trace.{Result-cases}
use job_deploy_operator.Controller.Flow.Prepare.{prepare_job}
use job_deploy_operator.Controller.Flow.Prepare.Shape.{prepare_job-chosen, choose_spec-marked}
use job_deploy_operator.Controller.Flow.Prepare.Globals.{
  value_at, IsMapOrNil, assembled_annotations,
}
use job_deploy_operator.Controller.Flow.Reconcile.Updates.{IsTaken}
use job_deploy_operator.Controller.Template.Status.{
  find_in, annotation, is_job_of, filter_jobs, save_dependency_list, update_job_template,
}

annotation-value_at :
    (job : Job) (key v : Text)
    → value_at key job.metadata.annotations ≡ some v
    → annotation job key ≡ v
unfolding annotation
annotation-value_at job key v h = ground (arith, h)

is_job_of-mark :
    (t : JobTemplate) (job : Job) (mark : Text)
    → annotation job create_by_job_template ≡ mark
    → get_connection_of_job_and_job_template t.metadata.namespace t.metadata.name ≡ mark
    → is_job_of t job ≡ true
unfolding is_job_of
is_job_of-mark t job mark e f =
    (text_beq_iff (annotation job create_by_job_template)
        (get_connection_of_job_and_job_template t.metadata.namespace t.metadata.name)).1
      (e ∙ sym f)

-- If a job is prepared for a flow that names a template, and no global annotation (their map
-- holding no key twice) replaces the mark, the job carries the mark of this template, and the
-- JobTemplate of this name in the namespace of the JobFlow lists it.
pub prepared_job_is_listed :
    {S : Type 0} (client : Client S) (jf : JobFlow) (flow : Flow) (job_name : Text) (s : S)
    (job : Job) (t : JobTemplate)
    → (prepare_job client jf flow job_name s).value.0 ≡ ok job
    → flow.job_template_ref ≢ []
    → IsMapOrNil jf.spec.global_params.annotations
    → value_at create_by_job_template jf.spec.global_params.annotations ≡ none
    → t.metadata.namespace ≡ jf.metadata.namespace
    → t.metadata.name ≡ flow.job_template_ref
    → (annotation job create_by_job_template
        ≡ get_connection_of_job_and_job_template jf.metadata.namespace flow.job_template_ref)
      × (is_job_of t job ≡ true)
prepared_job_is_listed client jf flow job_name s job t prepared ref_given ha unset ns name =
    let (c, chosen, e) = prepare_job-chosen client jf flow job_name s job prepared in
    let marked = choose_spec-marked client jf flow job_name s c ref_given chosen in
    let key = create_by_job_template in
    let mark = get_connection_of_job_and_job_template jf.metadata.namespace flow.job_template_ref in
    let found : lookup key c.annotations ≡ some mark =
      ap (lookup key) marked ∙ lookup-insert key key mark [] ∙ rw (eq_refl {A = Text} key) in
    let at_key : value_at key job.metadata.annotations ≡ some mark =
      ap (λ j. value_at key j.metadata.annotations) e
      ∙ assembled_annotations jf flow job_name c key ha
      ∙ ap₂ prefer unset found in
    let first = annotation-value_at job key mark at_key in
    (first, is_job_of-mark t job mark first (ap₂ get_connection_of_job_and_job_template ns name))

-- The job has an annotation `createByJobTemplate` that joins the namespace and the name of the
-- JobTemplate with a dot.
abbrev pub CarriesMark : JobTemplate → Job → Type 0
CarriesMark t job =
    value_at (codes "createByJobTemplate") job.metadata.annotations
    ≡ some (t.metadata.namespace ++ codes "." ++ t.metadata.name)

mark-ne_nil : (ns name : Text) → [] ≢ ns ++ codes "." ++ name
mark-ne_nil [] name h = cc
mark-ne_nil (c ∷ ns) name h = cc

find_in-mark :
    (annotations : Option (GoMap Text)) (key mark : Text)
    → [] ≢ mark
    → (find_in key annotations ≡ mark) ↔ (value_at key annotations ≡ some mark)
find_in-mark none key mark ne = (λ h. absurd (ne h), λ h. cc)
find_in-mark (some m) key mark ne = elim (Option-cases (lookup key m)) [
  | inl q ↦ (λ h. ground (arith, q, h, ne), λ h. ground (arith, q, h))
  | inr (v, q) ↦ (λ h. ground (arith, q, h), λ h. ground (arith, q, h))
]

is_job_of-CarriesMark : (t : JobTemplate) (job : Job) → (is_job_of t job ≡ true) ↔ CarriesMark t job
unfolding is_job_of annotation create_by_job_template get_connection_of_job_and_job_template
is_job_of-CarriesMark t job =
    let key = codes "createByJobTemplate" in
    let mark = t.metadata.namespace ++ codes "." ++ t.metadata.name in
    let (same, equal) = text_beq_iff (find_in key job.metadata.annotations) mark in
    let (found, carried) =
      find_in-mark job.metadata.annotations key mark
        (mark-ne_nil t.metadata.namespace t.metadata.name) in
    (λ h. found (same h), λ h. equal (carried h))

-- The JobTemplate that lists these jobs.
abbrev pub listing : JobTemplate → List Job → JobTemplate
listing t jobs = record t {
  status = record { dependency_list = map (λ job. job.metadata.name) jobs };
}

-- What is made of the jobs that carry the mark of a JobTemplate, after the calls `before`: without
-- any nothing is written, so an older list stays; else one write, of exactly their names, in order,
-- and the result is an error exactly when the write is refused for another reason than that the
-- JobTemplate is gone.
abbrev pub ListsJobs :
    {S : Type 0} → JobTemplate → List Call → List Job → Run S (Result (Unit {0})) → Type 0
ListsJobs t before jobs run =
    (jobs ≡ []) × (run.value ≡ ok tt) × (run.calls ≡ before)
    ⊎ ((jobs ≢ [])
        × (r : Result (Unit {0})) × (run.calls
            ≡ before ++ updated_job_template (listing t jobs) r ∷ [])
        × (IsTaken r ↔ (run.value ≡ ok tt)))

module _ {S : Type 0} (client : Client S) (t : JobTemplate) where
  save_dependency_list-ListsJobs :
      (s : S) (jobs : List Job) → ListsJobs t [] jobs (save_dependency_list client t jobs s)
  unfolding save_dependency_list
  save_dependency_list-ListsJobs s [] = inl (refl, refl, refl)
  save_dependency_list-ListsJobs s (job ∷ jobs) =
      let answer = (client.update_job_template_status (listing t (job ∷ jobs)) s).0 in
      inr (
        λ h. cc,
        answer,
        refl,
        elim (Result-cases answer) [
          | inl (u, q) ↦ (λ _. ground (arith, q), λ _. rw q tt)
          | inr (e, q) ↦ elim (Bool-cases (is_not_found e)) [
            | inl g ↦ (λ _. ground (arith, q, g), λ _. rw q g)
            | inr g ↦ (
              λ h. let h' : is_not_found e ≡ true = rw q at h in cc (h', g),
              λ h. absurd (ground (arith, q, g, h)),
            )
          ]
        ],
      )

  -- If the jobs are listed, take of them, in their order, those whose annotation joins the namespace
  -- and the name of the JobTemplate with a dot. If there is none, nothing is written and there is no
  -- error. Else there is one write, of exactly their names, and the result is an error exactly when
  -- the write is refused for another reason than that the JobTemplate is gone.
  pub template_lists_its_jobs :
      (s : S) (jobs : List Job)
      → (client.list_jobs s).0 ≡ ok jobs
      → (own : List Job) × IsSelection (CarriesMark t) jobs own
        × ListsJobs t (listed_jobs (ok jobs) ∷ []) own (update_job_template client t s)
  unfolding update_job_template
  template_lists_its_jobs s jobs q =
      let after = (client.list_jobs s).1 in
      let own = filter_jobs t jobs in
      let e : (update_job_template client t s).value
          ≡ (save_dependency_list client t own after).value =
        ground (arith, q) in
      (
        own,
        unfold filter_jobs in
            select-IsSelection (is_job_of t) (CarriesMark t) (is_job_of-CarriesMark t) jobs,
        elim (save_dependency_list-ListsJobs after own) [
          | inl (nothing, v, c) ↦ inl (nothing, e ∙ v, ground (arith, q, c))
          | inr (some_own, r, c, (to, from)) ↦
              inr (some_own, r, ground (arith, q, c), (λ h. e ∙ to h, λ h. from (sym e ∙ h)))
        ],
      )
