-- ===== src/Controller/Template/Watch/Requests.antt =====
-- What the handlers of the JobTemplate controller make of a job's annotation.
use job_deploy_operator.Base.{
  Text, text_eq, text_beq_iff, beq_of_ne, split-first, split-append, split-Lacks, find_first,
  before_first, before_first-Lacks, before_first-append, Lacks, ◌≡◌, refl, ap, ◌∙◌, ◌≢◌, ◌⊎◌, inl,
  inr, Bool-cases, List, [], ◌∷◌, ◌++◌, Option, none, some, ◌==◌, arith,
}
use job_deploy_operator.Api.Kube.{NamespacedName, Job}
use job_deploy_operator.Controller.Common.{
  create_by_job_template, get_connection_of_job_and_job_template,
}
use job_deploy_operator.Controller.Common.Names.{connection-cons}
use job_deploy_operator.Controller.Template.Status.{annotation}
use job_deploy_operator.Controller.Template.Watch.{
  template_requests, on_job_create, on_job_update, on_job_delete,
}

append-dot-ne_nil : (ns : Text) (name : Text) → ns ++ b'.' ∷ name ≢ []
append-dot-ne_nil [] name h = cc
append-dot-ne_nil (c ∷ ns) name h = cc

-- With a dot in the annotation, the request is for what stands before it, and for what stands
-- between it and the next dot.
requests-dot :
    (job : Job) (ns name : Text)
    → Lacks b'.' ns
    → annotation job create_by_job_template ≡ ns ++ b'.' ∷ name
    → template_requests job ≡ some (record { namespace = ns; name = before_first b'.' name } ∷ [])
unfolding template_requests
requests-dot job ns name h e =
    let (rest, first) = split-first b'.' name in
    let ne = beq_of_ne {A = Text} (ns ++ b'.' ∷ name) [] (append-dot-ne_nil ns name) in
    let fields = split-append b'.' ns name h in ground (arith, e, ne, fields, first)

requests-Lacks :
    (job : Job)
    → annotation job create_by_job_template ≢ []
    → Lacks b'.' (annotation job create_by_job_template)
    → template_requests job ≡ none
unfolding template_requests
requests-Lacks job ne h =
    let value = annotation job create_by_job_template in
    let b = beq_of_ne {A = Text} value [] ne in
    let fields = split-Lacks b'.' value h in ground (arith, b, fields)

-- What a value of the annotation, if it is not empty, asks for.
abbrev pub IsFor : Text → Option (List NamespacedName) → Type 0
IsFor value requests =
    (Lacks b'.' value × (requests ≡ none))
    ⊎ ((name : Text) × (value ≡ before_first b'.' value ++ b'.' ∷ name)
        × (requests
            ≡ some (
                record { namespace = before_first b'.' value; name = before_first b'.' name }
                ∷ [])))

requests-cases :
    (job : Job)
    → let value = annotation job create_by_job_template in
      (value ≡ []) × (template_requests job ≡ some [])
      ⊎ ((value ≢ []) × IsFor value (template_requests job))
unfolding template_requests
requests-cases job =
    let value = annotation job create_by_job_template in
    elim (Bool-cases (value == [])) [
      | inl t ↦ inl ((text_beq_iff value []).0 t, ground (arith, t))
      | inr f ↦
          let ne : value ≢ [] = λ e. ground (arith, f, text_beq_iff value [], e) in
          elim (find_first b'.' value) [
            | inl h ↦ inr (ne, inl (h, requests-Lacks job ne h))
            | inr (name, e, h) ↦
                inr (ne, inr (name, e, requests-dot job (before_first b'.' value) name h e))
          ]
    ]

-- All three handlers do the same: nothing if the annotation is missing or empty; a panic, if it is
-- not empty and has no dot; and else one request, for the namespace before the first dot and for the name up to the next dot.
pub requests_of_annotation :
    (job old : Job)
    → let value = annotation job create_by_job_template in
      (on_job_create job ≡ on_job_update old job)
      × (on_job_delete job ≡ on_job_update old job)
      × ((value ≡ []) × (on_job_update old job ≡ some [])
          ⊎ ((value ≢ []) × IsFor value (on_job_update old job)))
unfolding on_job_create on_job_update on_job_delete
requests_of_annotation job old = (refl, refl, requests-cases job)

-- If a job's annotation is the connection of a namespace and a template name, neither with a dot,
-- a change of the job enqueues exactly this template.
request_for_template :
    (job : Job) (namespace name : Text)
    → annotation job create_by_job_template ≡ get_connection_of_job_and_job_template namespace name
    → Lacks b'.' namespace
    → Lacks b'.' name
    → template_requests job ≡ some (record { namespace = namespace; name = name } ∷ [])
request_for_template job namespace name e h h' =
    requests-dot job namespace name h (e ∙ connection-cons namespace name)
    ∙ ap (λ n. some (record { namespace = namespace; name = n } ∷ []))
        (before_first-Lacks b'.' name h')

-- If a job's annotation is the connection of a namespace without a dot and a template name with
-- one, the template is missed: what is enqueued instead is its name up to the first dot.
pub dotted_template_is_missed :
    (job : Job) (namespace short rest : Text)
    → annotation job create_by_job_template
      ≡ get_connection_of_job_and_job_template namespace (short ++ b'.' ∷ rest)
    → Lacks b'.' namespace
    → Lacks b'.' short
    → template_requests job ≡ some (record { namespace = namespace; name = short } ∷ [])
dotted_template_is_missed job namespace short rest e h h' =
    requests-dot job namespace (short ++ b'.' ∷ rest) h
      (e ∙ connection-cons namespace (short ++ b'.' ∷ rest))
    ∙ ap (λ n. some (record { namespace = namespace; name = n } ∷ []))
        (before_first-append b'.' short rest h')
