-- ===== src/Controller/Flow/Passes/Calls.antt =====
-- How many of the calls of a pass created the job with a name.
use job_deploy_operator.Base.{
  ℕ, ◌+◌, Text, text_eq, nat_eq, ◌≡◌, refl, ap, ◌∙◌, Bool, false, List, [], ◌∷◌, ◌++◌, count-append,
  All, count, ◌==◌, arith,
}
use job_deploy_operator.Api.Kube.{ok, err}
use job_deploy_operator.Controller.Client.{
  Call, got_job_flow, got_daemon_job, got_job_template, got_job, listed_jobs, listed_nodes,
  created_job, updated_job_flow, updated_daemon_job, updated_job_template, recorded,
}
use job_deploy_operator.Controller.Trace.{IsSilent}

-- The call created the job with this name.
abbrev pub was_created : Text → Call → Bool
was_created name c = elim c [
  | created_job job r ↦ elim r [ ok _ ↦ job.metadata.name == name | err _ ↦ false ]
  | _ ↦ false
]

silent-was_created : (name : Text) (c : Call) → IsSilent c → was_created name c ≡ false
silent-was_created name (created_job job r) h = absurd h
silent-was_created name (got_job_flow k r) h = refl
silent-was_created name (got_daemon_job k r) h = refl
silent-was_created name (got_job_template k r) h = refl
silent-was_created name (got_job k r) h = refl
silent-was_created name (listed_jobs r) h = refl
silent-was_created name (listed_nodes r) h = refl
silent-was_created name (updated_job_flow x r) h = refl
silent-was_created name (updated_daemon_job x r) h = refl
silent-was_created name (updated_job_template x r) h = refl
silent-was_created name (recorded e) h = refl

-- How often the job with this name was created.
unfoldable pub creations : Text → List Call → ℕ
creations name cs = count (was_created name) cs

pub creations-append :
    (name : Text) (xs ys : List Call)
    → creations name (xs ++ ys) ≡ creations name xs + creations name ys
unfolding creations
creations-append name = count-append (was_created name)

pub creations-silent : (name : Text) (cs : List Call) → All IsSilent cs → creations name cs ≡ 0
unfolding creations count
creations-silent name [] h = refl
creations-silent name (c ∷ cs) (h, hs) =
    ground (arith, silent-was_created name c h, creations-silent name cs hs)

-- Calls that create nothing do not count.
pub creations-after :
    (name : Text) (pre xs ys : List Call)
    → All IsSilent pre
    → ys ≡ pre ++ xs
    → creations name ys ≡ creations name xs
creations-after name pre xs ys silent e =
    omega (
      arith,
      ap (creations name) e ∙ creations-append name pre xs,
      creations-silent name pre silent,
    )
