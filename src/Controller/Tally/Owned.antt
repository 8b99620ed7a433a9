-- ===== src/Controller/Tally/Owned.antt =====
-- Which jobs count for an owner, said of the listed jobs and their references.
use mathlib.Core.List.{Permᴰ}
use job_deploy_operator.Base.{
  ℕ, ◌+◌, Text, codes, text_eq, ◌≡◌, refl, ap, ◌∙◌, inl, inr, Bool, Bool-cases, ◌&&◌, List, [], ◌∷◌,
  ◌++◌, All, Option, some, count, count-append, ltb, ◌==◌, if◌then◌else◌, arith,
}
use job_deploy_operator.Api.Kube.{OwnerReference, JobStatus, Job}
use job_deploy_operator.Controller.Common.{status_key}
use job_deploy_operator.Controller.Tally.{owned_copies, owned_jobs}
use job_deploy_operator.Controller.Tally.Counts.{last_status}

-- The number of the job's references to an owner of this kind and name.
abbrev pub references : (kind owner : Text) → Job → ℕ
references kind owner job =
    count (λ (r : OwnerReference). r.kind == kind && r.name == owner) job.metadata.owner_references

-- The references to the owner that the jobs with the property have in all.
abbrev pub references_of : (Job → Bool) → (kind owner : Text) → List Job → ℕ
references_of p kind owner [] = 0
references_of p kind owner (job ∷ jobs) =
    (if p job then references kind owner job else 0) + references_of p kind owner jobs

-- The status of the last job that has a reference to the owner and whose name, a slash and whose
-- namespace make the key.
abbrev pub last_of : (kind owner key : Text) → Option JobStatus → List Job → Option JobStatus
last_of kind owner key found [] = found
last_of kind owner key found (job ∷ jobs) =
    last_of kind owner key
      (if job.metadata.name ++ codes "/" ++ job.metadata.namespace == key
          && ltb 0 (references kind owner job)
        then some job.status
        else found)
      jobs

count-owned_copies :
    (p : Job → Bool) (kind owner : Text) (job : Job) (rs : List OwnerReference)
    → count p (owned_copies kind owner job rs)
      ≡ (if p job then count (λ (r : OwnerReference). r.kind == kind && r.name == owner) rs else 0)
unfolding owned_copies count
count-owned_copies p kind owner job [] = ground arith
count-owned_copies p kind owner job (r ∷ rs) =
    ground (arith, count-owned_copies p kind owner job rs)

-- How many of the owned jobs, with their repetitions, have a property.
pub count-owned_jobs :
    (p : Job → Bool) (kind owner : Text) (jobs : List Job)
    → count p (owned_jobs kind owner jobs) ≡ references_of p kind owner jobs
unfolding owned_jobs
count-owned_jobs p kind owner [] = unfold count in refl
count-owned_jobs p kind owner (job ∷ jobs) =
    let refs = job.metadata.owner_references in
    omega (
      arith,
      count-append p (owned_copies kind owner job refs) (owned_jobs kind owner jobs),
      count-owned_copies p kind owner job refs,
      count-owned_jobs p kind owner jobs,
    )

last_status-append :
    (k : Text) (xs ys : List Job) (found : Option JobStatus)
    → last_status k found (xs ++ ys) ≡ last_status k (last_status k found xs) ys
last_status-append k [] ys found = refl
last_status-append k (x ∷ xs) ys found = last_status-append k xs ys _

last_status-owned_copies :
    (kind owner key : Text) (job : Job) (rs : List OwnerReference) (found : Option JobStatus)
    → last_status key found (owned_copies kind owner job rs) ≡ (
        if job.metadata.name ++ codes "/" ++ job.metadata.namespace == key
          && ltb 0 (count (λ (r : OwnerReference). r.kind == kind && r.name == owner) rs)
        then some job.status
        else found)
unfolding owned_copies count status_key
last_status-owned_copies kind owner key job [] found = ground arith
last_status-owned_copies kind owner key job (r ∷ rs) found =
    let same = last_status-owned_copies kind owner key job rs found in
    let later = last_status-owned_copies kind owner key job rs (some job.status) in
    elim (Bool-cases (r.kind == kind && r.name == owner)) [
      | inr f ↦ rw f same
      | inl t ↦ elim (Bool-cases (status_key job.metadata.name job.metadata.namespace == key)) [
        | inl e ↦ ground (arith, t, e, later)
        | inr e ↦ ground (arith, t, e, same)
      ]
    ]

pub last_status-owned_jobs :
    (kind owner key : Text) (jobs : List Job) (found : Option JobStatus)
    → last_status key found (owned_jobs kind owner jobs) ≡ last_of kind owner key found jobs
unfolding owned_jobs
last_status-owned_jobs kind owner key [] found = refl
last_status-owned_jobs kind owner key (job ∷ jobs) found =
    let own = owned_copies kind owner job job.metadata.owner_references in
    last_status-append key own (owned_jobs kind owner jobs) found
    ∙ last_status-owned_jobs kind owner key jobs (last_status key found own)
    ∙ ap (λ o. last_of kind owner key o jobs)
        (last_status-owned_copies kind owner key job job.metadata.owner_references found)

module _ (p : Job → Bool) (kind owner : Text) where
  pub references_of-append :
      (xs ys : List Job)
      → references_of p kind owner (xs ++ ys)
        ≡ references_of p kind owner xs + references_of p kind owner ys
  references_of-append [] ys = omega arith
  references_of-append (x ∷ xs) ys = omega (arith, references_of-append xs ys)

  pub references_of-Permᴰ :
      {xs ys : List Job}
      → Permᴰ xs ys
      → references_of p kind owner xs ≡ references_of p kind owner ys
  references_of-Permᴰ Permᴰ.nil = refl
  references_of-Permᴰ (Permᴰ.cons {a} {b} e d) =
      let one = ap (λ (j : Job). if p j then references kind owner j else 0) e in
      omega (arith, one, references_of-Permᴰ d)
  references_of-Permᴰ (Permᴰ.swap {a} {b} {a'} {b'} e f) =
      let one = ap (λ (j : Job). if p j then references kind owner j else 0) e in
      let two = ap (λ (j : Job). if p j then references kind owner j else 0) f in
      omega (arith, one, two)
  references_of-Permᴰ (Permᴰ.trans d e) = references_of-Permᴰ d ∙ references_of-Permᴰ e

  pub references_of-none :
      (xs : List Job)
      → All (λ job. references kind owner job ≡ 0) xs
      → references_of p kind owner xs ≡ 0
  references_of-none [] h = refl
  references_of-none (x ∷ xs) (e, h) = ground (arith, e, references_of-none xs h)
