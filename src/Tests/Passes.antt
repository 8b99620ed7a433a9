-- ===== src/Tests/Passes.antt =====
-- Two passes of `deployJobFlow` over the cluster in memory: the first creates the job of the first
-- flow; it succeeds; and the second creates the job of the second flow.
use mathlib.Core.Path.{ap₂}
use mathlib.Core.List.{Memᴰ}
use job_deploy_operator.Base.{
  Any, eq_refl, ℕ, ap, subst, ◌∙◌, ◌⊎◌, Text, text_eq, codes, text_beq_iff, ◌≡◌, refl, sym, ◌≢◌,
  inl, inr, true, Bool-cases, List, [], ◌∷◌, ◌++◌, ◌≤◌, All, arith,
}
use job_deploy_operator.Api.Kube.{NamespacedName, Job, Result, ok, err}
use job_deploy_operator.Api.JobFlow.{Flow}
use job_deploy_operator.Controller.Trace.{Result-cases}
use job_deploy_operator.Controller.Flow.Deploy.{job_key, deploy_job_flow}
use job_deploy_operator.Controller.Flow.Prepare.{assemble_job}
use job_deploy_operator.Controller.Flow.Deploy.Ready.{IsDone}
use job_deploy_operator.Controller.Flow.Passes.{
  key as key_from, key_of, IsStore, IsPresent, IsOthers, Reached, begin, pass, others, AreDistinct,
  dependencies_first,
}
use job_deploy_operator.Controller.Flow.Passes.Answers.{IsAnswering, IsConflict, Conflicts}
use job_deploy_operator.Controller.Flow.Passes.Progress.{ready_jobs_are_there}
use job_deploy_operator.Controller.Client.{Call, created_job}
use job_deploy_operator.Controller.Common.{get_job_name}
use job_deploy_operator.Controller.Flow.Passes.Calls.{creations}
use job_deploy_operator.Controller.Flow.Passes.Once.{History, created_at_most_once}
use job_deploy_operator.Tests.Cluster.{Cluster, has_key, find, add_new, in_memory}
use job_deploy_operator.Tests.Flows.{program, halfway}
use job_deploy_operator.Tests.Samples.{
  flow_1, flow_2, sample_flow, job_of, with_status, was_successful,
}

has_key_eq : (key : NamespacedName) (job : Job) → has_key key job.metadata ≡ true → key ≡ key_of job
has_key_eq key job h =
    let ns : job.metadata.namespace ≡ key.namespace =
      (text_beq_iff job.metadata.namespace key.namespace).0 (ground arith) in
    let name : job.metadata.name ≡ key.name =
      (text_beq_iff job.metadata.name key.name).0 (ground arith) in
    ap₂ key_from (sym ns) (sym name)

find_other :
    (key : NamespacedName) (job : Job) (jobs : List Job)
    → key ≢ key_of job
    → find (λ j. j.metadata) key (job ∷ jobs) ≡ find (λ j. j.metadata) key jobs
unfolding find
find_other key job jobs ne = elim (Bool-cases (has_key key job.metadata)) [
  | inl t ↦ absurd (ne (has_key_eq key job t))
  | inr f ↦ rw f refl
]

add_new-jobs :
    (job : Job) (c : Cluster)
    → ((add_new job c).1.jobs ≡ c.jobs) ⊎ ((add_new job c).1.jobs ≡ job ∷ c.jobs)
unfolding add_new
add_new-jobs job c = elim (Result-cases (find (λ j. j.metadata) (key_of job) c.jobs)) [
  | inl (j, q) ↦ inl (ground (arith, q))
  | inr (e, q) ↦ inr (ground (arith, q))
]

pub in_memory-IsStore : IsStore in_memory
in_memory-IsStore = record {
  reads = λ key c. refl;
  reads_templates = λ key c. refl;
  creates_one = λ job key c ne. elim (add_new-jobs job c) [
    | inl e ↦ ap (find (λ (j : Job). j.metadata) key) e
    | inr e ↦ ap (find (λ (j : Job). j.metadata) key) e ∙ find_other key job c.jobs ne
  ];
}

abbrev pub with_jobs : List Job → Cluster
with_jobs jobs = record halfway { jobs = jobs }

none-IsPresent : (flow_name : Text) → ¬ IsPresent in_memory sample_flow (with_jobs []) flow_name
unfolding find
none-IsPresent flow_name (job, q) = cc

abbrev successes : Result Job → ℕ
successes (ok job) = job.status.succeeded
successes (err e) = 0

find_one :
    (key : NamespacedName) (job found : Job)
    → find (λ j. j.metadata) key (job ∷ []) ≡ ok found
    → (has_key key job.metadata ≡ true) × (found.status.succeeded ≡ job.status.succeeded)
unfolding find
find_one key job found q = elim (Bool-cases (has_key key job.metadata)) [
  | inl t ↦
      let e : find (λ j. j.metadata) key (job ∷ []) ≡ ok job = rw t refl in
      (t, sym (ap successes (sym e ∙ q)))
  | inr f ↦ absurd (ground (arith, f, q))
]

-- The job of the first flow succeeds.
success-IsOthers : IsOthers in_memory sample_flow (with_jobs (job_of flow_1 ∷ [])) halfway
unfolding find assemble_job
success-IsOthers = record {
  appears = λ name (job, q).
      elim (Bool-cases (has_key (job_key sample_flow name) (job_of flow_1).metadata)) [
        | inl t ↦ (job_of flow_1, rw t refl)
        | inr f ↦ absurd (ground (arith, f, q))
      ];
  stays = λ name (job, q, one, none_failed).
      absurd (omega (arith, (find_one (job_key sample_flow name) (job_of flow_1) job q).1, one));
}

first_pass :
    (deploy_job_flow in_memory sample_flow (with_jobs [])).state ≡ with_jobs (job_of flow_1 ∷ [])
unfolding program
first_pass = refl

Reached-halfway : Reached in_memory sample_flow halfway
Reached-halfway =
    others (with_jobs (job_of flow_1 ∷ [])) halfway
      (subst (Reached in_memory sample_flow) first_pass
        (pass (with_jobs []) (begin (with_jobs []) none-IsPresent)))
      success-IsOthers

pub one_of_two : (f : Flow) → Memᴰ f sample_flow.spec.flows → (f ≡ flow_1) ⊎ (f ≡ flow_2)
one_of_two f (Memᴰ.head p) = inl p
one_of_two f (Memᴰ.tail (Memᴰ.head p)) = inr p
one_of_two f (Memᴰ.tail (Memᴰ.tail m)) = elim m [ ]

names_differ : flow_1.name ≢ flow_2.name
names_differ e = ground (arith, e)

pub sample-AreDistinct : AreDistinct in_memory sample_flow sample_flow.spec.flows
sample-AreDistinct f g mf mg e = elim (one_of_two f mf) [
  | inl p ↦ elim (one_of_two g mg) [
    | inl q ↦ p ∙ sym q
    | inr q ↦
        absurd (names_differ (ap (λ (x : Flow). x.name) (sym p) ∙ e ∙ ap (λ (x : Flow). x.name) q))
  ]
  | inr p ↦ elim (one_of_two g mg) [
    | inl q ↦
        absurd
          (names_differ (sym (ap (λ (x : Flow). x.name) (sym p) ∙ e ∙ ap (λ (x : Flow). x.name) q)))
    | inr q ↦ p ∙ sym q
  ]
]

dependencies_first_example :
    All
      (IsDone in_memory sample_flow (deploy_job_flow in_memory sample_flow halfway).state)
      (codes "one" ∷ [])
dependencies_first_example =
    dependencies_first in_memory sample_flow in_memory-IsStore sample-AreDistinct
      (deploy_job_flow in_memory sample_flow halfway).state flow_2 (job_of flow_2)
      (pass halfway Reached-halfway) (Memᴰ.tail (Memᴰ.head refl)) (unfold program in refl)

own_key : (job : Job) → has_key (key_of job) job.metadata ≡ true
own_key job =
    let ns = eq_refl {A = Text} job.metadata.namespace in
    let name = eq_refl {A = Text} job.metadata.name in ground (arith, ns, name)

made_is_there :
    (job : Job) (c : Cluster)
    → (add_new job c).0 ≡ ok tt
    → find (λ j. j.metadata) (key_of job) (add_new job c).1.jobs ≡ ok job
unfolding add_new find
made_is_there job c made = elim (Result-cases (find (λ j. j.metadata) (key_of job) c.jobs)) [
  | inl (j, q) ↦ absurd (ground (arith, q, made))
  | inr (e, q) ↦
      let jobs : (add_new job c).1.jobs ≡ job ∷ c.jobs = ground (arith, q) in
      let own : find (λ j. j.metadata) (key_of job) (job ∷ c.jobs) ≡ ok job =
        rw (own_key job) refl in
      ap (find (λ (j : Job). j.metadata) (key_of job)) jobs ∙ own
]

one-IsDone : All (IsDone in_memory sample_flow halfway) (codes "one" ∷ [])
unfolding program
one-IsDone = ((with_status was_successful (job_of flow_1), refl, refl, (λ e. cc)), tt)

pub in_memory-IsAnswering : IsAnswering in_memory
unfolding add_new find
in_memory-IsAnswering = record {
  store = in_memory-IsStore;
  creates = λ job c made. (job, made_is_there job c made);
}

-- Any call but a creation that was answered by an error.
abbrev pub IsUnrefused : Call → Type 0
IsUnrefused (created_job job (err e)) = ⊥
IsUnrefused _ = Unit

pub HasNoConflict-IsUnrefused :
    (name : Text) (cs : List Call) → All IsUnrefused cs → ¬ Any (IsConflict name) cs
HasNoConflict-IsUnrefused name [] h c = c
HasNoConflict-IsUnrefused name (c ∷ cs) (h, hs) (inl (job, e, same, _, _)) =
    subst IsUnrefused same h
HasNoConflict-IsUnrefused name (c ∷ cs) (h, hs) (inr later) =
    HasNoConflict-IsUnrefused name cs hs later

unrefused : All IsUnrefused (deploy_job_flow in_memory sample_flow halfway).calls
unfolding program
unrefused = ground arith

ready_jobs_are_there_example :
    IsPresent in_memory sample_flow
      (deploy_job_flow in_memory sample_flow halfway).state
      (codes "two")
    ⊎ Conflicts sample_flow (deploy_job_flow in_memory sample_flow halfway).calls flow_2
ready_jobs_are_there_example =
    ready_jobs_are_there in_memory in_memory-IsAnswering sample_flow sample-AreDistinct halfway
      flow_2 (Memᴰ.tail (Memᴰ.head refl)) (unfold program in refl)
      (λ g mem needed.
        HasNoConflict-IsUnrefused (get_job_name (codes "jf") g.name)
          (deploy_job_flow in_memory sample_flow halfway).calls unrefused)
      one-IsDone

created_at_most_once_example :
    creations
      (get_job_name (codes "jf") (codes "two"))
      ([] ++ (deploy_job_flow in_memory sample_flow halfway).calls)
    ≤ 1
created_at_most_once_example =
    created_at_most_once in_memory in_memory-IsAnswering sample_flow sample-AreDistinct
      (codes "two") halfway (deploy_job_flow in_memory sample_flow halfway).state
      ([] ++ (deploy_job_flow in_memory sample_flow halfway).calls)
      (History.pass halfway halfway [] (History.begin halfway))
