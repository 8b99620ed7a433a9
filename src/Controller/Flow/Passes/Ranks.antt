-- ===== src/Controller/Flow/Passes/Ranks.antt =====
-- The order of the flows by their dependencies, and a JobFlow all of whose jobs are done.
use mathlib.Core.List.{Memᴰ, Permᴰ}
use job_deploy_operator.Base.{
  ℕ, ◌<◌, Text, codes, ◌++◌, Pairwise, ◌≡◌, refl, subst, true, none, List, [], ◌∷◌, All, length,
  nat_eq, arith,
}
use job_deploy_operator.Api.Kube.{Job, ok}
use job_deploy_operator.Api.JobFlow.{Flow, JobFlow, succeed}
use job_deploy_operator.Controller.Client.{Client}
use job_deploy_operator.Controller.Flow.Deploy.{job_key}
use job_deploy_operator.Controller.Flow.Deploy.Ready.{IsDone}
use job_deploy_operator.Controller.Tally.Counts.{is_completed, is_failed, is_running}
use job_deploy_operator.Controller.Flow.Status.{get_all_job_status}
use job_deploy_operator.Controller.Flow.Status.States.{StateFor, counted, state_of_counts}
use job_deploy_operator.Controller.Tally.Owned.{
  references, references_of-append, references_of-Permᴰ, references_of-none,
}

pub All-Memᴰ : {A : Type 0} (P : A → Type 0) (xs : List A) → ((x : A) → Memᴰ x xs → P x) → All P xs
All-Memᴰ P [] h = tt
All-Memᴰ P (x ∷ xs) h = (h x (Memᴰ.head refl), All-Memᴰ P xs (λ y m. h y (Memᴰ.tail m)))

-- Every dependency is the name of a flow of a lower rank.
abbrev pub IsRanked : (Text → ℕ) → List Flow → Type 0
IsRanked rank flows =
    (flow : Flow)
    → Memᴰ flow flows
    → (d : Text) → Memᴰ d flow.dependencies
    → (needed : Flow) × Memᴰ needed flows × (needed.name ≡ d) × (rank d < rank flow.name)

module _ {S : Type 0} (client : Client S) (jf : JobFlow) where
  abbrev own_references : Job → ℕ
  own_references job = references (codes "JobFlow") jf.metadata.name job

  -- The job of the flow, with one reference to the JobFlow.
  abbrev pub IsShownFor : S → Flow → Job → Type 0
  IsShownFor s flow job =
      ((client.get_job (job_key jf flow.name) s).0 ≡ ok job) × (own_references job ≡ 1)

  -- Up to its order the listing shows the job of each flow once, as it is and with one owner
  -- reference to the JobFlow (by its kind and name), and else jobs without such a reference.
  pub record IsListing (s : S) (jobs : List Job) : Type 0 where
    pub shown : List Job
    pub others : List Job
    pub listed : (client.list_jobs s).0 ≡ ok jobs
    pub split : Permᴰ jobs (shown ++ others)
    pub each : Pairwise (IsShownFor s) jf.spec.flows shown
    pub foreign : All (λ job. own_references job ≡ 0) others

  completed_each :
      (s : S) (flows : List Flow) (shown : List Job)
      → All (λ (flow : Flow). IsDone client jf s flow.name) flows
      → Pairwise (IsShownFor s) flows shown
      → counted is_completed jf shown ≡ length flows
  completed_each s [] [] all each = refl
  completed_each s [] (job ∷ shown) all each = absurd each
  completed_each s (flow ∷ flows) [] all each = absurd each
  completed_each s (flow ∷ flows) (job ∷ shown) ((done, p, one, none_failed), all) ((q, r), each) =
      let same : done ≡ job = ground (arith, p, q) in
      let completed : is_completed job ≡ true =
        subst (λ (j : Job). is_completed j ≡ true) same (ground (arith, one)) in
      ground (arith, completed, r, completed_each s flows shown all each)

  -- If all jobs are done, the state is Succeed.
  pub all_done_succeeds :
      (s : S) (jobs : List Job)
      → jf.metadata.deletion_timestamp ≡ none
      → ((flow : Flow) → Memᴰ flow jf.spec.flows → IsDone client jf s flow.name)
      → IsListing s jobs
      → (get_all_job_status jf jobs).state ≡ succeed
  all_done_succeeds s jobs kept all listing =
      let kind = codes "JobFlow" in
      let name = jf.metadata.name in
      let all' = All-Memᴰ (λ (flow : Flow). IsDone client jf s flow.name) jf.spec.flows all in
      let total : counted is_completed jf jobs ≡ length jf.spec.flows = omega (
        arith,
        references_of-Permᴰ is_completed kind name listing.split,
        references_of-append is_completed kind name listing.shown listing.others,
        completed_each s jf.spec.flows listing.shown all' listing.each,
        references_of-none is_completed kind name listing.others listing.foreign,
      ) in
      let state =
        subst
          (λ d.
            StateFor d (get_all_job_status jf jobs).state (length jf.spec.flows)
              (counted is_completed jf jobs) (counted is_failed jf jobs)
              (counted is_running jf jobs))
          kept (state_of_counts jf jobs) in
      state.succeed_iff.1 total
