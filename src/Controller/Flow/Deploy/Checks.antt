-- ===== src/Controller/Flow/Deploy/Checks.antt =====
-- The loop of `deployJobFlow` over the dependencies of one flow.
use job_deploy_operator.Base.{
  Text, nat_eq, ◌≡◌, refl, ◌≢◌, inl, inr, Bool, true, false, List, [], ◌∷◌, ◌++◌, All, Any,
  Any-append_right, arith, ◌==◌, sym, ap, subst, ◌∙◌, Bool-cases, if◌then◌else◌,
}
use job_deploy_operator.Api.Kube.{Job, Result, ok, err}
use job_deploy_operator.Api.JobFlow.{JobFlow}
use job_deploy_operator.Controller.Client.{Client, Call, got_job}
use job_deploy_operator.Controller.Trace.{Result-cases, IsSilent}
use job_deploy_operator.Controller.Flow.Deploy.{job_key, check_dependencies}

-- The call read the job of a flow as succeeded once and not failed once.
abbrev pub SawSuccess : JobFlow → Text → Call → Type 0
SawSuccess jf flow_name c =
    (j : Job) × (c ≡ got_job (job_key jf flow_name) (ok j))
    × (j.status.succeeded ≡ 1)
    × (j.status.failed ≢ 1)

module _ {S : Type 0} (client : Client S) (jf : JobFlow) where
  abbrev pub AllSeen : List Call → List Text → Type 0
  AllSeen calls ds = All (λ d. Any (SawSuccess jf d) calls) ds

  -- A read that ends the loop at once.
  abbrev pub IsStop : Result Job → Type 0
  IsStop (ok job) = (job.status.failed == 1) ≡ true
  IsStop (err e) = Unit

  AllSeen-cons : (c : Call) (cs : List Call) (ds : List Text) → AllSeen cs ds → AllSeen (c ∷ cs) ds
  AllSeen-cons c cs [] h = tt
  AllSeen-cons c cs (d ∷ ds) (h, hs) = (inr h, AllSeen-cons c cs ds hs)

  pub AllSeen-append_right :
      (xs ys : List Call) (ds : List Text) → AllSeen ys ds → AllSeen (xs ++ ys) ds
  AllSeen-append_right xs ys [] h = tt
  AllSeen-append_right xs ys (d ∷ ds) (h, hs) =
      (Any-append_right (SawSuccess jf d) xs ys h, AllSeen-append_right xs ys ds hs)

  -- Reading one more dependency that has not failed.
  pub check_dependencies-cons :
      (flag : Bool) (d : Text) (ds : List Text) (s : S) (job : Job)
      → (client.get_job (job_key jf d) s).0 ≡ ok job
      → (job.status.failed == 1) ≡ false
      → check_dependencies client jf flag (d ∷ ds) s ≡ (
          let next =
            check_dependencies client jf
              (if job.status.succeeded == 1 then flag else false)
              ds
              (client.get_job (job_key jf d) s).1 in
          record next { calls = got_job (job_key jf d) (ok job) ∷ next.calls })
  unfolding check_dependencies
  check_dependencies-cons flag d ds s job q f = rw (q, f)

  pub check_dependencies-stops :
      (flag : Bool) (d : Text) (ds : List Text) (s : S) (r : Result Job)
      → (client.get_job (job_key jf d) s).0 ≡ r
      → IsStop r
      → (check_dependencies client jf flag (d ∷ ds) s).value ≢ ok true
  unfolding check_dependencies
  check_dependencies-stops flag d ds s (ok job) q f = rw (q, f) (λ h. cc)
  check_dependencies-stops flag d ds s (err e) q f = ground arith

  pub check_dependencies-AllSeen :
      (flag : Bool) (ds : List Text) (s : S)
      → (check_dependencies client jf flag ds s).value ≡ ok true
      → (flag ≡ true) × AllSeen (check_dependencies client jf flag ds s).calls ds
  check_dependencies-AllSeen flag [] s h = unfold check_dependencies in (ground arith, tt)
  check_dependencies-AllSeen flag (d ∷ ds) s h =
      elim (Result-cases (client.get_job (job_key jf d) s).0) [
        | inr (e, q) ↦ absurd (check_dependencies-stops flag d ds s (err e) q tt h)
        | inl (job, q) ↦ elim (Bool-cases (job.status.failed == 1)) [
          | inl f ↦ absurd (check_dependencies-stops flag d ds s (ok job) q f h)
          | inr f ↦
              let e = check_dependencies-cons flag d ds s job q f in
              let (up, seen) =
                check_dependencies-AllSeen (if job.status.succeeded == 1 then flag else false) ds
                  (client.get_job (job_key jf d) s).1 (ap (λ r. r.value) (sym e) ∙ h) in
              subst (λ r. (flag ≡ true) × AllSeen r.calls (d ∷ ds)) (sym e)
                (
                  ground (arith, up),
                  (
                    inl (job, refl, ground (arith, up), ground (arith, f)),
                    AllSeen-cons _ _ ds seen,
                  ),
                )
        ]
      ]

  pub check_dependencies-IsSilent :
      (flag : Bool) (ds : List Text) (s : S)
      → All IsSilent (check_dependencies client jf flag ds s).calls
  unfolding check_dependencies
  check_dependencies-IsSilent flag [] s = tt
  check_dependencies-IsSilent flag (d ∷ ds) s =
      elim (Result-cases (client.get_job (job_key jf d) s).0) [
        | inr (e, q) ↦ rw q (ground arith)
        | inl (job, q) ↦ rw q (elim (Bool-cases (job.status.failed == 1)) [
          | inl f ↦ rw f (tt, tt)
          | inr f ↦ rw f (
            tt,
            check_dependencies-IsSilent (if job.status.succeeded == 1 then flag else false) ds
                (client.get_job (job_key jf d) s).1,
          )
        ])
      ]
