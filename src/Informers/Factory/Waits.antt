-- ===== src/Informers/Factory/Waits.antt =====
-- What `WaitForCacheSync` reports.
use job_deploy_operator.Base.{
  Text, text_eq, text_beq_iff, GoMap, IsMap, IsMap-insert, lookup, insert, lookup-insert, prefer,
  ◌≡◌, refl, subst, ◌∙◌, inl, inr, Bool, Bool-cases, none, some, [], ◌∷◌, ◌==◌, if◌then◌else◌,
  eq_of_beq, arith,
}
use job_deploy_operator.Informers.Factory.{
  SharedInformerFactory, is_set, copy_started, wait_for_each, wait_for_cache_sync,
}
use job_deploy_operator.Informers.Factory.Shared.{Steps}
use job_deploy_operator.Informers.Factory.Runs.{IsFresh, Steps-Running}

module _ {I : Type 0} where
  lookup-copy_started :
      (m : GoMap I) (started : GoMap Bool) (copied : GoMap I) (k : Text)
      → IsMap m
      → lookup k (copy_started m started copied)
        ≡ prefer (if is_set k started then lookup k m else none) (lookup k copied)
  unfolding copy_started lookup
  lookup-copy_started [] started copied k h = ground arith
  lookup-copy_started ((t, i) ∷ m) started copied k (fresh, h) =
      elim (Bool-cases (is_set t started)) [
        | inl e ↦ ground (
          arith,
          e,
          fresh,
          lookup-copy_started m started (insert t i copied) k h,
          lookup-insert t k i copied,
          text_beq_iff t k,
        )
        | inr e ↦ ground (arith, e, lookup-copy_started m started copied k h, text_beq_iff t k)
      ]

  IsMap-copy_started :
      (m : GoMap I) (started : GoMap Bool) (copied : GoMap I)
      → IsMap copied
      → IsMap (copy_started m started copied)
  unfolding copy_started
  IsMap-copy_started [] started copied h = h
  IsMap-copy_started ((t, i) ∷ m) started copied h = elim (Bool-cases (is_set t started)) [
    | inl e ↦ rw e (IsMap-copy_started m started (insert t i copied) (IsMap-insert t i copied h))
    | inr e ↦ rw e (IsMap-copy_started m started copied h)
  ]

  module _ {S : Type 0} (wait : I → S → Bool × S) where
    -- What the loop reports at a key that the rest of the map does not have.
    wait_for_each-other :
        (m : GoMap I) (res : GoMap Bool) (s : S) (k : Text)
        → lookup k m ≡ none
        → lookup k (wait_for_each wait m res s).0 ≡ lookup k res
    unfolding wait_for_each lookup
    wait_for_each-other [] res s k q = refl
    wait_for_each-other ((t, i) ∷ m) res s k q =
        let answer = wait i s in
        elim (Bool-cases (t == k)) [
          | inl e ↦ absurd (ground (arith, e, q))
          | inr e ↦ ground (
            arith,
            e,
            q,
            wait_for_each-other m (insert t answer.0 res) answer.1 k,
            lookup-insert t k answer.0 res,
          )
        ]

    wait_for_each-answers :
        (m : GoMap I) (res : GoMap Bool) (s : S) (k : Text) (i : I)
        → IsMap m
        → lookup k m ≡ some i
        → (s' : S) × (lookup k (wait_for_each wait m res s).0 ≡ some (wait i s').0)
    unfolding wait_for_each lookup
    wait_for_each-answers [] res s k i h q = absurd (ground (arith, q))
    wait_for_each-answers ((t, j) ∷ m) res s k i (fresh, h) q =
        let answer = wait j s in
        elim (Bool-cases (t == k)) [
          | inl e ↦
              let missing : lookup k m ≡ none =
                subst (λ x. lookup x m ≡ none) (eq_of_beq t k e) fresh in
              let same : j ≡ i = ground (arith, e, q) in
              let reported = wait_for_each-other m (insert t answer.0 res) answer.1 k missing in
              (
                s,
                subst
                    (λ x.
                      lookup k (wait_for_each wait m (insert t answer.0 res) answer.1).0
                      ≡ some (wait x s).0)
                    same (rw (lookup-insert t k answer.0 res, e) at reported),
              )
          | inr e ↦
              wait_for_each-answers m (insert t answer.0 res) answer.1 k i h (ground (arith, e, q))
        ]

-- In a factory that has a history of requests and starts, `WaitForCacheSync` reports on exactly the
-- types whose informers were started to run, and tells of each what the wait for its informer
-- answered.
pub wait_reports_running :
    {C I S : Type 0} (wait : I → S → Bool × S) (w w' : SharedInformerFactory C I × S)
    (runs : GoMap I) (t : Text)
    → IsFresh w.0
    → Steps w runs w'
    → let reported = lookup t (wait_for_cache_sync wait w'.0 w'.1).0 in
      (lookup t runs ≡ none → reported ≡ none)
      × ((informer : I)
          → lookup t runs ≡ some informer
          → (s : S) × (reported ≡ some (wait informer s).0))
unfolding wait_for_cache_sync lookup
wait_reports_running wait w w' runs t fresh steps =
    let r = Steps-Running w runs w' steps fresh in
    let f = w'.0 in
    let copied = copy_started f.informers f.started_informers [] in
    let all = lookup-copy_started f.informers f.started_informers [] t r.table in
    let same : lookup t copied ≡ lookup t runs = ground (arith, all, r.exactly t) in
    (
      λ q. wait_for_each-other wait copied [] w'.1 t (same ∙ q),
      λ informer q.
          wait_for_each-answers wait copied [] w'.1 t informer
            (IsMap-copy_started f.informers f.started_informers [] tt) (same ∙ q),
    )
