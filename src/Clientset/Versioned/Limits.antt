-- ===== src/Clientset/Versioned/Limits.antt =====
-- With which configurations the clients of a clientset are made.
use job_deploy_operator.Base.{
  ℕ, zero, suc, ◌↔◌, text_eq, ◌≡◌, refl, sym, ap, subst, ◌∙◌, ◌⊎◌, inl, inr, true, false,
  Bool-cases, Option, none, some, Option-cases, arith,
}
use job_deploy_operator.Api.Kube.{Result, ok, err}
use job_deploy_operator.Controller.Trace.{Result-cases}
use job_deploy_operator.Clientset.Config.{ℤ, pos, negsuc, not_positive, Config, ClientGo}
use job_deploy_operator.Clientset.Groups.JobFlows.{
  set_config_defaults, new_for_config as new_group_for_config,
}
use job_deploy_operator.Clientset.Versioned.{
  Clientset, burst_required, with_rate_limiter, new_for_config,
}

module _ {Q L K R D : Type 0} (client_go : ClientGo Q L K R D) where
  -- The rate limiter that the clients of a configuration share, if they need one.
  abbrev pub IsLimited : Config Q L K → Option L → Type 0
  IsLimited c limiter =
      ((l : L) × (c.rate_limiter ≡ some l) × (limiter ≡ some l))
      ⊎ ((c.rate_limiter ≡ none)
          × (((client_go.positive c.qps ≡ false) × (limiter ≡ none))
              ⊎ ((client_go.positive c.qps ≡ true)
                  × (n : ℕ) × (c.burst ≡ pos (suc n))
                  × (limiter ≡ some (client_go.new_token_bucket_rate_limiter c.qps c.burst)))))

  abbrev ok_or : Config Q L K → Result (Config Q L K) → Config Q L K
  ok_or c (ok copy) = copy
  ok_or c (err e) = c

  abbrev pub limited_by : Config Q L K → Option L → Config Q L K
  limited_by c limiter = record c { rate_limiter = limiter }

  burst-cases : (n : ℤ) → (not_positive n ≡ true) ⊎ ((m : ℕ) × (n ≡ pos (suc m)))
  burst-cases (pos zero) = inl refl
  burst-cases (pos (suc m)) = inr (m, refl)
  burst-cases (negsuc m) = inl refl

  IsLimited-unique : (c : Config Q L K) (a b : Option L) → IsLimited c a → IsLimited c b → a ≡ b
  IsLimited-unique c a b (inl (l, q, e)) (inl (k, p, f)) = e ∙ sym q ∙ p ∙ sym f
  IsLimited-unique c a b (inl (l, q, e)) (inr (p, f)) = absurd (ground (arith, q, p))
  IsLimited-unique c a b (inr (p, f)) (inl (l, q, e)) = absurd (ground (arith, q, p))
  IsLimited-unique c a b (inr (p, inl (z, e))) (inr (q, inl (y, f))) = e ∙ sym f
  IsLimited-unique c a b (inr (p, inr (z, n, y, e))) (inr (q, inr (x, m, w, f))) = e ∙ sym f
  IsLimited-unique c a b (inr (p, inl (z, e))) (inr (q, inr (x, m, w, f))) =
      absurd (ground (arith, z, x))
  IsLimited-unique c a b (inr (p, inr (z, n, y, e))) (inr (q, inl (x, f))) =
      absurd (ground (arith, z, x))

  unfoldable pub IsMade : Config Q L K → Config Q L K → Type 0
  IsMade c copy = (copy ≡ limited_by c copy.rate_limiter) × IsLimited c copy.rate_limiter

  IsMade-iff :
      (c made copy : Config Q L K)
      → with_rate_limiter client_go c ≡ ok made
      → IsMade c made
      → (with_rate_limiter client_go c ≡ ok copy) ↔ IsMade c copy
  unfolding IsMade
  IsMade-iff c made copy q (e, limited) = (
    λ h. subst (IsMade c) (ap (ok_or c) (sym q ∙ h)) (e, limited),
    λ (e', limited').
        q
        ∙ ap ok (
            e
            ∙ ap (limited_by c)
                (IsLimited-unique c made.rate_limiter copy.rate_limiter limited limited')
            ∙ sym e'),
  )

  with_rate_limiter_iff :
      (c copy : Config Q L K) → (with_rate_limiter client_go c ≡ ok copy) ↔ IsMade c copy
  unfolding with_rate_limiter IsMade
  with_rate_limiter_iff c copy = elim (Option-cases c.rate_limiter) [
    | inr (l, q) ↦ IsMade-iff c c copy (ground (arith, q)) (refl, inl (l, q, q))
    | inl q ↦ elim (Bool-cases (client_go.positive c.qps)) [
      | inr z ↦ IsMade-iff c c copy (ground (arith, q, z)) (refl, inr (q, inl (z, q)))
      | inl z ↦ elim (burst-cases c.burst) [
        | inr (n, b) ↦
            let made =
              limited_by c (some (client_go.new_token_bucket_rate_limiter c.qps c.burst)) in
            let positive : not_positive c.burst ≡ false = ground (arith, b) in
            IsMade-iff c made copy (ground (arith, q, z, positive))
              (refl, inr (q, inr (z, n, b, refl)))
        | inl b ↦
            let refused : with_rate_limiter client_go c ≡ err burst_required =
              ground (arith, q, z, b) in
            (
              λ h. absurd (ground (arith, refused, h)),
              λ (e, limited). elim limited [
                | inl (l, p, f) ↦ absurd (ground (arith, q, p))
                | inr (p, inl (y, f)) ↦ absurd (ground (arith, z, y))
                | inr (p, inr (y, n, d, f)) ↦ absurd (ground (arith, b, d))
              ],
            )
      ]
    ]
  ]

  -- `NewForConfig` returns a clientset exactly if both of its clients can be made from one copy of
  -- the configuration, that of the group after its defaults are set. The copy differs from the
  -- configuration in the rate limiter at most: it keeps the one that is configured; without one, it
  -- has none if the rate is not positive; and for a positive rate it has a new one, which needs a
  -- positive burst.
  pub new_for_config_iff :
      (c : Config Q L K) (cs : Clientset R D)
      → (new_for_config client_go c ≡ ok cs) ↔ (
          (copy : Config Q L K) × IsMade c copy
          × (client_go.rest_client_for (set_config_defaults client_go copy)
              ≡ ok cs.api_v1alpha1.rest_client)
          × (client_go.new_discovery_client_for_config copy ≡ ok cs.discovery_client))
  unfolding new_for_config new_group_for_config
  new_for_config_iff c cs = (
    λ h. elim (Result-cases (with_rate_limiter client_go c)) [
      | inr (e, q) ↦ absurd (ground (arith, q, h))
      | inl (copy, q) ↦
          let group = client_go.rest_client_for (set_config_defaults client_go copy) in
          elim (Result-cases group) [
            | inr (e, p) ↦ absurd (ground (arith, q, p, h))
            | inl (client, p) ↦
                elim (Result-cases (client_go.new_discovery_client_for_config copy)) [
                  | inr (e, d) ↦ absurd (ground (arith, q, p, d, h))
                  | inl (found, d) ↦
                      let made : new_for_config client_go c
                          ≡ ok (record {
                            discovery_client = found;
                            api_v1alpha1 = record { rest_client = client };
                          }) =
                        ground (arith, q, p, d) in
                      (
                        copy,
                        (with_rate_limiter_iff c copy).0 q,
                        ground (arith, made, h, p),
                        ground (arith, made, h, d),
                      )
                ]
          ]
    ],
    λ (copy, is_made, p, d).
        let q = (with_rate_limiter_iff c copy).1 is_made in ground (arith, q, p, d),
  )
