-- ===== src/Controller/Trace.antt =====
-- What holds of each call of an action by reason of the calls before it.
use job_deploy_operator.Base.{
  ◌≡◌, refl, ◌⊎◌, inl, inr, List, [], ◌∷◌, ◌++◌, All, append_assoc, append-nil,
}
use job_deploy_operator.Api.Kube.{NamespacedName, Error, Result, ok, err}
use job_deploy_operator.Controller.Client.{Client, Call, created_job}

pub Result-cases {ℓ} :
    {A : Type ℓ} (r : Result A) → ((a : A) × (r ≡ ok a)) ⊎ ((e : Error) × (r ≡ err e))
Result-cases (ok a) = inl (a, refl)
Result-cases (err e) = inr (e, refl)

-- `J before c` holds of each call `c` of a list, where `before` are the calls before it.
abbrev pub Justifies : (List Call → Call → Type 0) → List Call → List Call → Type 0
Justifies J before [] = Unit
Justifies J before (c ∷ cs) = J before c × Justifies J (before ++ c ∷ []) cs

module _ (J : List Call → Call → Type 0) where
  pub Justifies-append :
      (before xs ys : List Call)
      → Justifies J before xs
      → Justifies J (before ++ xs) ys
      → Justifies J before (xs ++ ys)
  Justifies-append before [] ys _ hy = rw append-nil at hy
  Justifies-append before (c ∷ xs) ys (h, hx) hy =
      (h, Justifies-append (before ++ c ∷ []) xs ys hx (rw append_assoc hy))

  -- A call in the middle of the list, with all that stands before it.
  pub Justifies-split :
      (before xs : List Call) (c : Call) (ys : List Call)
      → Justifies J before (xs ++ c ∷ ys)
      → J (before ++ xs) c
  Justifies-split before [] c ys h = rw append-nil h.0
  Justifies-split before (x ∷ xs) c ys h =
      rw append_assoc at (Justifies-split (before ++ x ∷ []) xs c ys h.1)

-- Any call but a creation.
abbrev pub IsSilent : Call → Type 0
IsSilent (created_job job r) = ⊥
IsSilent _ = Unit

pub Justifies-All :
    (J : List Call → Call → Type 0) (P : Call → Type 0)
    → ((before : List Call) (c : Call) → P c → J before c)
    → (before cs : List Call) → All P cs
    → Justifies J before cs
Justifies-All J P weaken before [] h = tt
Justifies-All J P weaken before (c ∷ cs) (p, h) =
    (weaken before c p, Justifies-All J P weaken (before ++ c ∷ []) cs h)

-- Reading a job changes nothing, and so finds again what it found.
abbrev pub ReadsOnly : {S : Type 0} → Client S → Type 0
ReadsOnly {S} client = (key : NamespacedName) (s : S) → (client.get_job key s).1 ≡ s
