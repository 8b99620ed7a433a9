-- ===== src/Base/Split.antt =====
-- Laws of `strings.Split`, of the removal of a byte, and of the sort.
use Prim.Native.Nat.{ℕ}
use mathlib.Core.Path.{◌≡◌, refl, sym, ap, ◌∙◌}
use mathlib.Core.Logic.{◌≢◌, ◌↔◌, ◌⊎◌, inl, inr}
use mathlib.Core.List.{List, [], ◌∷◌, ◌++◌}
use native.Mathlib.Omega.{arith}
use job_deploy_operator.Base.Tests.{
  Bool-cases, ◌==◌, nat_eq, nat_beq_iff, beq_of_ne, eq_refl, if◌then◌else◌,
}
use job_deploy_operator.Base.Strings.{
  Text, text_ltb, remove_all, split, insert_sorted, sort_texts, Lacks,
}
use job_deploy_operator.Base.Lists.{Any}

-- The text before the first `b`, or all of it.
abbrev pub before_first : ℕ → Text → Text
before_first b [] = []
before_first b (c ∷ s) = let rest = before_first b s in if c == b then [] else c ∷ rest

module _ (b : ℕ) where
  pub split-Lacks : (s : Text) → Lacks b s → split b s ≡ s ∷ []
  unfolding split
  split-Lacks [] h = refl
  split-Lacks (c ∷ s) (h, hs) = rw (beq_of_ne c b h, split-Lacks s hs)

  pub split-append : (s t : Text) → Lacks b s → split b (s ++ b ∷ t) ≡ s ∷ split b t
  unfolding split
  split-append [] t h = rw (eq_refl b)
  split-append (c ∷ s) t (h, hs) = rw (beq_of_ne c b h, split-append s t hs)

  -- There is a first field, and it is what stands before the first separator.
  pub split-first : (s : Text) → (rest : List Text) × (split b s ≡ before_first b s ∷ rest)
  unfolding split
  split-first [] = ([], refl)
  split-first (c ∷ s) =
      let (rest, e) = split-first s in
      elim (Bool-cases (c == b)) [ inl t ↦ (split b s, rw t) | inr f ↦ (rest, rw (f, e)) ]

  pub before_first-Lacks : (s : Text) → Lacks b s → before_first b s ≡ s
  before_first-Lacks [] h = refl
  before_first-Lacks (c ∷ s) (h, hs) = rw (beq_of_ne c b h, before_first-Lacks s hs)

  pub before_first-append : (s t : Text) → Lacks b s → before_first b (s ++ b ∷ t) ≡ s
  before_first-append [] t h = rw (eq_refl b)
  before_first-append (c ∷ s) t (h, hs) = rw (beq_of_ne c b h, before_first-append s t hs)

  pub remove_all-Lacks : (s : Text) → Lacks b s → remove_all b s ≡ s
  unfolding remove_all
  remove_all-Lacks [] h = refl
  remove_all-Lacks (c ∷ s) (h, hs) = rw (beq_of_ne c b h, remove_all-Lacks s hs)

  pub remove_all-append : (s t : Text) → remove_all b (s ++ t) ≡ remove_all b s ++ remove_all b t
  unfolding remove_all
  remove_all-append [] t = refl
  remove_all-append (c ∷ s) t = ground (arith, remove_all-append s t)

  -- Either the separator is missing, or it stands behind the text before its first place.
  pub find_first :
      (s : Text)
      → Lacks b s ⊎ ((t : Text) × (s ≡ before_first b s ++ b ∷ t) × Lacks b (before_first b s))
  find_first [] = inl tt
  find_first (c ∷ s) = elim (Bool-cases (c == b)) [
    | inl t ↦ rw t (inr (s, ap (λ x. x ∷ s) ((nat_beq_iff c b).0 t), tt))
    | inr f ↦
        let ne : c ≢ b = λ e. ground (arith, f, nat_beq_iff c b, e) in
        elim (find_first s) [
          | inl h ↦ inl (ne, h)
          | inr (t, e, h) ↦ rw f (inr (t, ap (λ x. c ∷ x) e, (ne, h)))
        ]
  ]

-- Sorting changes no membership.
pub Any-insert_sorted :
    (P : Text → Type 0) (t : Text) (us : List Text) → Any P (insert_sorted t us) ↔ Any P (t ∷ us)
unfolding insert_sorted
Any-insert_sorted P t [] = (λ h. h, λ h. h)
Any-insert_sorted P t (u ∷ us) = elim (Bool-cases (text_ltb u t)) [
  | inr f ↦ rw f (λ h. h, λ h. h)
  | inl g ↦ rw g (
    elim [ inl h ↦ inr (inl h) | inr h ↦ swap_front ((Any-insert_sorted P t us).0 h) ],
    elim [
      | inl h ↦ inr ((Any-insert_sorted P t us).1 (inl h))
      | inr (inl h) ↦ inl h
      | inr (inr h) ↦ inr ((Any-insert_sorted P t us).1 (inr h))
    ],
  )
]
  where
    swap_front : Any P (t ∷ us) → Any P (t ∷ u ∷ us)
    swap_front (inl h) = inl h
    swap_front (inr h) = inr (inr h)

pub Any-sort_texts : (P : Text → Type 0) (ts : List Text) → Any P (sort_texts ts) ↔ Any P ts
unfolding sort_texts
Any-sort_texts P [] = (λ h. h, λ h. h)
Any-sort_texts P (t ∷ ts) =
    let (to, from) = Any-insert_sorted P t (sort_texts ts) in
    (
      λ h. elim (to h) [ inl p ↦ inl p | inr q ↦ inr ((Any-sort_texts P ts).0 q) ],
      elim [ inl p ↦ from (inl p) | inr q ↦ from (inr ((Any-sort_texts P ts).1 q)) ],
    )

pub append_cancel : (s t u : Text) → s ++ t ≡ s ++ u → t ≡ u
append_cancel [] t u h = h
append_cancel (c ∷ s) t u h = append_cancel s t u (cc h)

pub cons_cancel : {c d : ℕ} {s t : Text} → c ∷ s ≡ d ∷ t → s ≡ t
cons_cancel h = cc

-- Two texts around a separator are known from the whole, if the first has no separator.
pub joined_eq :
    (b : ℕ) (s s' t t' : Text)
    → Lacks b s
    → Lacks b s'
    → s ++ b ∷ t ≡ s' ++ b ∷ t'
    → (s ≡ s') × (t ≡ t')
joined_eq b s s' t t' h h' e =
    let same : s ≡ s' =
      sym (before_first-append b s t h) ∙ ap (before_first b) e ∙ before_first-append b s' t' h' in
    (same, cons_cancel (append_cancel s (b ∷ t) (b ∷ t') (e ∙ ap (λ x. x ++ b ∷ t') (sym same))))
