-- ===== src/Base/Maps.antt =====
-- A Go map as an association list: the entries stand in the order in which a `range` loop visits
-- them, which the language leaves open.
use mathlib.Core.Path.{◌≡◌, refl, subst}
use mathlib.Core.Logic.{◌⊎◌, inl, inr}
use mathlib.Core.Bool.{false}
use mathlib.Core.Option.{Option, none, some}
use mathlib.Core.List.{List, [], ◌∷◌, ◌++◌}
use native.Mathlib.Omega.{arith}
use job_deploy_operator.Base.Tests.{◌==◌, if◌then◌else◌, Bool-cases, eq_refl, eq_of_beq}
use job_deploy_operator.Base.Strings.{Text, text_eq, text_beq_iff}

abbrev pub GoMap {ℓ} : Type ℓ → Type ℓ
GoMap V = List (Text × V)

module _ {ℓ} {V : Type ℓ} where
  unfoldable pub lookup : Text → GoMap V → Option V
  lookup k [] = none
  lookup k ((j, v) ∷ m) = let rest = lookup k m in if j == k then some v else rest

  -- `m[k] = v`
  unfoldable pub insert : Text → V → GoMap V → GoMap V
  insert k v [] = (k, v) ∷ []
  insert k v ((j, w) ∷ m) = let rest = insert k v m in if j == k then (k, v) ∷ m else (j, w) ∷ rest

  -- `for k, v := range src { dst[k] = v }`
  unfoldable pub copy_into : GoMap V → GoMap V → GoMap V
  unfolding insert
  copy_into [] dst = dst
  copy_into ((k, v) ∷ src) dst = copy_into src (insert k v dst)

  pub lookup-insert :
      (new key : Text) (value : V) (entries : GoMap V)
      → lookup key (insert new value entries)
        ≡ (if new == key then some value else lookup key entries)
  unfolding insert lookup
  lookup-insert new key value [] = refl
  lookup-insert new key value ((old, w) ∷ entries) =
      let rest = lookup-insert new key value entries in
      let key_old = text_beq_iff old key in
      ground (arith, text_beq_iff new key, text_beq_iff old new, key_old, rest)

abbrev pub prefer {ℓ} : {A : Type ℓ} → Option A → Option A → Option A
prefer none other = other
prefer (some v) other = some v

module _ {ℓ} {V : Type ℓ} where
  -- The keys of a Go map are distinct.
  abbrev pub IsMap : GoMap V → Type ℓ
  IsMap [] = Unit
  IsMap ((k, v) ∷ m) = (lookup k m ≡ none) × IsMap m

  pub IsMap-insert :
      (new : Text) (value : V) (entries : GoMap V)
      → IsMap entries
      → IsMap (insert new value entries)
  unfolding insert
  IsMap-insert new value [] h = unfold lookup in (refl, tt)
  IsMap-insert new value ((old, w) ∷ entries) (fresh, h) = elim (Bool-cases (old == new)) [
    | inl e ↦ rw e (subst (λ k. lookup k entries ≡ none) (eq_of_beq old new e) fresh, h)
    | inr e ↦
        let other : (new == old) ≡ false =
          ground (arith, e, text_beq_iff old new, text_beq_iff new old) in
        let fresh' : lookup old (insert new value entries) ≡ none =
          rw (lookup-insert new old value entries, other) fresh in
        rw e (fresh', IsMap-insert new value entries h)
  ]

  pub lookup-append :
      (k : Text) (xs ys : GoMap V) → lookup k (xs ++ ys) ≡ prefer (lookup k xs) (lookup k ys)
  unfolding lookup
  lookup-append k [] ys = refl
  lookup-append k ((j, v) ∷ xs) ys = ground (arith, lookup-append k xs ys)

  -- Two maps without a common key.
  pub IsMap-append :
      (xs ys : GoMap V)
      → IsMap xs
      → IsMap ys
      → ((k : Text) → (lookup k xs ≡ none) ⊎ (lookup k ys ≡ none))
      → IsMap (xs ++ ys)
  IsMap-append [] ys hx hy apart = hy
  IsMap-append ((k, v) ∷ xs) ys (fresh, hx) hy apart =
      let own = eq_refl {A = Text} k in
      let fresh' : lookup k ys ≡ none = elim (apart k) [
        | inl e ↦ absurd (unfold lookup in ground (arith, own, e))
        | inr e ↦ e
      ] in
      let rest : (j : Text) → (lookup j xs ≡ none) ⊎ (lookup j ys ≡ none) =
        λ j. elim (apart j) [ inl e ↦ inl (unfold lookup in ground (arith, e)) | inr e ↦ inr e ] in
      (rw (lookup-append k xs ys, fresh) fresh', IsMap-append xs ys hx hy rest)

  -- After the loop a key has the value of the source, if the source has the key.
  pub lookup-copy_into :
      (k : Text) (src dst : GoMap V)
      → IsMap src
      → lookup k (copy_into src dst) ≡ prefer (lookup k src) (lookup k dst)
  unfolding copy_into
  lookup-copy_into k [] dst h = unfold lookup in refl
  lookup-copy_into k ((j, v) ∷ src) dst (fresh, h) =
      rw (lookup-copy_into k src (insert j v dst) h, lookup-insert j k v dst)
        (unfold lookup in ground (arith, text_beq_iff j k))

  -- Which order the loop takes cannot be seen: two maps with the same values at every key.
  pub copy_into_order :
      (k : Text) (src src' dst : GoMap V)
      → IsMap src
      → IsMap src'
      → lookup k src ≡ lookup k src'
      → lookup k (copy_into src dst) ≡ lookup k (copy_into src' dst)
  copy_into_order k src src' dst h h' e =
      rw (lookup-copy_into k src dst h, lookup-copy_into k src' dst h', e)
