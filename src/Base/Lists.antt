-- ===== src/Base/Lists.antt =====
-- Lists measured by native numbers, and predicates over lists that compute to tuples.
use Prim.Native.Nat.{ℕ, suc, ◌+◌}
use mathlib.Core.Path.{◌≡◌, refl, ap}
use mathlib.Core.Logic.{◌⊎◌, ◌↔◌, inl, inr}
use mathlib.Core.Bool.{Bool, true}
use mathlib.Core.List.{List, [], ◌∷◌, ◌++◌, map, Memᴰ}
use native.Mathlib.Omega.{arith}
use job_deploy_operator.Base.Tests.{if◌then◌else◌, Bool-cases}

module _ {ℓ} {A : Type ℓ} where
  abbrev pub length : List A → ℕ
  length [] = 0
  length (x ∷ xs) = suc (length xs)

  pub length-append : (xs ys : List A) → length (xs ++ ys) ≡ length xs + length ys
  length-append [] ys = omega arith
  length-append (x ∷ xs) ys = omega (arith, length-append xs ys)

  -- The elements that pass the test, in order.
  unfoldable pub select : (A → Bool) → List A → List A
  select p [] = []
  select p (x ∷ xs) = let rest = select p xs in if p x then x ∷ rest else rest

  unfoldable pub count : (A → Bool) → List A → ℕ
  count p [] = 0
  count p (x ∷ xs) = let rest = count p xs in if p x then suc rest else rest

pub count-append :
    {A : Type 0} (p : A → Bool) (xs ys : List A) → count p (xs ++ ys) ≡ count p xs + count p ys
unfolding count
count-append p [] ys = omega arith
count-append p (x ∷ xs) ys = ground (arith, count-append p xs ys)

module _ {ℓ κ} {A : Type ℓ} (P : A → Type κ) where
  abbrev pub All : List A → Type κ
  All [] = Unit
  All (x ∷ xs) = P x × All xs

  pub All-append : (xs ys : List A) → All xs → All ys → All (xs ++ ys)
  All-append [] ys _ hy = hy
  All-append (x ∷ xs) ys (px, hx) hy = (px, All-append xs ys hx hy)

module _ {ℓ} {A : Type ℓ} (P : A → Type 0) where
  -- Some element satisfies `P`; the element and its place are kept.
  abbrev pub Any : List A → Type 0
  Any [] = ⊥
  Any (x ∷ xs) = P x ⊎ Any xs

  pub Any-append_left : (xs ys : List A) → Any xs → Any (xs ++ ys)
  Any-append_left (x ∷ xs) ys (inl h) = inl h
  Any-append_left (x ∷ xs) ys (inr h) = inr (Any-append_left xs ys h)
  Any-append_left [] ys h = absurd h

  pub Any-append_right : (xs ys : List A) → Any ys → Any (xs ++ ys)
  Any-append_right [] ys h = h
  Any-append_right (x ∷ xs) ys h = inr (Any-append_right xs ys h)

module _ {ℓ} {A : Type ℓ} where
  All-Memᴰ_tail : (y : A) (xs zs : List A) → All (λ x. Memᴰ x zs) xs → All (λ x. Memᴰ x (y ∷ zs)) xs
  All-Memᴰ_tail y [] zs h = tt
  All-Memᴰ_tail y (x ∷ xs) zs (m, h) = (Memᴰ.tail m, All-Memᴰ_tail y xs zs h)

  pub All-self : (xs : List A) → All (λ x. Memᴰ x xs) xs
  All-self [] = tt
  All-self (x ∷ xs) = (Memᴰ.head refl, All-Memᴰ_tail x xs xs (All-self xs))

-- The two lists have as many elements, which are related one by one.
abbrev pub Pairwise : {A B : Type 0} → (A → B → Type 0) → List A → List B → Type 0
Pairwise R [] [] = Unit
Pairwise R [] (b ∷ bs) = ⊥
Pairwise R (a ∷ as') [] = ⊥
Pairwise R (a ∷ as') (b ∷ bs) = R a b × Pairwise R as' bs

pub Pairwise-map :
    {A B : Type 0} (R : A → B → Type 0) (f : A → B)
    → ((a : A) → R a (f a))
    → (as' : List A) → Pairwise R as' (map f as')
Pairwise-map R f h [] = tt
Pairwise-map R f h (a ∷ as') = (h a, Pairwise-map R f h as')

module _ {ℓ} {A : Type ℓ} where
  pub length-map {κ} : {B : Type κ} (f : A → B) (xs : List A) → length (map f xs) ≡ length xs
  length-map f [] = refl
  length-map f (x ∷ xs) = ap suc (length-map f xs)

  pub length-select : (p : A → Bool) (xs : List A) → length (select p xs) ≡ count p xs
  unfolding select count
  length-select p [] = refl
  length-select p (x ∷ xs) = ground (arith, length-select p xs)

pub Any-map {ℓ} :
    {A : Type ℓ} (P Q : A → Type 0) → ((x : A) → P x → Q x) → (xs : List A) → Any P xs → Any Q xs
Any-map P Q f [] h = absurd h
Any-map P Q f (x ∷ xs) (inl h) = inl (f x h)
Any-map P Q f (x ∷ xs) (inr h) = inr (Any-map P Q f xs h)

-- The second list has, in the order of the first, its elements with the property, and no other.
pub data IsSelection {A : Type 0} (P : A → Type 0) : List A → List A → Type 0 where
  empty : IsSelection P [] []
  take : (x : A) (xs ys : List A) → P x → IsSelection P xs ys → IsSelection P (x ∷ xs) (x ∷ ys)
  skip : (x : A) (xs ys : List A) → ¬ P x → IsSelection P xs ys → IsSelection P (x ∷ xs) ys

pub select-IsSelection :
    {A : Type 0} (p : A → Bool) (P : A → Type 0)
    → ((x : A) → (p x ≡ true) ↔ P x)
    → (xs : List A) → IsSelection P xs (select p xs)
unfolding select
select-IsSelection p P iff [] = empty
select-IsSelection p P iff (x ∷ xs) =
    let rest = select-IsSelection p P iff xs in
    let (to, from) = iff x in
    elim (Bool-cases (p x)) [
      | inl h ↦ rw h (take x xs (select p xs) (to h) rest)
      | inr h ↦ rw h (skip x xs (select p xs) (λ m. ground (arith, from m, h)) rest)
    ]
