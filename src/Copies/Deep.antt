-- ===== src/Copies/Deep.antt =====
-- That a copy says the same as the original, and that all its memory is new.
use mathlib.Core.Path.{ap₂}
use job_deploy_operator.Base.{
  ℕ, suc, ◌≤◌, ◌<◌, Text, text_eq, text_beq_iff, GoMap, IsMap, lookup, lookup-insert, insert,
  copy_into, ◌≡◌, refl, sym, ap, subst, ◌∙◌, ◌⊎◌, inl, inr, Bool-cases, none, some, List, [], ◌∷◌,
  ◌++◌, append_assoc, append-nil, map, All, All-append, ◌==◌, arith, eq_refl,
}
use job_deploy_operator.Copies.{
  Copies, copy_each, copy_slice, copy_values, copy_map, deep_copy, content_values, each_address,
  value_addresses, AreValid, slice_copies, map_copies, pointer_copies, copy_texts, texts_copies,
  copy_text_map, text_map_copies, both_copies,
}
pub mod Maps

-- An address that was taken between two states of memory.
abbrev pub Between : ℕ → ℕ → ℕ → Type 0
Between low high address = (low ≤ address) × (address < high)

pub All-widen :
    (low low' high high' : ℕ)
    → low' ≤ low
    → high ≤ high'
    → (xs : List ℕ) → All (Between low high) xs
    → All (Between low' high') xs
All-widen low low' high high' below above [] h = tt
All-widen low low' high high' below above (x ∷ xs) ((l, u), h) = (
  (omega (arith, l, below), omega (arith, u, above)),
  All-widen low low' high high' below above xs h,
)

-- The copy says what the original says, and all its addresses are new ones.
pub record Copied {X C : Type 0} (c : Copies X C) (x : X) (n : ℕ) : Type 0 where
  pub kept : c.content (c.deep_copy_into x n).0 ≡ c.content x
  pub grows : n ≤ (c.deep_copy_into x n).1
  pub fresh : All (Between n (c.deep_copy_into x n).1) (c.addresses (c.deep_copy_into x n).0)

abbrev pub IsDeep : {X C : Type 0} → Copies X C → Type 0
IsDeep {X} c = (x : X) (n : ℕ) → c.IsValid x → Copied c x n

module _ {X C : Type 0} (c : Copies X C) (deep : IsDeep c) where
  copy_each-Copied :
      (xs : List X) (n : ℕ)
      → All c.IsValid xs
      → let r = copy_each c xs n in
        (map c.content r.0 ≡ map c.content xs)
        × (n ≤ r.1)
        × All (Between n r.1) (each_address c r.0)
  unfolding copy_each
  copy_each-Copied [] n h = (refl, omega arith, tt)
  copy_each-Copied (x ∷ xs) n (valid, h) =
      let first = deep x n valid in
      let m = (c.deep_copy_into x n).1 in
      let (kept, grows, fresh) = copy_each-Copied xs m h in
      (
        ap₂ (λ a rest. a ∷ rest) first.kept kept,
        omega (arith, first.grows, grows),
        All-append (Between n (copy_each c xs m).1) (c.addresses (c.deep_copy_into x n).0)
            (each_address c (copy_each c xs m).0)
            (All-widen n n m (copy_each c xs m).1 (omega arith) grows _ first.fresh)
            (All-widen m n (copy_each c xs m).1 (copy_each c xs m).1 first.grows (omega arith) _
              fresh),
      )

  pub slice-IsDeep : IsDeep (slice_copies c)
  unfolding copy_slice
  slice-IsDeep none n h = record { kept = refl; grows = omega arith; fresh = tt }
  slice-IsDeep (some s) n h =
      let (kept, grows, fresh) = copy_each-Copied s.value (suc n) h in
      let after = (copy_each c s.value (suc n)).1 in
      record {
        kept = ap some kept;
        grows = omega (arith, grows);
        fresh = (
          (omega arith, omega (arith, grows)),
          All-widen (suc n) n after after (omega arith) (omega arith) _ fresh,
        );
      }

  pub pointer-IsDeep : IsDeep (pointer_copies c)
  unfolding deep_copy
  pointer-IsDeep none n h = record { kept = refl; grows = omega arith; fresh = tt }
  pointer-IsDeep (some p) n h =
      let copied = deep p.value (suc n) h in
      let after = (c.deep_copy_into p.value (suc n)).1 in
      record {
        kept = ap some copied.kept;
        grows = omega (arith, copied.grows);
        fresh = (
          (omega arith, omega (arith, copied.grows)),
          All-widen (suc n) n after after (omega arith) (omega arith) _ copied.fresh,
        );
      }

pub texts-IsDeep : IsDeep texts_copies
unfolding copy_texts
texts-IsDeep none n h = record { kept = refl; grows = omega arith; fresh = tt }
texts-IsDeep (some s) n h = record {
  kept = refl;
  grows = omega arith;
  fresh = ((omega arith, omega arith), tt);
}

pub both-IsDeep :
    {X C Y D : Type 0} (c : Copies X C) (d : Copies Y D)
    → IsDeep c
    → IsDeep d
    → IsDeep (both_copies c d)
both-IsDeep c d deep_c deep_d (x, y) n (valid_x, valid_y) =
    let first = deep_c x n valid_x in
    let m = (c.deep_copy_into x n).1 in
    let second = deep_d y m valid_y in
    let after = (d.deep_copy_into y m).1 in
    record {
      kept = ap₂ (λ a b. (a, b)) first.kept second.kept;
      grows = omega (arith, first.grows, second.grows);
      fresh =
          All-append (Between n after) (c.addresses (c.deep_copy_into x n).0)
            (d.addresses (d.deep_copy_into y m).0)
            (All-widen n n m after (omega arith) second.grows _ first.fresh)
            (All-widen m n after after first.grows (omega arith) _ second.fresh);
    }
