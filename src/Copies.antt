-- ===== src/Copies.antt =====
-- pkg/apis/*/v1alpha1/zz_generated.deepcopy.go: what the generated deep copies share. A value is given
-- with the memory that it refers to: a pointer, a slice or a map is an address with what stands
-- there. Memory is taken at the next free address, which is passed on.
pub mod Deep
pub mod External
pub mod JobFlows
pub mod DaemonJobs
pub mod JobTemplates
pub mod Independent
use job_deploy_operator.Base.{
  ℕ, suc, Text, GoMap, IsMap, insert, copy_into, Option, none, some, List, [], ◌∷◌, ◌++◌, map, All,
}

pub record At (A : Type 0) : Type 0 where
  pub address : ℕ
  pub value : A

-- A value without its addresses.
abbrev pub Plain : Type 0 → Type 0
Plain A = A

-- A type of values in memory with `DeepCopyInto`: what a value says, at which addresses its memory
-- is, and what the language grants of it. The copy is what the method leaves in `out`.
pub record Copies (X C : Type 0) : Type 1 where
  pub content : X → C
  pub addresses : X → List ℕ
  pub IsValid : X → Type 0
  pub deep_copy_into : X → ℕ → X × ℕ

module _ {X C : Type 0} (c : Copies X C) where
  -- The loop over a slice.
  unfoldable pub copy_each : List X → ℕ → List X × ℕ
  copy_each [] n = ([], n)
  copy_each (x ∷ xs) n =
      let first = c.deep_copy_into x n in
      let rest = copy_each xs first.1 in (first.0 ∷ rest.0, rest.1)

  -- A slice that is not nil is made anew, and its elements are copied into it.
  unfoldable pub copy_slice : Option (At (List X)) → ℕ → Option (At (List X)) × ℕ
  copy_slice none n = (none, n)
  copy_slice (some s) n =
      let copied = copy_each s.value (suc n) in
      (some (record { address = n; value = copied.0 }), copied.1)

  -- The loop over a map: `(*out)[key] = *val.DeepCopy()`. `DeepCopy` makes an object at the next
  -- address, which is read and then no longer needed.
  unfoldable pub copy_values : GoMap X → GoMap X → ℕ → GoMap X × ℕ
  copy_values [] out n = (out, n)
  copy_values ((key, val) ∷ entries) out n =
      let copied = c.deep_copy_into val (suc n) in
      copy_values entries (insert key copied.0 out) copied.1

  unfoldable pub copy_map : Option (At (GoMap X)) → ℕ → Option (At (GoMap X)) × ℕ
  copy_map none n = (none, n)
  copy_map (some m) n =
      let copied = copy_values m.value [] (suc n) in
      (some (record { address = n; value = copied.0 }), copied.1)

  -- `DeepCopy`: nil for nil, and else the copy in a new object.
  unfoldable pub deep_copy : Option (At X) → ℕ → Option (At X) × ℕ
  deep_copy none n = (none, n)
  deep_copy (some p) n =
      let copied = c.deep_copy_into p.value (suc n) in
      (some (record { address = n; value = copied.0 }), copied.1)

  -- `DeepCopyObject`. A value of an interface type is nil, or holds a pointer, which may be nil too.
  unfoldable pub deep_copy_object : Option (At X) → ℕ → Option (Option (At X)) × ℕ
  unfolding deep_copy
  deep_copy_object p n =
      let copied = deep_copy p n in
      (elim copied.0 [ none ↦ none | some q ↦ some (some q) ], copied.1)

  abbrev pub content_values : GoMap X → GoMap C
  content_values [] = []
  content_values ((k, v) ∷ m) = (k, c.content v) ∷ content_values m

  abbrev pub each_address : List X → List ℕ
  each_address [] = []
  each_address (x ∷ xs) = c.addresses x ++ each_address xs

  abbrev pub value_addresses : GoMap X → List ℕ
  value_addresses [] = []
  value_addresses ((k, v) ∷ m) = c.addresses v ++ value_addresses m

  abbrev pub AreValid : GoMap X → Type 0
  AreValid [] = Unit
  AreValid ((k, v) ∷ m) = c.IsValid v × AreValid m

  abbrev pub slice_copies : Copies (Option (At (List X))) (Option (List C))
  slice_copies = record {
    content = λ s. elim s [ none ↦ none | some s ↦ some (map c.content s.value) ];
    addresses = λ s. elim s [ none ↦ [] | some s ↦ s.address ∷ each_address s.value ];
    IsValid = λ s. elim s [ none ↦ Unit | some s ↦ All c.IsValid s.value ];
    deep_copy_into = copy_slice;
  }

  abbrev pub map_copies : Copies (Option (At (GoMap X))) (Option (GoMap C))
  map_copies = record {
    content = λ m. elim m [ none ↦ none | some m ↦ some (content_values m.value) ];
    addresses = λ m. elim m [ none ↦ [] | some m ↦ m.address ∷ value_addresses m.value ];
    IsValid = λ m. elim m [ none ↦ Unit | some m ↦ IsMap m.value × AreValid m.value ];
    deep_copy_into = copy_map;
  }

  -- A pointer to an object.
  abbrev pub pointer_copies : Copies (Option (At X)) (Option C)
  pointer_copies = record {
    content = λ p. elim p [ none ↦ none | some p ↦ some (c.content p.value) ];
    addresses = λ p. elim p [ none ↦ [] | some p ↦ p.address ∷ c.addresses p.value ];
    IsValid = λ p. elim p [ none ↦ Unit | some p ↦ c.IsValid p.value ];
    deep_copy_into = deep_copy;
  }

-- A slice of strings is copied by `copy`.
unfoldable pub copy_texts : Option (At (List Text)) → ℕ → Option (At (List Text)) × ℕ
copy_texts none n = (none, n)
copy_texts (some s) n = (some (record { address = n; value = s.value }), suc n)

abbrev pub texts_copies : Copies (Option (At (List Text))) (Option (List Text))
texts_copies = record {
  content = λ s. elim s [ none ↦ none | some s ↦ some s.value ];
  addresses = λ s. elim s [ none ↦ [] | some s ↦ s.address ∷ [] ];
  IsValid = λ s. Unit;
  deep_copy_into = copy_texts;
}

-- A map to strings is copied by a loop.
unfoldable pub copy_text_map : Option (At (GoMap Text)) → ℕ → Option (At (GoMap Text)) × ℕ
copy_text_map none n = (none, n)
copy_text_map (some m) n = (some (record { address = n; value = copy_into m.value [] }), suc n)

abbrev pub text_map_copies : Copies (Option (At (GoMap Text))) (Option (GoMap Text))
text_map_copies = record {
  content = λ m. elim m [ none ↦ none | some m ↦ some m.value ];
  addresses = λ m. elim m [ none ↦ [] | some m ↦ m.address ∷ [] ];
  IsValid = λ m. elim m [ none ↦ Unit | some m ↦ IsMap m.value ];
  deep_copy_into = copy_text_map;
}

-- Two values, the second copied after the first.
abbrev pub both_copies : {X C Y D : Type 0} → Copies X C → Copies Y D → Copies (X × Y) (C × D)
both_copies c d = record {
  content = λ (x, y). (c.content x, d.content y);
  addresses = λ (x, y). c.addresses x ++ d.addresses y;
  IsValid = λ (x, y). c.IsValid x × d.IsValid y;
  deep_copy_into = λ (x, y) n.
      let first = c.deep_copy_into x n in
      let second = d.deep_copy_into y first.1 in ((first.0, second.0), second.1);
}
