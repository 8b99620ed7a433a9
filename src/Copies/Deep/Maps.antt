-- ===== src/Copies/Deep/Maps.antt =====
-- That the copies of maps say the same as the originals, and that all their memory is new.
use job_deploy_operator.Base.{
  ℕ, suc, ◌≤◌, Text, text_beq_iff, text_eq, GoMap, IsMap, lookup, lookup-insert, insert, copy_into,
  ◌≡◌, refl, sym, ap, subst, ◌∙◌, ◌⊎◌, inl, inr, Bool-cases, none, some, [], ◌∷◌, ◌++◌,
  append_assoc, append-nil, All, All-append, ◌==◌, arith, eq_refl,
}
use job_deploy_operator.Copies.{
  Copies, copy_values, copy_map, content_values, value_addresses, AreValid, map_copies,
  copy_text_map, text_map_copies,
}
use job_deploy_operator.Copies.Deep.{Between, All-widen, IsDeep}

-- An entry with a new key stands at the end.
insert-new :
    {V : Type 0} (k : Text) (v : V) (m : GoMap V)
    → lookup k m ≡ none
    → insert k v m ≡ m ++ (k, v) ∷ []
unfolding insert lookup
insert-new k v [] q = refl
insert-new k v ((j, w) ∷ m) q = elim (Bool-cases (j == k)) [
  | inl e ↦ absurd (ground (arith, q, e))
  | inr e ↦ rw e (ap (λ t. (j, w) ∷ t) (insert-new k v m (ground (arith, q, e))))
]

-- No key is in both maps.
abbrev AreApart : {V : Type 0} → GoMap V → GoMap V → Type 0
AreApart a b = (k : Text) → (lookup k a ≡ none) ⊎ (lookup k b ≡ none)

apart-insert :
    {V : Type 0} (k : Text) (v w : V) (m out : GoMap V)
    → lookup k m ≡ none
    → AreApart ((k, v) ∷ m) out
    → AreApart m (insert k w out)
unfolding lookup
apart-insert k v w m out fresh apart j = elim (Bool-cases (k == j)) [
  | inl e ↦ inl (ground (arith, text_beq_iff k j, e, fresh))
  | inr e ↦ elim (apart j) [
    | inl q ↦ inl (ground (arith, q, e))
    | inr q ↦ inr (ground (arith, lookup-insert k j w out, e, q))
  ]
]

-- The first key of one map is not in the other.
apart-head :
    {V : Type 0} (k : Text) (v : V) (m out : GoMap V)
    → AreApart ((k, v) ∷ m) out
    → lookup k out ≡ none
unfolding lookup
apart-head k v m out apart =
    let own = eq_refl {A = Text} k in
    elim (apart k) [ inl q ↦ absurd (ground (arith, q, own)) | inr q ↦ q ]

copy_into-apart :
    {V : Type 0} (m out : GoMap V) → IsMap m → AreApart m out → copy_into m out ≡ out ++ m
unfolding copy_into
copy_into-apart [] out h apart = sym (append-nil (out))
copy_into-apart ((k, v) ∷ m) out (fresh, h) apart =
    let absent : lookup k out ≡ none = apart-head k v m out apart in
    let rest = copy_into-apart m (insert k v out) h (apart-insert k v v m out fresh apart) in
    let moved : insert k v out ++ m ≡ (out ++ (k, v) ∷ []) ++ m =
      ap (λ o. o ++ m) (insert-new k v out absent) in
    rest ∙ moved ∙ append_assoc (out) ((k, v) ∷ []) (m)

module _ {X C : Type 0} (c : Copies X C) where
  content_values-append :
      (a b : GoMap X) → content_values c (a ++ b) ≡ content_values c a ++ content_values c b
  content_values-append [] b = refl
  content_values-append ((k, v) ∷ a) b = ap (λ m. (k, c.content v) ∷ m) (content_values-append a b)

  value_addresses-append :
      (a b : GoMap X) → value_addresses c (a ++ b) ≡ value_addresses c a ++ value_addresses c b
  value_addresses-append [] b = refl
  value_addresses-append ((k, v) ∷ a) b =
      ap (λ m. c.addresses v ++ m) (value_addresses-append a b)
      ∙ sym (append_assoc (c.addresses v) (value_addresses c a) (value_addresses c b))

  module _ (deep : IsDeep c) where
    -- The memory of the values so far is not older than `low`.
    copy_values-Copied :
        (entries out : GoMap X) (low n : ℕ)
        → IsMap entries
        → AreApart entries out
        → AreValid c entries
        → low ≤ n
        → All (Between low n) (value_addresses c out)
        → let r = copy_values c entries out n in
          (content_values c r.0 ≡ content_values c out ++ content_values c entries)
          × (n ≤ r.1)
          × All (Between low r.1) (value_addresses c r.0)
    unfolding copy_values
    copy_values-Copied [] out low n h apart valid below old =
        (sym (append-nil (content_values c out)), omega arith, old)
    copy_values-Copied ((k, v) ∷ entries) out low n (new, h) apart (valid_v, valid) below old =
        let copied = c.deep_copy_into v (suc n) in
        let first = deep v (suc n) valid_v in
        let out' = insert k copied.0 out in
        let at_end : out' ≡ out ++ (k, copied.0) ∷ [] =
          insert-new k copied.0 out (apart-head k v entries out apart) in
        let says : content_values c out' ≡ content_values c out ++ (k, c.content v) ∷ [] =
          ap (content_values c) at_end
          ∙ content_values-append out ((k, copied.0) ∷ [])
          ∙ ap (λ x. content_values c out ++ (k, x) ∷ []) first.kept in
        let memory : value_addresses c out'
            ≡ value_addresses c out ++ (c.addresses copied.0 ++ []) =
          ap (value_addresses c) at_end ∙ value_addresses-append out ((k, copied.0) ∷ []) in
        let old' : All (Between low copied.1) (value_addresses c out) =
          All-widen low low n copied.1 (omega arith) (omega (arith, first.grows)) _ old in
        let new' : All (Between low copied.1) (c.addresses copied.0) =
          All-widen (suc n) low copied.1 copied.1 (omega (arith, below)) (omega arith) _
            first.fresh in
        let all' : All (Between low copied.1) (value_addresses c out') =
          subst (All (Between low copied.1)) (sym memory) (
            All-append (Between low copied.1) _ _ old'
              (All-append (Between low copied.1) _ [] new' tt)) in
        let (kept, grows, fresh) =
          copy_values-Copied entries out' low copied.1 h
            (apart-insert k v copied.0 entries out new apart) valid
            (omega (arith, below, first.grows)) all' in
        (
          kept
              ∙ ap (λ m. m ++ content_values c entries) says
              ∙ append_assoc (content_values c out) ((k, c.content v) ∷ [])
                  (content_values c entries),
          omega (arith, first.grows, grows),
          fresh,
        )

    pub map-IsDeep : IsDeep (map_copies c)
    unfolding copy_map
    map-IsDeep none n h = record { kept = refl; grows = omega arith; fresh = tt }
    map-IsDeep (some m) n (is_map, valid) =
        let none_there : AreApart m.value [] = λ k. inr (unfold lookup in refl) in
        let (kept, grows, fresh) =
          copy_values-Copied m.value [] (suc n) (suc n) is_map none_there valid (omega arith) tt in
        let after = (copy_values c m.value [] (suc n)).1 in
        record {
          kept = ap some kept;
          grows = omega (arith, grows);
          fresh = (
            (omega arith, omega (arith, grows)),
            All-widen (suc n) n after after (omega arith) (omega arith) _ fresh,
          );
        }

pub text_map-IsDeep : IsDeep text_map_copies
unfolding copy_text_map
text_map-IsDeep none n h = record { kept = refl; grows = omega arith; fresh = tt }
text_map-IsDeep (some m) n h = record {
  kept = ap some (copy_into-apart m.value [] h (λ k. inr (unfold lookup in refl)));
  grows = omega arith;
  fresh = ((omega arith, omega arith), tt);
}
