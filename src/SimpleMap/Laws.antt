-- ===== src/SimpleMap/Laws.antt =====
-- utils/simple_map.hpp: what the changes of a SimpleMap do to every key.
use my_async.Prelude.{
  true, false, some, [], ◌∷◌, ◌≡◌, ◌≢◌, refl, ap, sym, ◌∙◌, Bool-cases, inl, inr, ◌⊎◌,
}
use my_async.SimpleMap.{Order, SimpleMap, find, insert_or_assign}

module _ {ℓ} {K : Type ℓ} (order : Order K) where
  pub asymmetric : (a b : K) → order.less a b ≡ true → order.less b a ≡ false
  asymmetric a b h = elim (Bool-cases (order.less b a)) [
    | inr back ↦ back
    | inl loop ↦ absurd (true_ne (sym (order.transitive a b a h loop) ∙ order.irreflexive a))
  ]
    where
      true_ne : true ≡ false → ⊥
      true_ne e = cc

  -- How two keys stand, with both comparisons.
  pub data Standing (a b : K) : Type ℓ where
    before : order.less a b ≡ true → order.less b a ≡ false → Standing a b
    behind : order.less b a ≡ true → order.less a b ≡ false → Standing a b
    equal : order.less a b ≡ false → order.less b a ≡ false → a ≡ b → Standing a b

  pub standing : (a b : K) → Standing a b
  standing a b = elim (Bool-cases (order.less a b)) [
    | inl h ↦ before h (asymmetric a b h)
    | inr h ↦ elim (Bool-cases (order.less b a)) [
      | inl k ↦ behind k h
      | inr k ↦ equal h k (order.total a b h k)
    ]
  ]

  pub different : (a b : K) → order.less a b ≡ true → a ≢ b
  different a b l e = true_ne (sym l ∙ ap (λ x. order.less x b) e ∙ order.irreflexive b)
    where
      true_ne : true ≡ false → ⊥
      true_ne h = cc

module _ {ℓ κ} {K : Type ℓ} {V : Type κ} (order : Order K) where
  find-insert_or_assign_self :
      (k : K) (v : V) (m : SimpleMap K V) → find order k (insert_or_assign order k v m) ≡ some v
  unfolding find insert_or_assign
  find-insert_or_assign_self k v [] = rw (order.irreflexive k) refl
  find-insert_or_assign_self k v ((k', v') ∷ m) = elim (standing order k' k) [
    | before l _ ↦ rw l (rw l (find-insert_or_assign_self k v m))
    | behind l n ↦ rw (n, l) (rw (order.irreflexive k) refl)
    | equal n n' _ ↦ rw (n, n') (rw (n, n') refl)
  ]

  find-insert_or_assign_ne :
      (j k : K) (v : V) (m : SimpleMap K V)
      → j ≢ k
      → find order j (insert_or_assign order k v m) ≡ find order j m
  unfolding find insert_or_assign
  find-insert_or_assign_ne j k v [] h = elim (standing order k j) [
    | before l _ ↦ rw l refl
    | behind l n ↦ rw (n, l) refl
    | equal _ _ e ↦ absurd (h (sym e))
  ]
  find-insert_or_assign_ne j k v ((k', v') ∷ m) h = elim (standing order k' k) [
    | before l _ ↦ rw l (elim (Bool-cases (order.less k' j)) [
      | inl b ↦ rw b (find-insert_or_assign_ne j k v m h)
      | inr b ↦ rw b refl
    ])
    | behind l n ↦
        rw (n, l)
          (elim (standing order k j) [
            | before l' _ ↦ rw l' refl
            | behind l' n' ↦
                let less : order.less j k' ≡ true = order.transitive j k k' l' l in
                rw (n', l') (rw (asymmetric order j k' less, less) refl)
            | equal _ _ e ↦ absurd (h (sym e))
          ])
    | equal n n' e ↦
        rw (n, n')
          (elim (standing order k' j) [
            | before l' _ ↦ rw l' refl
            | behind l' n'' ↦ rw (n'', l') refl
            | equal _ _ e' ↦ absurd (h (sym e' ∙ e))
          ])
  ]

  -- After `insert_or_assign` its key has the new value, and every other key what it had before,
  -- on every map.
  pub find-insert_or_assign :
      (j k : K) (v : V) (m : SimpleMap K V)
      → ((j ≡ k) × (find order j (insert_or_assign order k v m) ≡ some v))
        ⊎ ((j ≢ k) × (find order j (insert_or_assign order k v m) ≡ find order j m))
  find-insert_or_assign j k v m = elim (standing order j k) [
    | equal _ _ e ↦ inl (
      e,
      ap (λ i. find order i (insert_or_assign order k v m)) e ∙ find-insert_or_assign_self k v m,
    )
    | before l _ ↦
        inr (different order j k l, find-insert_or_assign_ne j k v m (different order j k l))
    | behind l _ ↦
        let h : j ≢ k = λ e. different order k j l (sym e) in
        inr (h, find-insert_or_assign_ne j k v m h)
  ]

  -- The keys are in order.
  abbrev pub Above : K → SimpleMap K V → Type 0
  Above k [] = Unit {0}
  Above k ((k', v) ∷ m) = (order.less k k' ≡ true) × Above k m

  abbrev pub Sorted : SimpleMap K V → Type 0
  Sorted [] = Unit {0}
  Sorted ((k, v) ∷ m) = Above k m × Sorted m

  Above-mono : (a b : K) (m : SimpleMap K V) → order.less a b ≡ true → Above b m → Above a m
  Above-mono a b [] h h' = tt
  Above-mono a b ((k, v) ∷ m) h (l, ls) = (order.transitive a b k h l, Above-mono a b m h ls)

  Above-insert_or_assign :
      (a k : K) (v : V) (m : SimpleMap K V)
      → order.less a k ≡ true
      → Above a m
      → Above a (insert_or_assign order k v m)
  unfolding insert_or_assign
  Above-insert_or_assign a k v [] h l = (h, tt)
  Above-insert_or_assign a k v ((k', v') ∷ m) h (l, ls) = elim (standing order k' k) [
    | before b _ ↦ rw b (l, Above-insert_or_assign a k v m h ls)
    | behind b n ↦ rw (n, b) (h, (l, ls))
    | equal n n' _ ↦ rw (n, n') (l, ls)
  ]

  -- `insert_or_assign` keeps the entries strictly in the order of their keys.
  pub Sorted-insert_or_assign :
      (k : K) (v : V) (m : SimpleMap K V) → Sorted m → Sorted (insert_or_assign order k v m)
  unfolding insert_or_assign
  Sorted-insert_or_assign k v [] s = (tt, tt)
  Sorted-insert_or_assign k v ((k', v') ∷ m) (a, s) = elim (standing order k' k) [
    | before b _ ↦ rw b (Above-insert_or_assign k' k v m b a, Sorted-insert_or_assign k v m s)
    | behind b n ↦ rw (n, b) ((b, Above-mono k k' m b a), (a, s))
    | equal n n' _ ↦ rw (n, n') (a, s)
  ]
