-- ===== src/SimpleMap/Erase.antt =====
-- utils/simple_map.hpp: what `erase` does to every key.
use my_async.Prelude.{true, none, [], ◌∷◌, ◌≡◌, ◌≢◌, refl, ap, sym, ◌∙◌, Bool-cases, inl, inr, ◌⊎◌}
use my_async.SimpleMap.{Order, SimpleMap, find, erase}
use my_async.SimpleMap.Laws.{asymmetric, before, behind, equal, standing, different, Above, Sorted}

module _ {ℓ κ} {K : Type ℓ} {V : Type κ} (order : Order K) where
  find-Above : (k : K) (m : SimpleMap K V) → Above order k m → find order k m ≡ none
  unfolding find
  find-Above k [] a = refl
  find-Above k ((k', v) ∷ m) (l, a) = rw (asymmetric order k k' l, l) refl

  find-erase_self :
      (k : K) (m : SimpleMap K V) → Sorted order m → find order k (erase order k m).1 ≡ none
  unfolding find erase
  find-erase_self k [] s = refl
  find-erase_self k ((k', v') ∷ m) (a, s) = elim (standing order k' k) [
    | before l _ ↦ rw l (rw l (find-erase_self k m s))
    | behind l n ↦ rw (n, l) (rw (n, l) refl)
    | equal n n' e ↦ rw (n, n') (ap (λ i. find order i m) (sym e) ∙ find-Above k' m a)
  ]

  find-erase_ne :
      (j k : K) (m : SimpleMap K V)
      → Sorted order m
      → j ≢ k
      → find order j (erase order k m).1 ≡ find order j m
  unfolding find erase
  find-erase_ne j k [] s h = refl
  find-erase_ne j k ((k', v') ∷ m) (a, s) h = elim (standing order k' k) [
    | before l _ ↦ rw l (elim (Bool-cases (order.less k' j)) [
      | inl b ↦ rw b (find-erase_ne j k m s h)
      | inr b ↦ rw b refl
    ])
    | behind l n ↦ rw (n, l) refl
    | equal n n' e ↦
        rw (n, n')
          (elim (standing order k' j) [
            | before l _ ↦ rw l refl
            | behind l n'' ↦ rw (n'', l) (find-Above j m (lower j k' m l a))
            | equal _ _ e' ↦ absurd (h (sym e' ∙ e))
          ])
  ]
    where
      lower :
          (a b : K) (m : SimpleMap K V) → order.less a b ≡ true → Above order b m → Above order a m
      lower a b [] l h = tt
      lower a b ((c, v) ∷ m) l (h, hs) = (order.transitive a b c l h, lower a b m l hs)

  -- `erase` on a map whose entries are in the order of their keys takes away its key and no
  -- other.
  pub find-erase :
      (j k : K) (m : SimpleMap K V)
      → Sorted order m
      → ((j ≡ k) × (find order j (erase order k m).1 ≡ none))
        ⊎ ((j ≢ k) × (find order j (erase order k m).1 ≡ find order j m))
  find-erase j k m s = elim (standing order j k) [
    | equal _ _ e ↦ inl (e, ap (λ i. find order i (erase order k m).1) e ∙ find-erase_self k m s)
    | before l _ ↦ inr (different order j k l, find-erase_ne j k m s (different order j k l))
    | behind l _ ↦
        let h : j ≢ k = λ e. different order k j l (sym e) in inr (h, find-erase_ne j k m s h)
  ]
