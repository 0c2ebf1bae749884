-- ===== src/RbTree/Owners.antt =====
-- utils/rbtree.hpp: the rotations, the fix-up and the removal leave the owners of the other nodes alone.
use my_async.Prelude.{
  ℕ, zero, suc, ◌≡◌, refl, sym, ◌∙◌, subst, Bool, true, false, Option, none, some, Option-cases,
  inl, inr, ◌⊎◌, if◌then◌else◌, not, ◌&&◌,
}
use my_async.RbTree.{
  adopt, relink, rotate, recolor, turn, turn_outer, fix_below, fix_step, fix_loop, fix_violation,
  prepare, descend, attach, do_insert, go_on,
}
use my_async.RbTree.Erase.{replace_link, unlink, do_erase, is_some}
use my_async.RbTree.Erase.Single.{do_erase_low, do_erase_high}
use my_async.RbTree.Heap.{
  Side, left, right, opposite, Color, is_red, Nodes, set_child, set_parent, set_owned, follow,
  points_to, update,
}

-- What holds of a result, if there is one.
abbrev pub Holds : {A : Type 0} → (A → Type 0) → Option A → Type 0
Holds P none = Unit {0}
Holds P (some a) = P a

pub Holds-follow :
    {A B : Type 0} (P : A → Type 0) (Q : B → Type 0) (o : Option A) (k : A → Option B)
    → Holds P o
    → ((a : A) → P a → Holds Q (k a))
    → Holds Q (follow o k)
Holds-follow P Q none k p f = tt
Holds-follow P Q (some a) k p f = f a p

Holds-if :
    {A : Type 0} (P : A → Type 0) (b : Bool) (x y : Option A)
    → Holds P x
    → Holds P y
    → Holds P (if b then x else y)
Holds-if P true x y p q = p
Holds-if P false x y p q = q

Holds-any : {A : Type 0} (o : Option A) → Holds (λ (a : A). Unit {0}) o
Holds-any none = tt
Holds-any (some a) = tt

-- The owners of the nodes are those given.
abbrev pub Owned : (ℕ → Bool) → Nodes → Type 0
Owned w h = h.owned ≡ w

owned-adopt : (o p : Option ℕ) (h : Nodes) → (adopt o p h).owned ≡ h.owned
owned-adopt none p h = refl
owned-adopt (some b) p h = refl

owned-if :
    (b : Bool) (h h' : Nodes) (w : ℕ → Bool)
    → h.owned ≡ w
    → h'.owned ≡ w
    → (if b then h else h').owned ≡ w
owned-if true h h' w p q = p
owned-if false h h' w p q = q

owned-relink : (d : Side) (x : ℕ) (o : Option ℕ) (h : Nodes) → (relink d x o h).owned ≡ h.owned
unfolding relink
owned-relink d x o h = elim (Option-cases (h.parent x)) [
  | inl e ↦ rw (e, relink)
  | inr (p, e) ↦
      rw (e, relink)
        (owned-if (points_to (h.child d p) x) (set_child d p o h) (set_child (opposite d) p o h)
          h.owned refl refl)
]

rotate-Owned : (d : Side) (x : ℕ) (h : Nodes) → Holds (Owned h.owned) (rotate d x h)
unfolding rotate
rotate-Owned d x h =
    Holds-follow (λ (y : ℕ). Unit {0}) (Owned h.owned) (h.child (opposite d) x) _
      (Holds-any (h.child (opposite d) x))
      (λ y u.
        let h₁ = set_child (opposite d) x (h.child d y) h in
        let h₂ = adopt (h.child d y) (some x) h₁ in
        owned-relink d x (some y) (set_parent y (h₂.parent x) h₂)
        ∙ owned-adopt (h.child d y) (some x) h₁)

abbrev OwnedAt : (ℕ → Bool) → ℕ × Nodes → Type 0
OwnedAt w (x, h) = h.owned ≡ w

turn_outer-OwnedAt : (d : Side) (p g : ℕ) (h : Nodes) → Holds (OwnedAt h.owned) (turn_outer d p g h)
unfolding turn_outer
turn_outer-OwnedAt d p g h =
    Holds-follow (Owned h.owned) (OwnedAt h.owned) (rotate (opposite d) g h) _
      (rotate-Owned (opposite d) g h) (λ h₁ e. e)

turn-OwnedAt : (d : Side) (x p g : ℕ) (h : Nodes) → Holds (OwnedAt h.owned) (turn d x p g h)
unfolding turn
turn-OwnedAt d x p g h =
    Holds-if (OwnedAt h.owned) (points_to (h.child (opposite d) p) x) _ _
      (Holds-follow (Owned h.owned) (OwnedAt h.owned) (rotate d p h) _ (rotate-Owned d p h) (λ h₁ e.
        Holds-follow (λ (q : ℕ). Unit {0}) (OwnedAt h.owned) (h₁.parent p) _
          (Holds-any (h₁.parent p))
          (λ q u.
            subst (λ w. Holds (OwnedAt w) (turn_outer d q g h₁)) e (turn_outer-OwnedAt d q g h₁))))
      (turn_outer-OwnedAt d p g h)

-- The same of a round, which may also say that the loop ends.
abbrev OwnedNext : (ℕ → Bool) → Option (ℕ × Nodes) → Type 0
OwnedNext w r = Holds (OwnedAt w) r

turned-OwnedNext :
    (d : Side) (x p g : ℕ) (h : Nodes)
    → Holds
        (OwnedNext h.owned)
        (follow {B = Option (ℕ × Nodes)} (turn d x p g h) (λ r. some (some r)))
turned-OwnedNext d x p g h =
    Holds-follow (OwnedAt h.owned) (OwnedNext h.owned) (turn d x p g h) _ (turn-OwnedAt d x p g h)
      (λ r e. e)

owned-recolor : (p g u : ℕ) (h : Nodes) → (recolor p g u h).owned ≡ h.owned
unfolding recolor
owned-recolor p g u h = refl

fix_below-OwnedNext :
    (d : Side) (x p g : ℕ) (h : Nodes) → Holds (OwnedNext h.owned) (fix_below d x p g h)
unfolding fix_below
fix_below-OwnedNext d x p g h = elim (Option-cases (h.child (opposite d) g)) [
  | inl e ↦ rw (e, fix_below) (turned-OwnedNext d x p g h)
  | inr (u, e) ↦
      rw (e, fix_below)
        (Holds-if (OwnedNext h.owned) (is_red (h.color u)) _ _ (owned-recolor p g u h)
          (turned-OwnedNext d x p g h))
]

fix_step-OwnedNext : (x : ℕ) (h : Nodes) → Holds (OwnedNext h.owned) (fix_step x h)
unfolding fix_step
fix_step-OwnedNext x h = Holds-if (OwnedNext h.owned) (points_to h.root x) _ _ tt (
    Holds-if (OwnedNext h.owned) (not (is_red (h.color x))) _ _ tt (
      Holds-follow (λ (q : ℕ). Unit {0}) (OwnedNext h.owned) (h.parent x) _ (Holds-any (h.parent x))
        (λ p u. Holds-if (OwnedNext h.owned) (not (is_red (h.color p))) _ _ tt (
          Holds-follow (λ (q : ℕ). Unit {0}) (OwnedNext h.owned) (h.parent p) _
            (Holds-any (h.parent p))
            (λ g v.
              fix_below-OwnedNext (if points_to (h.child left g) p then left else right) x p g
                h)))))

fix_loop-Owned : (fuel x : ℕ) (h : Nodes) → Holds (Owned h.owned) (fix_loop fuel x h)
unfolding fix_loop
fix_loop-Owned zero x h = tt
fix_loop-Owned (suc fuel) x h =
    Holds-follow (OwnedNext h.owned) (Owned h.owned) (fix_step x h) _ (fix_step-OwnedNext x h)
      (λ r e. again r e (fix_loop-Owned fuel))
  where
    again :
        (r : Option (ℕ × Nodes))
        → OwnedNext h.owned r
        → ((x' : ℕ) (h' : Nodes) → Holds (Owned h'.owned) (fix_loop fuel x' h'))
        → Holds (Owned h.owned) (go_on (fix_loop fuel) h r)
    again none e rest = refl
    again (some (x', h')) e rest = subst (λ w. Holds (Owned w) (fix_loop fuel x' h')) e (rest x' h')

fix_violation-Owned : (fuel x : ℕ) (h : Nodes) → Holds (Owned h.owned) (fix_violation fuel x h)
unfolding fix_violation
fix_violation-Owned fuel x h =
    Holds-follow (Owned h.owned) (Owned h.owned) (fix_loop fuel x h) _ (fix_loop-Owned fuel x h)
      (λ h' e.
        Holds-follow (λ (q : ℕ). Unit {0}) (Owned h.owned) h'.root _ (Holds-any h'.root) (λ q u. e))

replace_link-Owned : (x : ℕ) (o : Option ℕ) (h : Nodes) → Holds (Owned h.owned) (replace_link x o h)
unfolding replace_link
replace_link-Owned x o h = Holds-if (Owned h.owned) (points_to h.root x) _ _ refl (
    Holds-follow (λ (q : ℕ). Unit {0}) (Owned h.owned) (h.parent x) _ (Holds-any (h.parent x))
      (λ p u. Holds-if (Owned h.owned) (points_to (h.child left p) x) _ _ refl refl))

-- Removing a node changes no owner but, before, that of the node itself.
pub unlink-Owned :
    (fuel x : ℕ) (c : Color) (o : Option ℕ) (h : Nodes)
    → Holds (Owned h.owned) (unlink fuel x c o h)
unfolding unlink
unlink-Owned fuel x c o h =
    let h₁ = adopt o (h.parent x) h in
    let q : h₁.owned ≡ h.owned = owned-adopt o (h.parent x) h in
    Holds-follow (Owned h.owned) (Owned h.owned) (replace_link x o h₁) _
      (subst (λ w. Holds (Owned w) (replace_link x o h₁)) q (replace_link-Owned x o h₁))
      (λ h₂ e.
        Holds-if (Owned h.owned) (not (is_red c) && is_some h₂.root) _ _
          (Holds-follow (λ (y : ℕ). Unit {0}) (Owned h.owned) _ _ (Holds-any _)
            (λ y u.
              subst (λ w. Holds (Owned w) (fix_violation fuel y h₂)) e
                (fix_violation-Owned fuel y h₂)))
          e)

pub do_erase-Owned :
    (fuel x : ℕ) (h : Nodes)
    → (h.child left x ≡ none) ⊎ (h.child right x ≡ none)
    → Holds (Owned (update h.owned x false)) (do_erase fuel x h)
do_erase-Owned fuel x h (inl e) =
    subst (Holds (Owned (update h.owned x false)))
      (sym (do_erase_low fuel x h (h.color x) (h.child right x) e refl refl))
      (unlink-Owned fuel x (h.color x) (h.child right x) (set_owned x false h))
do_erase-Owned fuel x h (inr e) = elim (Option-cases (h.child left x)) [
  | inl k ↦ do_erase-Owned_left k
  | inr (y, k) ↦
      subst (Holds (Owned (update h.owned x false)))
        (sym (do_erase_high fuel x y h (h.color x) k e refl))
        (unlink-Owned fuel x (h.color x) (some y) (set_owned x false h))
]
  where
    do_erase-Owned_left :
        h.child left x ≡ none → Holds (Owned (update h.owned x false)) (do_erase fuel x h)
    do_erase-Owned_left k =
        subst (Holds (Owned (update h.owned x false)))
          (sym (do_erase_low fuel x h (h.color x) (h.child right x) k refl refl))
          (unlink-Owned fuel x (h.color x) (h.child right x) (set_owned x false h))

attach-Owned :
    (compare : ℕ → ℕ → Bool) (x : ℕ) (p : Option ℕ) (h : Nodes)
    → (attach compare x p h).owned ≡ h.owned
unfolding attach
attach-Owned compare x none h = refl
attach-Owned compare x (some p) h = refl

-- The insertion makes the tree the owner of the node.
pub do_insert-Owned :
    (compare : ℕ → ℕ → Bool) (fuel x : ℕ) (h : Nodes)
    → Holds (Owned (update h.owned x true)) (do_insert compare fuel x h)
unfolding do_insert prepare
do_insert-Owned compare fuel x h =
    let w = update h.owned x true in
    let h₁ = prepare x h in
    Holds-follow (λ (p : Option ℕ). Unit {0}) (Owned w) (descend compare fuel x none h₁.root h₁) _
      (Holds-any (descend compare fuel x none h₁.root h₁))
      (λ p u.
        subst (λ v. Holds (Owned v) (fix_violation fuel x (attach compare x p h₁)))
          (attach-Owned compare x p h₁) (fix_violation-Owned fuel x (attach compare x p h₁)))
