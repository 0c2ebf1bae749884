-- ===== src/RbTree/Descent.antt =====
-- utils/rbtree.hpp: the way down of doInsert, and the new leaf.
use my_async.Prelude.{
  ℕ, suc, zero, ◌+◌, ◌≤◌, ◌<◌, ◌≡◌, ◌≢◌, refl, ap, ◌∙◌, Bool, true, false, none, some, arith, ◌⊎◌,
  inl, inr, Bool-cases, ◌==◌,
}
use my_async.RbTree.{prepare, descend, attach, side_of}
use my_async.RbTree.Heap.{
  Side, left, right, Color, red, Nodes, set_color, set_owned, set_child, set_parent, update_child,
  update_self, update_other, child_self, child_other, child_opposite,
}
use my_async.RbTree.Tree.{
  Tree, leaf, node, join, pointer, plug, count, Route, top, below, above, count_path, one,
  pointer-join,
}
use my_async.RbTree.Links.{At, At-down, Agree, Rep-Agree, Around-Agree}
use my_async.RbTree.Paint.{
  relinked, relinked-Around, child-relinked, parent-relinked, color-relinked,
}
use my_async.RbTree.Steps.{depth}

-- The number of nodes.
abbrev pub size : Tree → ℕ
size leaf = 0
size (node c l a r) = suc (size l + size r)

pub size-join :
    (d : Side) (c : Color) (a : ℕ) (s t : Tree) → size (join d c a s t) ≡ suc (size s + size t)
size-join left c a s t = refl
size-join right c a s t = omega arith

-- A node that is in no tree yet: red, with no children.
pub record IsNew (h : Nodes) (x : ℕ) : Type 0 where
  pub is_red : h.color x ≡ red
  pub no_left : h.child left x ≡ none
  pub no_right : h.child right x ≡ none

-- The links of a tree do not change with a node outside of it.
pub At-Agree :
    (h h' : Nodes) (t : Tree) (π : Route)
    → ((i : ℕ) → 0 < count i t + count_path i π → Agree h h' i)
    → h'.root ≡ h.root
    → At h t π
    → At h' t π
At-Agree h h' t π e q m =
    let (k, r) = Around-Agree h h' (pointer t) π (λ i p. e i (omega arith)) q m.link m.around in
    record {
      here = Rep-Agree h h' (above π) t (λ i p. e i (omega arith)) m.here;
      link = k;
      around = r;
      apart = m.apart;
    }

pub prepare-IsNew : (x : ℕ) (h : Nodes) → IsNew (prepare x h) x
unfolding prepare
prepare-IsNew x h = record {
  is_red = update_self h.color x red;
  no_left = child_other' ∙ child_self h.child left x none;
  no_right = child_self (update_child h.child left x none) right x none;
}
  where
    child_other' :
        update_child (update_child h.child left x none) right x none left x
        ≡ update_child h.child left x none left x
    child_other' = child_opposite (update_child h.child left x none) right x x none

pub prepare-At :
    (x : ℕ) (h : Nodes) (t : Tree) → count x t ≡ 0 → At h t top → At (prepare x h) t top
unfolding prepare
prepare-At x h t z m =
    At-Agree h
      (set_color x red (set_owned x true (set_child right x none (set_child left x none h)))) t top
      (λ i p.
        let ne : i ≢ x = λ e. omega (arith, ap (λ (j : ℕ). count j t) e) in
        (
          refl,
          update_other h.color x i red ne,
          child_other (update_child h.child left x none) right left x i none ne
              ∙ child_other h.child left left x i none ne,
          child_other (update_child h.child left x none) right right x i none ne
              ∙ child_other h.child left right x i none ne,
        ))
      refl m

pub one_cases : (i a : ℕ) → (one i a ≡ 0) ⊎ ((i ≡ a) × (one i a ≡ 1))
one_cases i a = elim (Bool-cases (i == a)) [ inl e ↦ inr (ground arith, rw e) | inr e ↦ inl (rw e) ]

-- The new leaf, at a place where there is none.
attached-At :
    (x : ℕ) (π : Route) (h : Nodes)
    → IsNew h x
    → count_path x π ≡ 0
    → At h leaf π
    → At (relinked (some x) π (set_parent x (above π) h)) (node red leaf x leaf) π
attached-At x π h n z m =
    let h₁ = set_parent x (above π) h in
    let (k₁, r₁) =
      Around-Agree h h₁ none π
        (λ i p. (
          update_other h.parent x i (above π)
              (λ e. omega (arith, ap (λ (j : ℕ). count_path j π) e)),
          refl,
          refl,
          refl,
        ))
        refl m.link m.around in
    let (k, r) = relinked-Around (some x) none π h₁ k₁ r₁ (λ i. omega (arith, m.apart i)) in
    record {
      here = (
        ap (λ f. f x) (parent-relinked (some x) π h₁) ∙ update_self h.parent x (above π),
        ap (λ f. f x) (color-relinked (some x) π h₁) ∙ n.is_red,
        child-relinked (some x) π h₁ left x z ∙ n.no_left,
        child-relinked (some x) π h₁ right x z ∙ n.no_right,
        tt,
        tt,
      );
      link = k;
      around = r;
      apart = λ i. apart_new i (one_cases i x);
    }
  where
    apart_new :
        (i : ℕ) → (one i x ≡ 0) ⊎ ((i ≡ x) × (one i x ≡ 1)) → 0 + one i x + 0 + count_path i π ≤ 1
    apart_new i (inl e) = omega (arith, m.apart i)
    apart_new i (inr (e, o)) = omega (arith, z, ap (λ (j : ℕ). count_path j π) e)

module _ (compare : ℕ → ℕ → Bool) where
  -- The place to which the source goes down for a node.
  unfoldable pub place : ℕ → Tree → Route → Route
  place x leaf π = π
  place x (node c l a r) π = elim (compare x a) [
    | true ↦ place x l (below left c a r π)
    | false ↦ place x r (below right c a l π)
  ]

  -- The side of the new leaf is the one that the second comparison finds.
  abbrev pub Chosen : ℕ → Route → Type 0
  Chosen x top = Unit {0}
  Chosen x (below d c a s π) = side_of (compare x a) ≡ d

  attach-relinked :
      (x : ℕ) (π : Route) (h : Nodes)
      → Chosen x π
      → attach compare x (above π) h ≡ relinked (some x) π (set_parent x (above π) h)
  unfolding attach relinked
  attach-relinked x top h e = refl
  attach-relinked x (below d c a s π) h e = rw e

  pub attach-At :
      (x : ℕ) (π : Route) (h : Nodes)
      → IsNew h x
      → Chosen x π
      → count_path x π ≡ 0
      → At h leaf π
      → At (attach compare x (above π) h) (node red leaf x leaf) π
  attach-At x π h n e z m = rw (attach-relinked x π h e) (attached-At x π h n z m)

  -- What the way down gives: the links at the place, its parent, and the tree as it was.
  pub record Found (x : ℕ) (t : Tree) (π : Route) (h : Nodes) (fuel : ℕ) (π' : Route) : Type 0 where
    pub gives : descend compare fuel x (above π) (pointer t) h ≡ some (above π')
    pub at_place : At h leaf π'
    pub same : plug leaf π' ≡ plug t π
    pub chosen : Chosen x π'
    pub near : depth π' ≤ depth π + size t

  Found-down :
      (x : ℕ) (d : Side) (c : Color) (a : ℕ) (s s' : Tree) (π : Route) (h : Nodes) (fuel : ℕ)
      (π' : Route)
      → side_of (compare x a) ≡ d
      → h.child d a ≡ pointer s
      → Found x s (below d c a s' π) h fuel π'
      → Found x (join d c a s s') π h (suc fuel) π'
  unfolding descend plug
  Found-down x d c a s s' π h fuel π' e k v = record {
    gives = rw (pointer-join d c a s s') (rw e (rw k v.gives));
    at_place = v.at_place;
    same = v.same;
    chosen = v.chosen;
    near = omega (arith, v.near, size-join d c a s s');
  }

  pub descend_lem :
      (x : ℕ) (t : Tree) (π : Route) (h : Nodes) (fuel : ℕ)
      → size t < fuel
      → Chosen x π
      → At h t π
      → Found x t π h fuel (place x t π)
  unfolding descend place
  descend_lem x t π h zero f k m = absurd (omega arith)
  descend_lem x leaf π h (suc fuel) f k m = record {
    gives = refl;
    at_place = m;
    same = refl;
    chosen = k;
    near = omega arith;
  }
  descend_lem x (node c l a r) π h (suc fuel) f k m = elim (Bool-cases (compare x a)) [
    | inl e ↦
        rw (e, place)
          (Found-down x left c a l r π h fuel (place x l (below left c a r π)) (rw e) m.here.2 (
            descend_lem x l (below left c a r π) h fuel (omega arith) (rw e)
              (At-down h l left c a r π m)))
    | inr e ↦
        rw (e, place)
          (Found-down x right c a r l π h fuel (place x r (below right c a l π)) (rw e) m.here.3 (
            descend_lem x r (below right c a l π) h fuel (omega arith) (rw e)
              (At-down h r right c a l π m)))
  ]
