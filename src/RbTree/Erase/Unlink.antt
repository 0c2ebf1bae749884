-- ===== src/RbTree/Erase/Unlink.antt =====
-- utils/rbtree.hpp: the last part of doErase, by which a node with at most one child leaves the tree.
use my_async.Prelude.{
  ℕ, ◌+◌, ◌≤◌, ◌<◌, ◌≡◌, ◌≢◌, refl, ap, ◌∙◌, Bool, true, false, Option, none, some, if◌then◌else◌,
  arith,
}
use my_async.RbTree.{adopt, fix_violation}
use my_async.RbTree.Erase.{replace_link, unlink, is_some}
use my_async.RbTree.Heap.{
  Side, left, right, Color, red, black, Nodes, set_child, set_root, follow, points_to,
}
use my_async.RbTree.Tree.{
  Tree, pointer, count, one, one_self, count-pointer, Route, top, below, above, count_path,
}
use my_async.RbTree.Links.{Rep, Link, Around, At, Around-Agree}
use my_async.RbTree.Paint.{
  relinked, relinked-Around, child-relinked, parent-relinked, color-relinked, points_to-false,
  points_to_self,
}
use my_async.RbTree.Turns

-- The link found in the source is the one from above.
replace_link-top :
    (x : ℕ) (o : Option ℕ) (h : Nodes) → h.root ≡ some x → replace_link x o h ≡ some (set_root o h)
unfolding replace_link
replace_link-top x o h e = rw (ap (λ r. points_to r x) e ∙ points_to_self x)

replace_link-below :
    (x p : ℕ) (o : Option ℕ) (b : Bool) (h : Nodes)
    → points_to h.root x ≡ false
    → h.parent x ≡ some p
    → points_to (h.child left p) x ≡ b
    → replace_link x o h ≡ (if b then some (set_child left p o h) else some (set_child right p o h))
unfolding replace_link
replace_link-below x p o b h n e k = rw n (rw (e, follow) (rw k))

replace_link_lem :
    (x : ℕ) (o : Option ℕ) (π : Route) (h : Nodes)
    → h.parent x ≡ above π
    → Link h (some x) π
    → Around h π
    → count_path x π ≡ 0
    → ((d : Side) (c : Color) (a : ℕ) (s : Tree) (π' : Route)
        → π ≡ below d c a s π'
        → points_to h.root x ≡ false)
    → replace_link x o h ≡ some (relinked o π h)
unfolding relinked
replace_link_lem x o top h e k r z n = replace_link-top x o h k
replace_link_lem x o (below left c a s π) h e k r z n =
    replace_link-below x a o true h (n left c a s π refl) e
      (ap (λ w. points_to w x) k ∙ points_to_self x)
replace_link_lem x o (below right c a s π) h e k r z n =
    replace_link-below x a o false h (n right c a s π refl) e
      (ap (λ w. points_to w x) r.2 ∙ points_to-false s x (omega arith))

-- A node with one subtree, and the links with that subtree in its place.
module _ (h : Nodes) (x : ℕ) (s : Tree) (π : Route) (parent_is : h.parent x ≡ above π)
    (link : Link h (some x) π) (around : Around h π) (rep : Rep h (some x) s)
    (apart : (i : ℕ) → count i s + one i x + count_path i π ≤ 1)
    (n : (d : Side) (c : Color) (a : ℕ) (s' : Tree) (π' : Route)
      → π ≡ below d c a s' π'
      → points_to h.root x ≡ false) where
  not_child : pointer s ≢ some x
  not_child e = omega (arith, apart x, one_self x, count-pointer s x e)

  Around-adopted :
      Link (adopt (pointer s) (above π) h) (some x) π × Around (adopt (pointer s) (above π) h) π
  Around-adopted =
      Around-Agree h (adopt (pointer s) (above π) h) (some x) π
        (λ i p. (
          Turns.parent-adopt (pointer s) (above π) h i
              (λ e. omega (arith, apart i, count-pointer s i e)),
          ap (λ f. f i) (Turns.color-adopt (pointer s) (above π) h),
          ap (λ f. f left i) (Turns.child-adopt (pointer s) (above π) h),
          ap (λ f. f right i) (Turns.child-adopt (pointer s) (above π) h),
        ))
        (Turns.root-adopt (pointer s) (above π) h) link around

  pub unlinked-eq :
      replace_link x (pointer s) (adopt (pointer s) (above π) h)
      ≡ some (relinked (pointer s) π (adopt (pointer s) (above π) h))
  unlinked-eq =
      replace_link_lem x (pointer s) π (adopt (pointer s) (above π) h)
        (Turns.parent-adopt (pointer s) (above π) h x not_child ∙ parent_is) Around-adopted.0
        Around-adopted.1 (omega (arith, apart x, one_self x))
        (λ d c a s' π' e.
          ap (λ r. points_to r x) (Turns.root-adopt (pointer s) (above π) h) ∙ n d c a s' π' e)

  pub unlinked_parent : (relinked (pointer s) π (adopt (pointer s) (above π) h)).parent x ≡ above π
  unlinked_parent =
      ap (λ f. f x) (parent-relinked (pointer s) π (adopt (pointer s) (above π) h))
      ∙ Turns.parent-adopt (pointer s) (above π) h x not_child
      ∙ parent_is

  pub unlinked-At : At (relinked (pointer s) π (adopt (pointer s) (above π) h)) s π
  unlinked-At =
      let h₁ = adopt (pointer s) (above π) h in
      let h₂ = relinked (pointer s) π h₁ in
      let (k, r) =
        relinked-Around (pointer s) (some x) π h₁ Around-adopted.0 Around-adopted.1
          (λ i. omega (arith, apart i)) in
      let child_eq : (i : ℕ) (e : Side) → 0 < count i s → h₂.child e i ≡ h.child e i = λ i e p.
        child-relinked (pointer s) π h₁ e i (omega (arith, apart i))
        ∙ ap (λ f. f e i) (Turns.child-adopt (pointer s) (above π) h) in
      let color_eq : h₂.color ≡ h.color =
        color-relinked (pointer s) π h₁ ∙ Turns.color-adopt (pointer s) (above π) h in
      record {
        here =
            Turns.Rep-adopt h h₂ (some x) (above π) s
              (λ i p ne. (
                ap (λ f. f i) (parent-relinked (pointer s) π h₁)
                    ∙ Turns.parent-adopt (pointer s) (above π) h i ne,
                ap (λ f. f i) color_eq,
                child_eq i left p,
                child_eq i right p,
              ))
              color_eq child_eq
              (λ b e.
                ap (λ f. f b) (parent-relinked (pointer s) π h₁)
                ∙ Turns.parent-adopt_self (pointer s) (above π) h b e)
              (λ i. omega (arith, apart i)) rep;
        link = k;
        around = r;
        apart = λ i. omega (arith, apart i);
      }

-- The rest of `unlink`.
module _ (fuel x : ℕ) (o p : Option ℕ) (h h₂ : Nodes) (e : h.parent x ≡ p)
    (k : replace_link x o (adopt o p h) ≡ some h₂) where
  reached : replace_link x o (adopt o (h.parent x) h) ≡ some h₂
  reached = ap (λ q. replace_link x o (adopt o q h)) e ∙ k

  pub unlink-red : unlink fuel x red o h ≡ some h₂
  unfolding unlink
  unlink-red = rw (reached, follow)

  pub unlink-empty : h₂.root ≡ none → unlink fuel x black o h ≡ some h₂
  unfolding unlink
  unlink-empty z = rw (reached, follow) (rw (ap is_some z))

  pub unlink-child :
      (c q : ℕ) → h₂.root ≡ some q → o ≡ some c → unlink fuel x black o h ≡ fix_violation fuel c h₂
  unfolding unlink
  unlink-child c q z w = rw (reached, follow) (rw (ap is_some z) (rw w))

  pub unlink-parent :
      (a q : ℕ)
      → h₂.root ≡ some q
      → o ≡ none
      → h₂.parent x ≡ some a
      → unlink fuel x black o h ≡ fix_violation fuel a h₂
  unfolding unlink
  unlink-parent a q z w f = rw (reached, follow) (rw (ap is_some z) (rw w (rw (f, follow))))
