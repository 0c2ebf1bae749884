-- ===== src/RbTree/Erase/Faults.antt =====
-- utils/rbtree.hpp: doErase of a root with two children, where the tree is lost.
use my_async.Prelude.{
  ℕ, zero, suc, ◌+◌, ◌≤◌, ◌<◌, ◌≡◌, ◌≢◌, refl, ap, ◌∙◌, sym, Bool, true, false, ◌⊎◌, inl, inr,
  Option, none, some, ◌==◌, arith, not, ◌&&◌, subst,
}
use my_async.RbTree.{outermost}
use my_async.RbTree.Erase.{unlink, do_erase, replace_link, take_successor}
use my_async.RbTree.Heap.{
  left, right, Color, Nodes, set_owned, follow, points_to, set_root, set_child, set_parent,
  update_other, child_other, is_red, update_child,
}
use my_async.RbTree.Tree.{Tree, leaf, node, count, one_self, one-eq, top}
use my_async.RbTree.Links.{Rep, At}
use my_async.RbTree.Paint.{points_to_self}
use my_async.RbTree.Descent.{size, one_cases, At-Agree}
use my_async.RbTree.Reads.{outermost-left, zero_or_pos, first_in}

differ : (x w : ℕ) → w ≢ x → (w == x) ≡ false
differ x w ne = ground arith

down :
    (fuel y v b : ℕ) (h : Nodes)
    → h.child left y ≡ some v
    → outermost left fuel v h ≡ some b
    → outermost left (suc fuel) y h ≡ some b
unfolding outermost
down fuel y v b h e k = rw (e, outermost) k

at_least : (fuel y : ℕ) (h : Nodes) → h.child left y ≡ none → outermost left (suc fuel) y h ≡ some y
unfolding outermost
at_least fuel y h e = rw (e, outermost)

-- The parent of a node of a subtree is the one above the subtree, or in it.
abbrev Near : Nodes → Option ℕ → Tree → ℕ → Type 0
Near h p t b = (h.parent b ≡ p) ⊎ ((q : ℕ) × (h.parent b ≡ some q) × (0 < count q t))

Near-child :
    (h : Nodes) (p : Option ℕ) (t : Tree) (c : Color) (l : Tree) (a : ℕ) (r : Tree) (b : ℕ)
    → ((w : ℕ) → count w t ≤ count w l + count w r)
    → Near h (some a) t b
    → Near h p (node c l a r) b
Near-child h p t c l a r b le (inl e) = inr (a, e, omega (arith, one_self a))
Near-child h p t c l a r b le (inr (w, e, k)) = inr (w, e, omega (arith, k, le w))

parent-Near :
    (h : Nodes) (p : Option ℕ) (t : Tree) (b : ℕ) → Rep h p t → 0 < count b t → Near h p t b
parent-Near h p leaf b r z = absurd (omega arith)
parent-Near h p (node c l a r) b q z = elim (one_cases b a) [
  | inr (e, o) ↦ inl (ap h.parent e ∙ q.0)
  | inl o ↦ elim (zero_or_pos (count b l)) [
    | inr k ↦ Near-child h p l c l a r b (λ w. omega arith) (parent-Near h (some a) l b q.4 k)
    | inl k ↦
        Near-child h p r c l a r b (λ w. omega arith)
          (parent-Near h (some a) r b q.5 (omega (arith, z, o, k)))
  ]
]

-- The least node of a subtree stands in it.
least_in :
    (h : Nodes) (p : Option ℕ) (c : Color) (l : Tree) (a : ℕ) (r : Tree) (fuel : ℕ)
    → Rep h p (node c l a r)
    → size (node c l a r) ≤ fuel
    → (b : ℕ) × (outermost left fuel a h ≡ some b) × (0 < count b (node c l a r))
least_in h p c l a r fuel q f =
    let t = node c l a r in
    let (b, g, e) = outermost-left h p t a fuel q refl f in
    let (b', e', k) = first_in c l a r in
    (b, g, subst (λ w. 0 < count w t) (some_injective b b' (sym e' ∙ e)) k)
  where
    some_injective : (b b' : ℕ) → some b' ≡ some b → b' ≡ b
    some_injective b b' z = cc

not_parent :
    (h : Nodes) (x y : ℕ) (t : Tree) (b : ℕ)
    → y ≢ x
    → count x t ≡ 0
    → Near h (some y) t b
    → points_to (h.parent b) x ≡ false
not_parent h x y t b ne z (inl e) = rw e (differ x y ne)
not_parent h x y t b ne z (inr (w, e, k)) =
    rw e (differ x w (λ q. omega (arith, k, z, ap (λ (j : ℕ). count j t) q)))

module _ (fuel x y z b : ℕ) (h : Nodes) where
  take_successor-none :
      outermost left fuel y h ≡ some b
      → points_to (h.parent b) x ≡ false
      → h.parent x ≡ none
      → take_successor fuel x z y h ≡ none
  unfolding take_successor
  take_successor-none e f k = rw (e, follow) (rw f (rw (k, follow)))

erase-none :
    (fuel x y z : ℕ) (h : Nodes)
    → h.child left x ≡ some z
    → h.child right x ≡ some y
    → take_successor fuel x z y (set_owned x false h) ≡ none
    → do_erase fuel x h ≡ none
unfolding do_erase
erase-none fuel x y z h e k n = rw e (rw k (rw n))

-- With fuel for the nodes of the right subtree, `doErase` of a root with two children is
-- undefined if its right child has a left child, since the code follows the null parent of the
-- root.
pub do_erase-undefined :
    (fuel x : ℕ) (h : Nodes) (c k : Color) (l : Tree) (z : ℕ) (l' : Tree) (c' k' : Color) (m : Tree)
    (v : ℕ) (m' : Tree) (y : ℕ) (r : Tree)
    → At h (node c (node k l z l') x (node c' (node k' m v m') y r)) top
    → size (node c' (node k' m v m') y r) ≤ fuel
    → do_erase fuel x h ≡ none
do_erase-undefined zero x h c k l z l' c' k' m v m' y r w f = absurd (omega arith)
do_erase-undefined (suc fuel) x h c k l z l' c' k' m v m' y r w f =
    let s = node k' m v m' in
    let h₀ = set_owned x false h in
    let w₀ =
      At-Agree h h₀ (node c (node k l z l') x (node c' s y r)) top (λ i q. (refl, refl, refl, refl))
        refl w in
    let (b, e, p) = least_in h₀ (some y) k' m v m' fuel w₀.here.5.4 (omega arith) in
    let nx : y ≢ x = λ q. omega (arith, w.apart y, one_self y, one-eq y x q) in
    erase-none (suc fuel) x y z h w.here.2 w.here.3 (
      take_successor-none (suc fuel) x y z b h₀ (down fuel y v b h₀ w₀.here.5.2 e)
        (not_parent h₀ x y s b nx (omega (arith, w.apart x, one_self x))
          (parent-Near h₀ (some y) s b w₀.here.5.4 p))
        w₀.here.0)

-- The links after the successor has taken the place.
abbrev moved : ℕ → ℕ → ℕ → Nodes → Nodes
moved x y z h =
    set_parent z (some y) (set_child left y (some z) (set_root (some y) (set_parent y (some x) h)))

module _ (fuel x y z : ℕ) (h : Nodes) (ne : x ≢ y) (z_below : h.child left x ≡ some z) where
  left_kept : update_child h.child left y (h.child left x) left x ≡ some z
  left_kept = child_other h.child left left y x (h.child left x) ne ∙ z_below

  replace_link-root :
      h.root ≡ some x
      → replace_link x (some y) (set_parent y (some x) h)
        ≡ some (set_root (some y) (set_parent y (some x) h))
  unfolding replace_link
  replace_link-root e = rw (ap (λ r. points_to r x) e ∙ points_to_self x)

  take_successor-some :
      outermost left fuel y h ≡ some y
      → h.parent y ≡ some x
      → h.root ≡ some x
      → take_successor fuel x z y h
        ≡ some (y, (moved x y z h).color y, (moved x y z h).child right y, moved x y z h)
  unfolding take_successor
  take_successor-some e k q =
      rw (e, follow)
        (rw (ap (λ r. points_to r x) k ∙ points_to_self x)
          (rw (replace_link-root q, follow) (rw (left_kept, follow) (rw z_below))))

and_false : (b : Bool) → (b && false) ≡ false
and_false true = refl
and_false false = refl

unlink-root :
    (fuel y : ℕ) (c : Color) (h : Nodes)
    → h.root ≡ some y
    → unlink fuel y c none h ≡ some (set_root none h)
unfolding unlink replace_link
unlink-root fuel y c h e =
    rw (ap (λ r. points_to r y) e ∙ points_to_self y) (rw (and_false (not (is_red c))))

erase-some :
    (fuel x y z : ℕ) (h : Nodes) (c : Color) (o : Option ℕ) (h₁ : Nodes) (r : Option Nodes)
    → h.child left x ≡ some z
    → h.child right x ≡ some y
    → take_successor fuel x z y (set_owned x false h) ≡ some (y, c, o, h₁)
    → unlink fuel y c o h₁ ≡ r
    → do_erase fuel x h ≡ r
unfolding do_erase
erase-some fuel x y z h c o h₁ r e k n q = rw e (rw k (rw n q))

-- `doErase` of a root with two children whose right child is a leaf leaves an empty tree,
-- although the nodes of the left subtree have not been erased; the left child still counts itself
-- among the tree's nodes.
pub do_erase-lost :
    (fuel x : ℕ) (h : Nodes) (c k : Color) (l : Tree) (z : ℕ) (l' : Tree) (c' : Color) (y : ℕ)
    → At h (node c (node k l z l') x (node c' leaf y leaf)) top
    → (h' : Nodes) × (do_erase (suc fuel) x h ≡ some h')
      × (h'.root ≡ none)
      × (h'.owned z ≡ h.owned z)
unfolding update_child
do_erase-lost fuel x h c k l z l' c' y m =
    let h₀ = set_owned x false h in
    let h₁ = moved x y z h₀ in
    (
      set_root none h₁,
      erase-some (suc fuel) x y z h (h₁.color y) none h₁ (some (set_root none h₁)) m.here.2 m.here.3
          (take_successor-some (suc fuel) x y z h₀
              (λ q. omega (arith, m.apart x, one_self x, one-eq x y q)) m.here.2
              (at_least fuel y h₀ m.here.5.2) m.here.5.0 m.link
            ∙ ap (λ o. some (y, h₁.color y, o, h₁)) m.here.5.3)
          (unlink-root (suc fuel) y (h₁.color y) h₁ refl),
      refl,
      update_other h.owned x z false (λ q. omega (arith, m.apart z, one_self z, one-eq z x q)),
    )
