-- ===== src/RbTree/Loop.antt =====
-- utils/rbtree.hpp: fixViolation as a whole. The loop ends within the depth of the node.
use my_async.Prelude.{ℕ, suc, zero, ◌<◌, ◌≡◌, ◌≢◌, refl, ◌∙◌, sym, Option, none, some, arith}
use my_async.RbTree.{fix_step, fix_loop, fix_violation}
use my_async.RbTree.Heap.{black, Nodes, follow, set_color}
use my_async.RbTree.Tree.{Tree, leaf, node, join, pointer, pointer-join, plug, Route, top, below}
use my_async.RbTree.Links.{At, At-up}
use my_async.RbTree.Paint.{At-paint}
use my_async.RbTree.Steps.{step, OnSome, Rooted, depth, step-depth, step-Rooted, painted}
use my_async.RbTree.Rounds.{Follows, fix_step-step}

-- The loop ends at a place where no further round is due, and what each round keeps holds there.
abbrev pub Ends : (Tree → Route → Type 0) → ℕ → ℕ → Nodes → Type 0
Ends P fuel x h =
    (t : Tree) × (π : Route) × (h' : Nodes) × (fix_loop fuel x h ≡ some h')
    × (pointer t ≢ none)
    × At h' t π
    × (step t π ≡ none)
    × P t π

module _ (P : Tree → Route → Type 0)
    (keep : (t : Tree) (π : Route) → P t π → OnSome P (step t π)) where
  Ends-next :
      (fuel : ℕ) (t : Tree) (π : Route) (x : ℕ) (h : Nodes) (o : Option (Tree × Route))
      → step t π ≡ o
      → pointer t ≡ some x
      → depth π < suc fuel
      → At h t π
      → P t π
      → Follows (fix_step x h) o
      → OnSome P o
      → OnSome (λ t' π'. depth π' < depth π) o
      → OnSome (λ t' π'. Rooted π') o
      → ((t' : Tree) (π' : Route) (x' : ℕ) (h' : Nodes)
          → depth π' < fuel
          → pointer t' ≡ some x'
          → At h' t' π'
          → Rooted π'
          → P t' π'
          → Ends P fuel x' h')
      → Ends P (suc fuel) x h
  unfolding fix_loop
  Ends-next fuel t π x h none e q d m p f a b c rest =
      (t, π, h, rw (f, follow), (λ z. some_ne_none (sym q ∙ z)), m, e, p)
    where
      some_ne_none : some x ≡ none → ⊥
      some_ne_none z = cc
  Ends-next fuel t π x h (some (t', π')) e q d m p (x', h', f, q', m') a b c rest =
      rw (f, follow) (rest t' π' x' h' (omega arith) q' m' c a)

  pub fix_loop_lem :
      (fuel : ℕ) (t : Tree) (π : Route) (x : ℕ) (h : Nodes)
      → depth π < fuel
      → pointer t ≡ some x
      → At h t π
      → Rooted π
      → P t π
      → Ends P fuel x h
  fix_loop_lem zero t π x h d q m w p = absurd (omega arith)
  fix_loop_lem (suc fuel) leaf π x h d q m w p = absurd (none_ne_some q)
    where
      none_ne_some : none ≡ some x → ⊥
      none_ne_some z = cc
  fix_loop_lem (suc fuel) (node c l a r) π x h d q m w p =
      let t = node c l a r in
      let f : Follows (fix_step x h) (step t π) =
        rw (← some_injective q) (fix_step-step h c l a r π m w) in
      Ends-next fuel t π x h (step t π) refl q d m p f (keep t π p) (step-depth t π)
        (step-Rooted t π w) (fix_loop_lem fuel)
    where
      some_injective : some a ≡ some x → a ≡ x
      some_injective z = cc

-- The place moves up to the root.
pub At-plug : (h : Nodes) (t : Tree) (π : Route) → At h t π → At h (plug t π) top
unfolding plug
At-plug h t top m = m
At-plug h t (below d c a s π) m = At-plug h (join d c a t s) π (At-up h t d c a s π m)

pointer-plug : (t : Tree) (π : Route) → pointer t ≢ none → pointer (plug t π) ≢ none
unfolding plug
pointer-plug t top q = q
pointer-plug t (below d c a s π) q =
    pointer-plug (join d c a t s) π (λ e. some_ne_none (sym (pointer-join d c a t s) ∙ e))
  where
    some_ne_none : some a ≡ none → ⊥
    some_ne_none z = cc

-- `root->rbColor = BLACK`.
blacken :
    (t : Tree) (h : Nodes)
    → pointer t ≢ none
    → At h t top
    → (h' : Nodes) × (follow h.root (λ a. some (set_color a black h)) ≡ some h')
      × At h' (painted black t) top
blacken leaf h q m = absurd (q refl)
blacken (node c l a r) h q m =
    (set_color a black h, rw (m.link, follow), At-paint h c black l a r top m)

-- The result of fixViolation, from a place where a node is.
pub fix_violation_lem :
    (P : Tree → Route → Type 0) (keep : (t : Tree) (π : Route) → P t π → OnSome P (step t π))
    (fuel : ℕ) (t : Tree) (π : Route) (x : ℕ) (h : Nodes)
    → depth π < fuel
    → pointer t ≡ some x
    → At h t π
    → Rooted π
    → P t π
    → (t' : Tree) × (π' : Route) × (h' : Nodes) × (fix_violation fuel x h ≡ some h')
      × At h' (painted black (plug t' π')) top
      × (step t' π' ≡ none)
      × P t' π'
unfolding fix_violation
fix_violation_lem P keep fuel t π x h d q m w p =
    let (t', π', h₁, e, n, m₁, s, p') = fix_loop_lem P keep fuel t π x h d q m w p in
    let (h', e', m') = blacken (plug t' π') h₁ (pointer-plug t' π' n) (At-plug h₁ t' π' m₁) in
    (t', π', h', rw (e, follow) e', m', s, p')
