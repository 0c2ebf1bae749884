-- ===== src/RbTree/Steps.antt =====
-- utils/rbtree.hpp: what one round of the loop of fixViolation does to the tree, and how the loop
-- goes on. This is the functional description that the code on the links refines.
use my_async.Prelude.{
  ℕ, suc, Bool, true, false, Option, none, some, if◌then◌else◌, ◌≡◌, ◌<◌, refl, ap, ◌∙◌, sym, List,
  ◌++◌, append_assoc, arith,
}
use my_async.RbTree.Heap.{Side, left, right, Color, red, black, is_red}
use my_async.RbTree.Tree.{
  Tree, leaf, node, join, inorder, inorder-plug, plug, before, after, Route, top, below,
}

abbrev pub is_red_root : Tree → Bool
is_red_root leaf = false
is_red_root (node c l a r) = is_red c

abbrev pub painted : Color → Tree → Tree
painted c leaf = leaf
painted c (node c' l a r) = node c l a r

-- The tree below the grandparent, turned: the side of the parent, that of the node below it, the
-- color of the grandparent, the node, its parent with the other child, the grandparent with the other
-- child.
abbrev pub rebuilt : Side → Side → Color → Tree → ℕ → Tree → ℕ → Tree → ℕ → Tree → Tree
rebuilt left left c l x r p s g u = node c (node red l x r) p (node red s g u)
rebuilt left right c l x r p s g u = node c (node red s p l) x (node red r g u)
rebuilt right left c l x r p s g u = node c (node red u g l) x (node red r p s)
rebuilt right right c l x r p s g u = node c (node red u g s) p (node red l x r)

unfoldable pub step : Tree → Route → Option (Tree × Route)
step leaf π = none
step (node black l x r) π = none
step (node red l x r) top = none
step (node red l x r) (below e black p s π) = none
step (node red l x r) (below e red p s top) = none
step (node red l x r) (below e red p s (below d c g u π)) =
    if is_red_root u
    then some (join d red g (join e black p (node red l x r) s) (painted black u), π)
    else some (rebuilt d e c l x r p s g u, π)

-- The root is black, unless it is the place itself.
abbrev pub Rooted : Route → Type 0
Rooted top = Unit {0}
Rooted (below d c a s top) = c ≡ black
Rooted (below d c a s (below d' c' a' s' π)) = Rooted (below d' c' a' s' π)

-- What holds of the result, if there is one.
abbrev pub OnSome : (Tree → Route → Type 0) → Option (Tree × Route) → Type 0
OnSome P none = Unit {0}
OnSome P (some (t, π)) = P t π

abbrev pub depth : Route → ℕ
depth top = 0
depth (below d c a s π) = suc (depth π)

pub if-OnSome :
    (P : Tree → Route → Type 0) (b : Bool) (p q : Tree × Route)
    → OnSome P (some p)
    → OnSome P (some q)
    → OnSome P (if b then some p else some q)
if-OnSome P true p q h k = h
if-OnSome P false p q h k = k

-- A round comes nearer to the root,
pub step-depth : (t : Tree) (π : Route) → OnSome (λ t' π'. depth π' < depth π) (step t π)
unfolding step
step-depth leaf π = tt
step-depth (node black l x r) π = tt
step-depth (node red l x r) top = tt
step-depth (node red l x r) (below e black p s π) = tt
step-depth (node red l x r) (below e red p s top) = tt
step-depth (node red l x r) (below e red p s (below d c g u π)) =
    if-OnSome (λ t' π'. depth π' < suc (suc (depth π))) (is_red_root u)
      (join d red g (join e black p (node red l x r) s) (painted black u), π)
      (rebuilt d e c l x r p s g u, π) (omega arith) (omega arith)

Rooted-tail :
    (d : Side) (c : Color) (a : ℕ) (s : Tree) (π : Route) → Rooted (below d c a s π) → Rooted π
Rooted-tail d c a s top w = tt
Rooted-tail d c a s (below d' c' a' s' π) w = w

-- keeps the root black,
pub step-Rooted : (t : Tree) (π : Route) → Rooted π → OnSome (λ t' π'. Rooted π') (step t π)
unfolding step
step-Rooted leaf π w = tt
step-Rooted (node black l x r) π w = tt
step-Rooted (node red l x r) top w = tt
step-Rooted (node red l x r) (below e black p s π) w = tt
step-Rooted (node red l x r) (below e red p s top) w = tt
step-Rooted (node red l x r) (below e red p s (below d c g u π)) w =
    if-OnSome (λ t' π'. Rooted π') (is_red_root u)
      (join d red g (join e black p (node red l x r) s) (painted black u), π)
      (rebuilt d e c l x r p s g u, π) (Rooted-tail d c g u π w) (Rooted-tail d c g u π w)

inorder-rebuilt :
    (d e : Side) (c : Color) (l : Tree) (x : ℕ) (r : Tree) (p : ℕ) (s : Tree) (g : ℕ) (u : Tree)
    → inorder (rebuilt d e c l x r p s g u)
      ≡ inorder (join d c g (join e red p (node red l x r) s) u)
inorder-rebuilt left left c l x r p s g u = simp append_assoc
inorder-rebuilt left right c l x r p s g u = simp append_assoc
inorder-rebuilt right left c l x r p s g u = simp append_assoc
inorder-rebuilt right right c l x r p s g u = simp append_assoc

pub inorder-painted : (c : Color) (t : Tree) → inorder (painted c t) ≡ inorder t
inorder-painted c leaf = refl
inorder-painted c (node c' l a r) = refl

inorder-recolored :
    (d e : Side) (c : Color) (t : Tree) (p : ℕ) (s : Tree) (g : ℕ) (u : Tree)
    → inorder (join d red g (join e black p t s) (painted black u))
      ≡ inorder (join d c g (join e red p t s) u)
inorder-recolored left left c t p s g u = rw (inorder-painted black u)
inorder-recolored left right c t p s g u = rw (inorder-painted black u)
inorder-recolored right left c t p s g u = rw (inorder-painted black u)
inorder-recolored right right c t p s g u = rw (inorder-painted black u)

-- Subtrees with the same order may change places.
pub plug-inorder :
    (t t' : Tree) (π : Route) → inorder t' ≡ inorder t → inorder (plug t' π) ≡ inorder (plug t π)
plug-inorder t t' π e =
    inorder-plug t' π ∙ ap (λ (xs : List ℕ). before π ++ (xs ++ after π)) e ∙ sym (inorder-plug t π)

-- and keeps the order of the nodes.
pub step-inorder :
    (t : Tree) (π : Route) → OnSome (λ t' π'. inorder (plug t' π') ≡ inorder (plug t π)) (step t π)
unfolding step plug
step-inorder leaf π = tt
step-inorder (node black l x r) π = tt
step-inorder (node red l x r) top = tt
step-inorder (node red l x r) (below e black p s π) = tt
step-inorder (node red l x r) (below e red p s top) = tt
step-inorder (node red l x r) (below e red p s (below d c g u π)) =
    let t = join d c g (join e red p (node red l x r) s) u in
    if-OnSome (λ t' π'. inorder (plug t' π') ≡ inorder (plug t π)) (is_red_root u)
      (join d red g (join e black p (node red l x r) s) (painted black u), π)
      (rebuilt d e c l x r p s g u, π)
      (plug-inorder t (join d red g (join e black p (node red l x r) s) (painted black u)) π
        (inorder-recolored d e c (node red l x r) p s g u))
      (plug-inorder t (rebuilt d e c l x r p s g u) π (inorder-rebuilt d e c l x r p s g u))
