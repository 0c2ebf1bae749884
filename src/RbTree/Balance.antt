-- ===== src/RbTree/Balance.antt =====
-- utils/rbtree.hpp: the rules of a red-black tree, and what a round of fixViolation does to them.
use my_async.Prelude.{ℕ, suc, zero, ◌≡◌, refl, true, false, none, arith, Bool-cases, inl, inr}
use my_async.RbTree.Heap.{Side, left, right, Color, red, black, is_red}
use my_async.RbTree.Tree.{Tree, leaf, node, join, plug, Route, top, below}
use my_async.RbTree.Steps.{is_red_root, painted, rebuilt, step, OnSome}

-- The children of a red node are black, and each way down meets `n` black nodes.
abbrev pub Balanced : ℕ → Tree → Type 0
Balanced n leaf = n ≡ 0
Balanced n (node red l a r) =
    (is_red_root l ≡ false) × (is_red_root r ≡ false) × Balanced n l × Balanced n r
Balanced zero (node black l a r) = ⊥
Balanced (suc n) (node black l a r) = Balanced n l × Balanced n r

abbrev pub BlackAbove : Route → Type 0
BlackAbove top = ⊥
BlackAbove (below d c a s π) = c ≡ black

-- The same of what is above a place at which `n` black nodes are met.
abbrev pub BalancedAbove : ℕ → Route → Type 0
BalancedAbove n top = Unit {0}
BalancedAbove n (below d red a s π) =
    (is_red_root s ≡ false) × Balanced n s × BlackAbove π × BalancedAbove n π
BalancedAbove n (below d black a s π) = Balanced n s × BalancedAbove (suc n) π

-- There is no red node below a red one at the place.
abbrev pub Fits : Tree → Route → Type 0
Fits t top = Unit {0}
Fits t (below d black a s π) = Unit {0}
Fits t (below d red a s π) = is_red_root t ≡ false

pub Fits-black : (t : Tree) (π : Route) → is_red_root t ≡ false → Fits t π
Fits-black t top e = tt
Fits-black t (below d black a s π) e = tt
Fits-black t (below d red a s π) e = e

pub Fits-BlackAbove : (t : Tree) (π : Route) → BlackAbove π → Fits t π
Fits-BlackAbove t top b = absurd b
Fits-BlackAbove t (below d black a s π) b = tt
Fits-BlackAbove t (below d red a s π) b = absurd (red_ne_black b)
  where
    red_ne_black : red ≡ black → ⊥
    red_ne_black q = cc

join-red :
    (n : ℕ) (d : Side) (a : ℕ) (s t : Tree)
    → is_red_root s ≡ false
    → is_red_root t ≡ false
    → Balanced n s
    → Balanced n t
    → Balanced n (join d red a s t)
join-red n left a s t h k p q = (h, k, p, q)
join-red n right a s t h k p q = (k, h, q, p)

join-black :
    (n : ℕ) (d : Side) (a : ℕ) (s t : Tree)
    → Balanced n s
    → Balanced n t
    → Balanced (suc n) (join d black a s t)
join-black n left a s t p q = (p, q)
join-black n right a s t p q = (q, p)

join-color : (d : Side) (c : Color) (a : ℕ) (s t : Tree) → is_red_root (join d c a s t) ≡ is_red c
join-color left c a s t = refl
join-color right c a s t = refl

-- The whole tree keeps the rules when what is above and the subtree do,
pub plug-Balanced :
    (n : ℕ) (t : Tree) (π : Route)
    → Balanced n t
    → BalancedAbove n π
    → Fits t π
    → (m : ℕ) × Balanced m (plug t π)
unfolding plug
plug-Balanced n t top p q f = (n, p)
plug-Balanced n t (below d red a s π) p (e, b, k, q) f =
    plug-Balanced n (join d red a t s) π (join-red n d a t s f e p b) q
      (Fits-BlackAbove (join d red a t s) π k)
plug-Balanced n t (below d black a s π) p (b, q) f =
    plug-Balanced (suc n) (join d black a t s) π (join-black n d a t s p b) q
      (Fits-black (join d black a t s) π (join-color d black a t s))

-- also with the root painted black.
pub painted-Balanced : (n : ℕ) (t : Tree) → Balanced n t → (m : ℕ) × Balanced m (painted black t)
painted-Balanced n leaf p = (n, p)
painted-Balanced n (node red l a r) p = (suc n, (p.2, p.3))
painted-Balanced n (node black l a r) p = (n, p)

rebuilt-Balanced :
    (n : ℕ) (d e : Side) (l : Tree) (x : ℕ) (r : Tree) (p : ℕ) (s : Tree) (g : ℕ) (u : Tree)
    → Balanced n (node red l x r)
    → is_red_root s ≡ false
    → Balanced n s
    → is_red_root u ≡ false
    → Balanced n u
    → Balanced (suc n) (rebuilt d e black l x r p s g u)
rebuilt-Balanced n left left l x r p s g u t e b f k = (t, (e, f, b, k))
rebuilt-Balanced n left right l x r p s g u (i, j, v, w) e b f k = ((e, i, b, v), (j, f, w, k))
rebuilt-Balanced n right left l x r p s g u (i, j, v, w) e b f k = ((f, i, k, v), (j, e, w, b))
rebuilt-Balanced n right right l x r p s g u t e b f k = ((f, e, k, b), t)

false_ne_true : false ≡ true → ⊥
false_ne_true q = cc

recolored-Balanced :
    (n : ℕ) (d e : Side) (t : Tree) (p : ℕ) (s : Tree) (g : ℕ) (u : Tree)
    → Balanced n t
    → Balanced n s
    → is_red_root u ≡ true
    → Balanced n u
    → Balanced (suc n) (join d red g (join e black p t s) (painted black u))
recolored-Balanced n d e t p s g leaf b b' f k = absurd (false_ne_true f)
recolored-Balanced n d e t p s g (node black l a r) b b' f k = absurd (false_ne_true f)
recolored-Balanced n d e t p s g (node red l a r) b b' f k =
    join-red (suc n) d g (join e black p t s) (node black l a r) (join-color e black p t s) refl
      (join-black n e p t s b b') (k.2, k.3)

-- A round keeps the rules below and above the place,
abbrev pub Within : Tree → Route → Type 0
Within t π = (n : ℕ) × Balanced n t × BalancedAbove n π

red_ne_black : red ≡ black → ⊥
red_ne_black q = cc

pub step-Within : (t : Tree) (π : Route) → Within t π → OnSome Within (step t π)
unfolding step
step-Within leaf π w = tt
step-Within (node black l x r) π w = tt
step-Within (node red l x r) top w = tt
step-Within (node red l x r) (below e black p s π) w = tt
step-Within (node red l x r) (below e red p s top) w = tt
step-Within (node red l x r) (below e red p s (below d red g u π)) (n, t, a) =
    absurd (red_ne_black a.2)
step-Within (node red l x r) (below e red p s (below d black g u π)) (n, t, a) =
    elim (Bool-cases (is_red_root u)) [
      | inl f ↦ rw f (suc n, recolored-Balanced n d e (node red l x r) p s g u t a.1 f a.3.0, a.3.1)
      | inr f ↦ rw f (suc n, rebuilt-Balanced n d e l x r p s g u t a.0 a.1 f a.3.0, a.3.1)
    ]

-- and where the loop ends there is no red node below a red one.
pub step-Fits : (t : Tree) (π : Route) → Within t π → step t π ≡ none → Fits t π
unfolding step
step-Fits leaf π w e = Fits-black leaf π refl
step-Fits (node black l x r) π w e = Fits-black (node black l x r) π refl
step-Fits (node red l x r) top w e = tt
step-Fits (node red l x r) (below e' black p s π) w e = tt
step-Fits (node red l x r) (below e' red p s top) (n, t, a) e = absurd a.2
step-Fits (node red l x r) (below e' red p s (below d c g u π)) (n, t, a) e = ground arith
