-- ===== src/RbTree/Insert.antt =====
-- utils/rbtree.hpp: doInsert keeps the rules of a red-black tree and puts the node in its place in
-- the order.
use my_async.Prelude.{
  ℕ, suc, zero, ◌<◌, ◌≡◌, refl, ap, ◌∙◌, sym, Bool, true, false, Option, none, some, arith, subst,
  List, Bool-cases, inl, inr,
}
use my_async.RbTree.{prepare, attach, do_insert, fix_violation, descend}
use my_async.RbTree.Heap.{left, right, red, black, Nodes, follow}
use my_async.RbTree.Tree.{
  Tree, leaf, node, pointer, plug, inorder, count, Route, top, below, above, count_path, count-plug,
}
use my_async.RbTree.Links.{At}
use my_async.RbTree.Steps.{
  step, Rooted, is_red_root, painted, OnSome, step-inorder, inorder-painted,
}
use my_async.RbTree.Balance.{
  Balanced, BalancedAbove, BlackAbove, Within, step-Within, step-Fits, plug-Balanced,
}
use my_async.RbTree.Loop.{fix_violation_lem}
use my_async.RbTree.Sorted.{
  IsWeakOrder, IsSorted, insert_sorted, insert_sorted-IsSorted, place-inorder,
}
use my_async.RbTree.Descent.{size, place, prepare-At, prepare-IsNew, descend_lem, attach-At}

-- The links stand for a red-black tree.
pub record IsRedBlack (t : Tree) : Type 0 where
  pub black_root : is_red_root t ≡ false
  pub black_height : ℕ
  pub balanced : Balanced black_height t

-- A red subtree hangs below a black node.
abbrev Sits : Tree → Route → Type 0
Sits t π = is_red_root t ≡ true → BlackAbove π

false_ne_true : false ≡ true → ⊥
false_ne_true q = cc

Sits-black : (t : Tree) (π : Route) → is_red_root t ≡ false → Sits t π
Sits-black t π e f = absurd (false_ne_true (sym e ∙ f))

place-Balanced :
    (compare : ℕ → ℕ → Bool) (x n : ℕ) (t : Tree) (π : Route)
    → Balanced n t
    → BalancedAbove n π
    → Sits t π
    → BalancedAbove 0 (place compare x t π)
unfolding place
place-Balanced compare x n leaf π b a s = rw (← b) a
place-Balanced compare x n (node red l y r) π (i, j, v, w) a s = elim (Bool-cases (compare x y)) [
  | inl e ↦
      rw (e, place)
        (place-Balanced compare x n l (below left red y r π) v (j, w, s refl, a)
          (Sits-black l (below left red y r π) i))
  | inr e ↦
      rw (e, place)
        (place-Balanced compare x n r (below right red y l π) w (i, v, s refl, a)
          (Sits-black r (below right red y l π) j))
]
place-Balanced compare x zero (node black l y r) π b a s = absurd b
place-Balanced compare x (suc n) (node black l y r) π (v, w) a s = elim (Bool-cases (compare x y)) [
  | inl e ↦
      rw (e, place) (place-Balanced compare x n l (below left black y r π) v (w, a) (λ f. refl))
  | inr e ↦
      rw (e, place) (place-Balanced compare x n r (below right black y l π) w (v, a) (λ f. refl))
]

BalancedAbove-Rooted : (n : ℕ) (π : Route) → BalancedAbove n π → Rooted π
BalancedAbove-Rooted n top a = tt
BalancedAbove-Rooted n (below d red x s top) a = absurd a.2
BalancedAbove-Rooted n (below d black x s top) a = refl
BalancedAbove-Rooted n (below d red x s (below d' c' x' s' π)) a =
    BalancedAbove-Rooted n (below d' c' x' s' π) a.3
BalancedAbove-Rooted n (below d black x s (below d' c' x' s' π)) a =
    BalancedAbove-Rooted (suc n) (below d' c' x' s' π) a.1

painted-IsRedBlack : (n : ℕ) (t : Tree) → Balanced n t → IsRedBlack (painted black t)
painted-IsRedBlack n leaf b = record { black_root = refl; black_height = n; balanced = b }
painted-IsRedBlack n (node red l a r) b = record {
  black_root = refl;
  black_height = suc n;
  balanced = (b.2, b.3);
}
painted-IsRedBlack n (node black l a r) b = record {
  black_root = refl;
  black_height = n;
  balanced = b;
}

-- What the loop keeps from the new leaf on.
abbrev Kept : List ℕ → Tree → Route → Type 0
Kept l t π = Within t π × (inorder (plug t π) ≡ l)

step-Kept : (l : List ℕ) (t : Tree) (π : Route) → Kept l t π → OnSome (Kept l) (step t π)
step-Kept l t π (w, e) = both (step t π) (step-Within t π w) (step-inorder t π)
  where
    both :
        (o : Option (Tree × Route))
        → OnSome Within o
        → OnSome (λ t' π'. inorder (plug t' π') ≡ inorder (plug t π)) o
        → OnSome (Kept l) o
    both none p q = tt
    both (some (t', π')) p q = (p, q ∙ e)

-- The nodes of the result: the tree keeps the rules, and its nodes are in the new order.
pub record Inserted (compare : ℕ → ℕ → Bool) (fuel x : ℕ) (h : Nodes) (t : Tree) : Type 0 where
  pub tree : Tree
  pub nodes : Nodes
  pub returns : do_insert compare fuel x h ≡ some nodes
  pub links : At nodes tree top
  pub rules : IsRedBlack tree
  pub in_order : inorder tree ≡ insert_sorted compare x (inorder t)
  pub sorted : IsSorted compare (inorder tree)

-- The last step: the tree at which the loop ends has the rules and the order.
finished :
    (l : List ℕ) (t : Tree) (π : Route)
    → Kept l t π
    → step t π ≡ none
    → IsRedBlack (painted black (plug t π)) × (inorder (painted black (plug t π)) ≡ l)
finished l t π ((n, b, a), e) s =
    let (m, b') = plug-Balanced n t π b a (step-Fits t π (n, b, a) s) in
    (painted-IsRedBlack m (plug t π) b', inorder-painted black (plug t π) ∙ e)

pub do_insert-eq :
    (compare : ℕ → ℕ → Bool) (fuel x : ℕ) (h : Nodes) (o parent : Option ℕ) (h' : Nodes)
    → (prepare x h).root ≡ o
    → descend compare fuel x none o (prepare x h) ≡ some parent
    → fix_violation fuel x (attach compare x parent (prepare x h)) ≡ some h'
    → do_insert compare fuel x h ≡ some h'
unfolding do_insert
do_insert-eq compare fuel x h o parent h' e d g =
    ap
      (λ r.
        follow {B = Nodes} (descend compare fuel x none r (prepare x h))
          λ q. fix_violation fuel x (attach compare x q (prepare x h)))
      e
    ∙ rw (d, follow) g

-- On links that stand for a red-black tree whose nodes are in the order of the comparison, a
-- strict weak order, `doInsert` of a node that is not in the tree ends with fuel for one round
-- more than there are nodes. The links then stand for a tree that is again red-black, with every
-- parent pointer right, and its nodes are those from before with the new one behind all that do
-- not follow it.
pub do_insert-Inserted :
    (compare : ℕ → ℕ → Bool) (fuel x : ℕ) (h : Nodes) (t : Tree)
    → IsWeakOrder compare
    → At h t top
    → IsRedBlack t
    → IsSorted compare (inorder t)
    → count x t ≡ 0
    → size t < fuel
    → Inserted compare fuel x h t
unfolding plug
do_insert-Inserted compare fuel x h t o m b s z f =
    let h₁ = prepare x h in
    let m₁ = prepare-At x h t z m in
    let v = descend_lem compare x t top h₁ fuel f tt m₁ in
    let π = place compare x t top in
    let e : plug leaf π ≡ t = v.same ∙ plug-top t in
    let z' : count_path x π ≡ 0 =
      omega (arith, z, count-plug x leaf π, ap (λ (t' : Tree). count x t') e) in
    let a =
      place-Balanced compare x b.black_height t top b.balanced tt (Sits-black t top b.black_root) in
    let (t', π', h', g, m', q, k) =
      fix_violation_lem (Kept (insert_sorted compare x (inorder t)))
        (step-Kept (insert_sorted compare x (inorder t))) fuel (node red leaf x leaf) π x
        (attach compare x (above π) h₁) (omega (arith, v.near)) refl
        (attach-At compare x π h₁ (prepare-IsNew x h) v.chosen z' v.at_place)
        (BalancedAbove-Rooted 0 π a)
        ((0, (refl, refl, refl, refl), a), place-inorder compare o x t s e) in
    let (r, i) = finished (insert_sorted compare x (inorder t)) t' π' k q in
    record {
      tree = painted black (plug t' π');
      nodes = h';
      returns = do_insert-eq compare fuel x h (pointer t) (above π) h' m₁.link v.gives g;
      links = m';
      rules = r;
      in_order = i;
      sorted = subst (IsSorted compare) (sym i) (insert_sorted-IsSorted compare o x (inorder t) s);
    }
  where
    plug-top : (t : Tree) → plug t top ≡ t
    plug-top t = refl
