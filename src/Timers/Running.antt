-- ===== src/Timers/Running.antt =====
-- generic/generic_io.hpp: the state of the timers between two calls, and the removal of one of them.
use my_async.Prelude.{
  ℕ, ◌<◌, ◌≡◌, ◌≢◌, refl, sym, ap, ◌∙◌, subst, true, false, ◌⊎◌, Option, none, some, List, ◌∷◌,
  ◌++◌,
}
use my_async.Timers.{GenericIoContext, earlier}
use my_async.RbTree.Heap.{
  Nodes, left, right, right, follow, update, update_self, update_other, set_owned,
}
use my_async.RbTree.Tree.{Tree, leaf, node, top, count, inorder}
use my_async.RbTree.Links.{At, Rep}
use my_async.RbTree.Steps.{is_red_root}
use my_async.RbTree.Sorted.{IsSorted}
use my_async.RbTree.Descent.{size, At-Agree}
use my_async.RbTree.Reads.{first, first-append, first_in}
use my_async.RbTree.Erase.{erase_from_parent}
use my_async.RbTree.Erase.Single.{do_erase-Removed}
use my_async.RbTree.Owners.{Holds, Owned, do_erase-Owned}

-- The links stand for a tree with a black root, whose nodes are all owned and in the order of expiry.
pub record IsRunning (s : GenericIoContext) (t : Tree) : Type 0 where
  pub links : At s.timers t top
  pub black_root : is_red_root t ≡ false
  pub owned : (i : ℕ) → 0 < count i t → s.timers.owned i ≡ true
  pub sorted : IsSorted (earlier s.expires) (inorder t)

-- The first node of a tree has no left child.
pub first-child :
    (h : Nodes) (p : Option ℕ) (t : Tree) (x : ℕ)
    → Rep h p t
    → first (inorder t) ≡ some x
    → h.child left x ≡ none
first-child h p leaf x r e = absurd (none_ne_some e)
  where
    none_ne_some : none ≡ some x → ⊥
    none_ne_some z = cc
first-child h p (node c leaf a r) x q e = rw (← some_injective e) q.2
  where
    some_injective : some a ≡ some x → a ≡ x
    some_injective z = cc
first-child h p (node c (node k l b l') a r) x q e =
    let (b', e', z) = first_in k l b l' in
    first-child h (some a) (node k l b l') x q.4
      (e' ∙ (sym (first-append (inorder (node k l b l')) (a ∷ inorder r) b' e') ∙ e))

-- A removal that succeeds, without the node that it removes.
pub record Taken (fuel x : ℕ) (h : Nodes) (t : Tree) : Type 0 where
  pub nodes : Nodes
  pub tree : Tree
  pub front : List ℕ
  pub back : List ℕ
  pub returns : erase_from_parent fuel x h ≡ some nodes
  pub links : At nodes tree top
  pub black_root : is_red_root tree ≡ false
  pub was : inorder t ≡ front ++ (x ∷ back)
  pub in_order : inorder tree ≡ front ++ back
  pub owned : nodes.owned x ≡ false
  pub others : (i : ℕ) → i ≢ x → nodes.owned i ≡ h.owned i

pub erase_from_parent-Taken :
    (fuel x : ℕ) (h : Nodes) (t : Tree)
    → At h t top
    → is_red_root t ≡ false
    → 0 < count x t
    → h.owned x ≡ true
    → (h.child left x ≡ none) ⊎ (h.child right x ≡ none)
    → size t < fuel
    → Taken fuel x h t
unfolding erase_from_parent
erase_from_parent-Taken fuel x h t m b p o e f =
    let r = do_erase-Removed fuel x h t m b p e f in
    let g = r.result in
    let q : g.nodes.owned ≡ update h.owned x false =
      subst (Holds (Owned (update h.owned x false))) g.returns (do_erase-Owned fuel x h e) in
    record {
      nodes = set_owned x false g.nodes;
      tree = g.tree;
      front = r.front;
      back = r.back;
      returns = rw o (rw (g.returns, follow));
      links =
          At-Agree g.nodes (set_owned x false g.nodes) g.tree top (λ i z. (refl, refl, refl, refl))
            refl g.links;
      black_root = g.black_root;
      was = r.was;
      in_order = g.in_order;
      owned = update_self g.nodes.owned x false;
      others = λ i ne.
          update_other g.nodes.owned x i false ne
          ∙ ap (λ w. w i) q
          ∙ update_other h.owned x i false ne;
    }
