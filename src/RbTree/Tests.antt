-- ===== src/RbTree/Tests.antt =====
-- utils/rbtree.hpp: runs of the tree's operations, and its theorems at small trees.
use my_async.Prelude.{◌≡◌, refl, true, inl, none, some, ◌==◌, if◌then◌else◌, arith, ltb}
use my_async.RbTree.{fix_step}
use my_async.RbTree.Erase.{do_erase}
use my_async.RbTree.Heap.{left, right, red, black, Nodes}
use my_async.RbTree.Tree.{Tree, leaf, node, top, below}
use my_async.RbTree.Links.{At}
use my_async.RbTree.Steps.{step}
use my_async.RbTree.Sorted.{IsWeakOrder}
use my_async.RbTree.Insert.{IsRedBlack, Inserted, do_insert-Inserted}
use my_async.RbTree.Rounds.{Follows, fix_step-step}
use my_async.RbTree.Erase.Single.{Removed, do_erase-Removed}
use my_async.RbTree.Erase.Faults.{do_erase-undefined, do_erase-lost}

-- A black root 2 with red children 1 and 3.
abbrev three : Nodes
three = record {
  child = λ d i. if i == 2 then elim d [ left ↦ some 1 | right ↦ some 3 ] else none;
  parent = λ i. if i == 2 then none else some 2;
  color = λ i. if i == 2 then black else red;
  owned = λ i. true;
  root = some 2;
}

abbrev three_tree : Tree
three_tree = node black (node red leaf 1 leaf) 2 (node red leaf 3 leaf)

three-At : At three three_tree top
three-At = record {
  here =
      (refl, refl, refl, refl, (refl, refl, refl, refl, tt, tt), (refl, refl, refl, refl, tt, tt));
  link = refl;
  around = tt;
  apart = λ i. ground arith;
}

three-IsRedBlack : IsRedBlack three_tree
three-IsRedBlack = record {
  black_root = refl;
  black_height = 1;
  balanced = ((refl, refl, refl, refl), (refl, refl, refl, refl));
}

ltb-IsWeakOrder : IsWeakOrder ltb
ltb-IsWeakOrder = record {
  asymmetric = λ a b h. ground arith;
  negatively_transitive = λ a b c h k. ground arith;
}

do_insert-Inserted_example : Inserted ltb 4 5 three three_tree
do_insert-Inserted_example =
    do_insert-Inserted ltb 4 5 three three_tree ltb-IsWeakOrder three-At three-IsRedBlack
      ((refl, (refl, tt)), ((refl, tt), (tt, tt))) refl (omega arith)

-- The same with a red node 4 below 3.
abbrev four : Nodes
four = record {
  child = λ d i.
      if i == 2
      then elim d [ left ↦ some 1 | right ↦ some 3 ]
      else if i == 3
      then elim d [ left ↦ none | right ↦ some 4 ]
      else none;
  parent = λ i. if i == 2 then none else if i == 4 then some 3 else some 2;
  color = λ i. if i == 2 then black else red;
  owned = λ i. true;
  root = some 2;
}

four-At :
    At four
      (node red leaf 4 leaf)
      (below right red 3 leaf (below right black 2 (node red leaf 1 leaf) top))
four-At = record {
  here = (refl, refl, refl, refl, tt, tt);
  link = refl;
  around =
      (refl, refl, refl, tt, refl, (refl, refl, refl, (refl, refl, refl, refl, tt, tt), refl, tt));
  apart = λ i. ground arith;
}

fix_step-step_example : Follows (fix_step 4 four) (
    step
      (node red leaf 4 leaf)
      (below right red 3 leaf (below right black 2 (node red leaf 1 leaf) top)))
fix_step-step_example =
    fix_step-step four red leaf 4 leaf
      (below right red 3 leaf (below right black 2 (node red leaf 1 leaf) top)) four-At refl

-- A root 2 whose right child 4 has a left child 3.
abbrev inner : Nodes
inner = record {
  child = λ d i.
      if i == 2
      then elim d [ left ↦ some 1 | right ↦ some 4 ]
      else if i == 4
      then elim d [ left ↦ some 3 | right ↦ none ]
      else none;
  parent = λ i. if i == 2 then none else if i == 3 then some 4 else some 2;
  color = λ i. if i == 3 then red else black;
  owned = λ i. true;
  root = some 2;
}

inner-At :
    At inner (node black (node black leaf 1 leaf) 2 (node black (node red leaf 3 leaf) 4 leaf)) top
inner-At = record {
  here = (
    refl,
    refl,
    refl,
    refl,
    (refl, refl, refl, refl, tt, tt),
    (refl, refl, refl, refl, (refl, refl, refl, refl, tt, tt), tt),
  );
  link = refl;
  around = tt;
  apart = λ i. ground arith;
}

do_erase-undefined_example : do_erase 4 2 inner ≡ none
do_erase-undefined_example =
    do_erase-undefined 4 2 inner black black leaf 1 leaf black red leaf 3 leaf 4 leaf inner-At
      (omega arith)

do_erase-Removed_example : Removed (do_erase 4 3 three) 3 three_tree
do_erase-Removed_example =
    do_erase-Removed 4 3 three three_tree three-At refl (omega arith) (inl refl) (omega arith)

do_erase-lost_example :
    (h' : Nodes) × (do_erase 4 2 three ≡ some h') × (h'.root ≡ none) × (h'.owned 1 ≡ true)
do_erase-lost_example = do_erase-lost 3 2 three black red leaf 1 leaf red 3 three-At
