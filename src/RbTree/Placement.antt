-- ===== src/RbTree/Placement.antt =====
-- utils/rbtree.hpp: doInsert also where removals have broken the rules of colors, as long as the root is
-- black: the order of the nodes is kept.
use my_async.Prelude.{ℕ, ◌<◌, ◌≡◌, refl, ap, ◌∙◌, Bool, false, arith}
use my_async.RbTree.{prepare, attach, do_insert}
use my_async.RbTree.Heap.{Nodes, red}
use my_async.RbTree.Tree.{
  Tree, leaf, node, pointer, plug, inorder, count, top, above, count_path, count-plug,
}
use my_async.RbTree.Links.{At}
use my_async.RbTree.Steps.{is_red_root}
use my_async.RbTree.Sorted.{IsWeakOrder, IsSorted, insert_sorted, place-inorder}
use my_async.RbTree.Descent.{size, place, prepare-At, prepare-IsNew, descend_lem, attach-At}
use my_async.RbTree.Insert.{do_insert-eq}
use my_async.RbTree.Erase.Single.{Gives, fix-Gives, plug-Rooted}

pub do_insert-Gives :
    (compare : ℕ → ℕ → Bool) (fuel x : ℕ) (h : Nodes) (t : Tree)
    → IsWeakOrder compare
    → At h t top
    → is_red_root t ≡ false
    → IsSorted compare (inorder t)
    → count x t ≡ 0
    → size t < fuel
    → Gives (do_insert compare fuel x h) (insert_sorted compare x (inorder t))
unfolding plug
do_insert-Gives compare fuel x h t o m b s z f =
    let h₁ = prepare x h in
    let m₁ = prepare-At x h t z m in
    let v = descend_lem compare x t top h₁ fuel f tt m₁ in
    let π = place compare x t top in
    let e : plug leaf π ≡ t = v.same in
    let z' : count_path x π ≡ 0 =
      omega (arith, z, count-plug x leaf π, ap (λ (t' : Tree). count x t') e) in
    let g =
      fix-Gives fuel (node red leaf x leaf) π x (attach compare x (above π) h₁)
        (omega (arith, v.near)) refl
        (attach-At compare x π h₁ (prepare-IsNew x h) v.chosen z' v.at_place)
        (plug-Rooted leaf π (ap is_red_root e ∙ b)) in
    record {
      tree = g.tree;
      nodes = g.nodes;
      returns =
          do_insert-eq compare fuel x h (pointer t) (above π) g.nodes m₁.link v.gives g.returns;
      links = g.links;
      black_root = g.black_root;
      in_order = g.in_order ∙ place-inorder compare o x t s e;
    }
