-- ===== src/RbTree/Erase/Single.antt =====
-- utils/rbtree.hpp: doErase of a node with at most one child takes it out of the order.
use my_async.Prelude.{
  subst, ℕ, ◌+◌, ◌≤◌, ◌<◌, ◌≡◌, refl, ap, ◌∙◌, sym, false, ◌⊎◌, inl, inr, Option, none, some, arith,
  List, ◌∷◌, ◌++◌, append_assoc,
}
use my_async.RbTree.{adopt, fix_violation}
use my_async.RbTree.Erase.{replace_link, unlink, do_erase}
use my_async.RbTree.Heap.{Side, left, right, Color, red, black, is_red, Nodes, set_owned}
use my_async.RbTree.Tree.{
  Tree, leaf, node, join, pointer, plug, inorder, count, one, Route, top, below, above, count_path,
  inorder-plug, before, after, pointer-join,
}
use my_async.RbTree.Links.{Rep, At, At-down, At-up}
use my_async.RbTree.Paint.{relinked}
use my_async.RbTree.Rounds.{not_root, root-above}
use my_async.RbTree.Steps.{
  step, depth, Rooted, is_red_root, painted, OnSome, step-inorder, inorder-painted,
}
use my_async.RbTree.Loop.{fix_violation_lem, At-plug}
use my_async.RbTree.Descent.{size, At-Agree, size-join, one_cases}
use my_async.RbTree.Reads.{zero_or_pos}
use my_async.RbTree.Erase.Unlink.{
  unlinked-eq, unlinked-At, unlinked_parent, unlink-red, unlink-empty, unlink-child, unlink-parent,
}

-- The result of a removal: a tree with a black root and the order given.
pub record Gives (o : Option Nodes) (l : List ℕ) : Type 0 where
  pub tree : Tree
  pub nodes : Nodes
  pub returns : o ≡ some nodes
  pub links : At nodes tree top
  pub black_root : is_red_root tree ≡ false
  pub in_order : inorder tree ≡ l

painted-black : (t : Tree) → is_red_root (painted black t) ≡ false
painted-black leaf = refl
painted-black (node c l a r) = refl

-- The loop keeps the order from any place below a black root.
pub fix-Gives :
    (fuel : ℕ) (t : Tree) (π : Route) (x : ℕ) (h : Nodes)
    → depth π < fuel
    → pointer t ≡ some x
    → At h t π
    → Rooted π
    → Gives (fix_violation fuel x h) (inorder (plug t π))
fix-Gives fuel t π x h d q m w =
    let l = inorder (plug t π) in
    let (t', π', h', e, m', s, k) =
      fix_violation_lem (λ t' π'. inorder (plug t' π') ≡ l)
        (λ t' π' p. next t' π' l p (step t' π') (step-inorder t' π')) fuel t π x h d q m w refl in
    record {
      tree = painted black (plug t' π');
      nodes = h';
      returns = e;
      links = m';
      black_root = painted-black (plug t' π');
      in_order = inorder-painted black (plug t' π') ∙ k;
    }
  where
    next :
        (t' : Tree) (π' : Route) (l : List ℕ)
        → inorder (plug t' π') ≡ l
        → (o : Option (Tree × Route))
        → OnSome (λ t₁ π₁. inorder (plug t₁ π₁) ≡ inorder (plug t' π')) o
        → OnSome (λ t₁ π₁. inorder (plug t₁ π₁) ≡ l) o
    next t' π' l p none r = tt
    next t' π' l p (some (t₁, π₁)) r = r ∙ p

join-color : (d : Side) (c : Color) (a : ℕ) (s t : Tree) → is_red_root (join d c a s t) ≡ is_red c
join-color left c a s t = refl
join-color right c a s t = refl

black-eq : (c : Color) → is_red c ≡ false → c ≡ black
black-eq black e = refl
black-eq red e = cc

-- Below a black root the path is rooted, and a path that is rooted and not empty has a black root.
pub plug-Rooted : (t : Tree) (π : Route) → is_red_root (plug t π) ≡ false → Rooted π
unfolding plug
plug-Rooted t top e = tt
plug-Rooted t (below d c a s top) e = black-eq c (sym (join-color d c a t s) ∙ e)
plug-Rooted t (below d c a s (below d' c' a' s' π)) e =
    plug-Rooted (join d c a t s) (below d' c' a' s' π) e

Rooted-black :
    (t : Tree) (d : Side) (c : Color) (a : ℕ) (s : Tree) (π : Route)
    → Rooted (below d c a s π)
    → is_red_root (plug t (below d c a s π)) ≡ false
unfolding plug
Rooted-black t d c a s top e = join-color d c a t s ∙ ap is_red e
Rooted-black t d c a s (below d' c' a' s' π) e = Rooted-black (join d c a t s) d' c' a' s' π e

depth-le-size : (t : Tree) (π : Route) → depth π + size t ≤ size (plug t π)
unfolding plug
depth-le-size t top = omega arith
depth-le-size t (below d c a s π) =
    omega (arith, depth-le-size (join d c a t s) π, size-join d c a t s)

Rooted-tail :
    (d : Side) (c : Color) (a : ℕ) (s : Tree) (π : Route) → Rooted (below d c a s π) → Rooted π
Rooted-tail d c a s top w = tt
Rooted-tail d c a s (below d' c' a' s' π) w = w

-- A place at which the node stands.
pub record Standing (h : Nodes) (x : ℕ) (t : Tree) : Type 0 where
  pub color : Color
  pub lower : Tree
  pub higher : Tree
  pub path : Route
  pub at_place : At h (node color lower x higher) path
  pub same : plug (node color lower x higher) path ≡ t

pub find_place :
    (h : Nodes) (x : ℕ) (t : Tree) (π : Route) → At h t π → 0 < count x t → Standing h x (plug t π)
unfolding plug
find_place h x leaf π m p = absurd (omega arith)
find_place h x (node c l a r) π m p = elim (one_cases x a) [
  | inr (e, o) ↦
      rw e (record { color = c; lower = l; higher = r; path = π; at_place = m; same = refl })
  | inl z ↦ elim (zero_or_pos (count x l)) [
    | inl q ↦
        find_place h x r (below right c a l π) (At-down h r right c a l π m)
          (omega (arith, p, z, q))
    | inr q ↦ find_place h x l (below left c a r π) (At-down h l left c a r π m) q
  ]
]

root_known :
    (h : Nodes) (c : Color) (l : Tree) (a : ℕ) (r : Tree) (π : Route)
    → At h (node c l a r) π
    → (q : ℕ) × (h.root ≡ some q)
root_known h c l a r top m = (a, m.link)
root_known h c l a r (below d k b s π) m = let (q, e, p) = root-above h d k b s π m.around in (q, e)

-- The node has left, and the tree has the order of the rest.
unlink-Gives :
    (fuel x : ℕ) (h : Nodes) (c : Color) (s : Tree) (π : Route) (h₂ : Nodes)
    → h.parent x ≡ above π
    → replace_link x (pointer s) (adopt (pointer s) (above π) h) ≡ some h₂
    → At h₂ s π
    → h₂.parent x ≡ above π
    → Rooted π
    → (π ≡ top → c ≡ black)
    → depth π < fuel
    → Gives (unlink fuel x c (pointer s) h) (inorder (plug s π))
unfolding plug
unlink-Gives fuel x h red s top h₂ e k m f w b d = absurd (red_ne_black (b refl))
  where
    red_ne_black : red ≡ black → ⊥
    red_ne_black q = cc
unlink-Gives fuel x h red s (below d' c a s' π) h₂ e k m f w b d = record {
  tree = plug s (below d' c a s' π);
  nodes = h₂;
  returns = unlink-red fuel x (pointer s) (some a) h h₂ e k;
  links = At-plug h₂ s (below d' c a s' π) m;
  black_root = Rooted-black s d' c a s' π w;
  in_order = refl;
}
unlink-Gives fuel x h black (node c l y r) π h₂ e k m f w b d =
    let (q, z) = root_known h₂ c l y r π m in
    rw (unlink-child fuel x (some y) (above π) h h₂ e k y q z refl)
      (fix-Gives fuel (node c l y r) π y h₂ d refl m w)
unlink-Gives fuel x h black leaf top h₂ e k m f w b d = record {
  tree = leaf;
  nodes = h₂;
  returns = unlink-empty fuel x none none h h₂ e k m.link;
  links = m;
  black_root = refl;
  in_order = refl;
}
unlink-Gives fuel x h black leaf (below d' c a s' π) h₂ e k m f w b d =
    let (q, z, p) = root-above h₂ d' c a s' π m.around in
    rw (unlink-parent fuel x none (some a) h h₂ e k a q z refl f) (
      fix-Gives fuel (join d' c a leaf s') π a h₂ (omega arith) (pointer-join d' c a leaf s')
        (At-up h₂ leaf d' c a s' π m) (Rooted-tail d' c a s' π w))

-- The same from the place of the node.
leave-Gives :
    (fuel x : ℕ) (h : Nodes) (c : Color) (s : Tree) (π : Route) (l r : Tree)
    → At h (node c l x r) π
    → Rep h (some x) s
    → ((i : ℕ) → count i s ≤ count i l + count i r)
    → is_red_root (plug (node c l x r) π) ≡ false
    → depth π < fuel
    → Gives (unlink fuel x c (pointer s) h) (inorder (plug s π))
unfolding plug
leave-Gives fuel x h c s π l r m rep le b d =
    let apart : (i : ℕ) → count i s + one i x + count_path i π ≤ 1 =
      λ i. omega (arith, le i, m.apart i) in
    let n = λ (d : Side) (k : Color) (a : ℕ) (s' : Tree) (π' : Route) (e : π ≡ below d k a s' π').
      not_root h c l x r d k a s' π' (subst (λ w. At h (node c l x r) w) e m) in
    unlink-Gives fuel x h c s π (relinked (pointer s) π (adopt (pointer s) (above π) h)) m.here.0
      (unlinked-eq h x s π m.here.0 m.link m.around rep apart n)
      (unlinked-At h x s π m.here.0 m.link m.around rep apart n)
      (unlinked_parent h x s π m.here.0 m.link m.around rep apart n)
      (plug-Rooted (node c l x r) π b)
      (λ e. black-eq c (subst (λ w. is_red_root (plug (node c l x r) w) ≡ false) e b)) d

-- The nodes around the one that leaves stay in their order.
pub record Removed (o : Option Nodes) (x : ℕ) (t : Tree) : Type 0 where
  pub front : List ℕ
  pub back : List ℕ
  pub was : inorder t ≡ front ++ (x ∷ back)
  pub result : Gives o (front ++ back)

pub do_erase_low :
    (fuel x : ℕ) (h : Nodes) (c : Color) (o : Option ℕ)
    → h.child left x ≡ none
    → h.child right x ≡ o
    → h.color x ≡ c
    → do_erase fuel x h ≡ unlink fuel x c o (set_owned x false h)
unfolding do_erase
do_erase_low fuel x h c o e k q = rw e (rw k (rw q))

pub do_erase_high :
    (fuel x y : ℕ) (h : Nodes) (c : Color)
    → h.child left x ≡ some y
    → h.child right x ≡ none
    → h.color x ≡ c
    → do_erase fuel x h ≡ unlink fuel x c (some y) (set_owned x false h)
unfolding do_erase
do_erase_high fuel x y h c e k q = rw e (rw k (rw q))

-- At the place of the node, in the links where it is no longer owned.
Standing-Removed :
    (fuel x : ℕ) (h : Nodes) (c : Color) (l r : Tree) (π : Route)
    → At (set_owned x false h) (node c l x r) π
    → is_red_root (plug (node c l x r) π) ≡ false
    → (h.child left x ≡ none) ⊎ (h.child right x ≡ none)
    → depth π < fuel
    → Removed (do_erase fuel x h) x (plug (node c l x r) π)
Standing-Removed fuel x h c leaf r π m b q f = record {
  front = before π;
  back = inorder r ++ after π;
  was = inorder-plug (node c leaf x r) π;
  result = rw (do_erase_low fuel x h c (pointer r) m.here.2 m.here.3 m.here.1) (
      subst (Gives (unlink fuel x c (pointer r) (set_owned x false h))) (inorder-plug r π)
        (leave-Gives fuel x (set_owned x false h) c r π leaf r m m.here.5 (λ i. omega arith) b f));
}
Standing-Removed fuel x h c (node k l y l') leaf π m b q f =
    let s = node k l y l' in
    record {
      front = before π ++ inorder s;
      back = after π;
      was = inorder-plug (node c s x leaf) π ∙ simp append_assoc;
      result = rw (do_erase_high fuel x y h c m.here.2 m.here.3 m.here.1) (
          subst (Gives (unlink fuel x c (some y) (set_owned x false h)))
            (inorder-plug s π ∙ sym (append_assoc (before π) (inorder s) (after π)))
            (leave-Gives fuel x (set_owned x false h) c s π s leaf m m.here.4 (λ i. omega arith) b
              f));
    }
Standing-Removed fuel x h c (node k l y l') (node k' r z r') π m b (inl e) f =
    absurd (none_ne_some (sym e ∙ m.here.2))
  where
    none_ne_some : none ≡ some y → ⊥
    none_ne_some w = cc
Standing-Removed fuel x h c (node k l y l') (node k' r z r') π m b (inr e) f =
    absurd (none_ne_some (sym e ∙ m.here.3))
  where
    none_ne_some : none ≡ some z → ⊥
    none_ne_some w = cc

-- With fuel for one round more than there are nodes, `doErase` of a node of a tree with a black
-- root that lacks at least one child is defined: the links then stand for a tree with a black
-- root again, and its nodes are those from before in the same order, without the one erased.
pub do_erase-Removed :
    (fuel x : ℕ) (h : Nodes) (t : Tree)
    → At h t top
    → is_red_root t ≡ false
    → 0 < count x t
    → (h.child left x ≡ none) ⊎ (h.child right x ≡ none)
    → size t < fuel
    → Removed (do_erase fuel x h) x t
unfolding plug
do_erase-Removed fuel x h t m b p q f =
    let m' = At-Agree h (set_owned x false h) t top (λ i z. (refl, refl, refl, refl)) refl m in
    let st = find_place (set_owned x false h) x t top m' p in
    subst (Removed (do_erase fuel x h) x) st.same (
      Standing-Removed fuel x h st.color st.lower st.higher st.path st.at_place
        (ap is_red_root st.same ∙ b) q
        (omega
          (arith, depth-le-size (node st.color st.lower x st.higher) st.path, ap size st.same)))
