-- ===== src/RbTree/Reads.antt =====
-- utils/rbtree.hpp: front, back, traverseInorder and clear read the nodes in their order.
use my_async.Prelude.{
  ℕ, suc, zero, ◌+◌, ◌≤◌, ◌<◌, ◌≡◌, refl, ap, ◌∙◌, sym, false, Option, none, some, arith, List, [],
  ◌∷◌, ◌++◌, ◌⊎◌, inl, inr,
}
use my_async.RbTree.{outermost, get_front, get_back, traverse, traverse_inorder, disown, clear}
use my_async.RbTree.Heap.{
  Color, left, right, Nodes, follow, set_owned, set_root, update_self, update_other,
}
use my_async.RbTree.Tree.{Tree, leaf, node, pointer, inorder, count, one, one-eq, one_self, top}
use my_async.RbTree.Links.{Rep, At, Rep-Agree}
use my_async.RbTree.Descent.{size, one_cases}

abbrev pub first : List ℕ → Option ℕ
first [] = none
first (a ∷ l) = some a

abbrev pub last : List ℕ → Option ℕ
last [] = none
last (a ∷ []) = some a
last (a ∷ (b ∷ l)) = last (b ∷ l)

pub first-append : (l l' : List ℕ) (a : ℕ) → first l ≡ some a → first (l ++ l') ≡ some a
first-append [] l' a e = absurd (none_ne_some e)
  where
    none_ne_some : none ≡ some a → ⊥
    none_ne_some z = cc
first-append (b ∷ l) l' a e = e

pub first_in :
    (c : Color) (l : Tree) (a : ℕ) (r : Tree)
    → (b : ℕ) × (first (inorder (node c l a r)) ≡ some b) × (0 < count b (node c l a r))
first_in c leaf a r = (a, refl, omega (arith, one_self a))
first_in c (node k l z l') a r =
    let (b, e, p) = first_in k l z l' in
    (b, first-append (inorder (node k l z l')) (a ∷ inorder r) b e, omega arith)

last-append : (l l' : List ℕ) (b : ℕ) → last (l ++ (b ∷ l')) ≡ last (b ∷ l')
last-append [] l' b = refl
last-append (a ∷ []) l' b = refl
last-append (a ∷ (c ∷ l)) l' b = last-append (c ∷ l) l' b

last-cons : (a : ℕ) (l : List ℕ) (b : ℕ) → last l ≡ some b → last (a ∷ l) ≡ some b
last-cons a [] b e = absurd (none_ne_some e)
  where
    none_ne_some : none ≡ some b → ⊥
    none_ne_some z = cc
last-cons a (c ∷ l) b e = e

-- The way down to one side ends at the first, or the last, node.
pub outermost-left :
    (h : Nodes) (p : Option ℕ) (t : Tree) (a fuel : ℕ)
    → Rep h p t
    → pointer t ≡ some a
    → size t ≤ fuel
    → (b : ℕ) × (outermost left fuel a h ≡ some b) × (first (inorder t) ≡ some b)
unfolding outermost
outermost-left h p leaf a fuel r e f = absurd (none_ne_some e)
  where
    none_ne_some : none ≡ some a → ⊥
    none_ne_some z = cc
outermost-left h p (node c l x r) a zero q e f = absurd (omega arith)
outermost-left h p (node c leaf x r) a (suc fuel) q e f =
    (a, rw (← some_injective e) (rw (q.2, outermost)), e)
  where
    some_injective : some x ≡ some a → x ≡ a
    some_injective z = cc
outermost-left h p (node c (node c' l' y r') x r) a (suc fuel) q e f =
    let (b, g, k) = outermost-left h (some x) (node c' l' y r') y fuel q.4 refl (omega arith) in
    (
      b,
      rw (← some_injective e) (rw (q.2, outermost) g),
      first-append (inorder (node c' l' y r')) (x ∷ inorder r) b k,
    )
  where
    some_injective : some x ≡ some a → x ≡ a
    some_injective z = cc

outermost-right :
    (h : Nodes) (p : Option ℕ) (t : Tree) (a fuel : ℕ)
    → Rep h p t
    → pointer t ≡ some a
    → size t ≤ fuel
    → (b : ℕ) × (outermost right fuel a h ≡ some b) × (last (inorder t) ≡ some b)
unfolding outermost
outermost-right h p leaf a fuel r e f = absurd (none_ne_some e)
  where
    none_ne_some : none ≡ some a → ⊥
    none_ne_some z = cc
outermost-right h p (node c l x r) a zero q e f = absurd (omega arith)
outermost-right h p (node c l x leaf) a (suc fuel) q e f =
    (a, rw (← some_injective e) (rw (q.3, outermost)), last-append (inorder l) [] x ∙ e)
  where
    some_injective : some x ≡ some a → x ≡ a
    some_injective z = cc
outermost-right h p (node c l x (node c' l' y r')) a (suc fuel) q e f =
    let (b, g, k) = outermost-right h (some x) (node c' l' y r') y fuel q.5 refl (omega arith) in
    (
      b,
      rw (← some_injective e) (rw (q.3, outermost) g),
      last-append (inorder l) (inorder (node c' l' y r')) x
          ∙ last-cons x (inorder (node c' l' y r')) b k,
    )
  where
    some_injective : some x ≡ some a → x ≡ a
    some_injective z = cc

-- With fuel for the nodes of the tree, `getFront` gives the first node in the order and `getBack`
-- the last one; on an empty tree both are undefined.
pub get_front-first :
    (h : Nodes) (t : Tree) (fuel : ℕ)
    → At h t top
    → size t ≤ fuel
    → (get_front fuel h ≡ first (inorder t)) × (get_back fuel h ≡ last (inorder t))
unfolding get_front get_back
get_front-first h leaf fuel m f = (rw m.link, rw m.link)
get_front-first h (node c l a r) fuel m f =
    let (b, g, k) = outermost-left h none (node c l a r) a fuel m.here refl f in
    let (b', g', k') = outermost-right h none (node c l a r) a fuel m.here refl f in
    (
      ap (λ o. follow {B = ℕ} o λ b. outermost left fuel b h) m.link ∙ g ∙ sym k,
      ap (λ o. follow {B = ℕ} o λ b. outermost right fuel b h) m.link ∙ g' ∙ sym k',
    )

traverse_lem :
    (h : Nodes) (p : Option ℕ) (t : Tree) (fuel : ℕ)
    → Rep h p t
    → size t ≤ fuel
    → traverse fuel (pointer t) h ≡ some (inorder t)
unfolding traverse
traverse_lem h p leaf zero r f = refl
traverse_lem h p leaf (suc fuel) r f = refl
traverse_lem h p (node c l a r) zero q f = absurd (omega arith)
traverse_lem h p (node c l a r) (suc fuel) q f = rw q.2 (
    rw (traverse_lem h (some a) l fuel q.4 (omega arith), follow)
      (rw q.3 (rw (traverse_lem h (some a) r fuel q.5 (omega arith), follow))))

-- With fuel for the nodes of the tree, `traverseInorder` calls its visitor on every node once, in
-- their order.
pub traverse_inorder-inorder :
    (h : Nodes) (t : Tree) (fuel : ℕ)
    → At h t top
    → size t ≤ fuel
    → traverse_inorder fuel h ≡ some (inorder t)
unfolding traverse_inorder
traverse_inorder-inorder h t fuel m f =
    ap (λ o. traverse fuel o h) m.link ∙ traverse_lem h none t fuel m.here f

-- The nodes of a tree are no longer owned, others stay as they were.
abbrev Disowned : Nodes → Nodes → Tree → Type 0
Disowned h h' t =
    ((i : ℕ) → 0 < count i t → h'.owned i ≡ false)
    × ((i : ℕ) → count i t ≡ 0 → h'.owned i ≡ h.owned i)

-- The other members do not change.
record SameLinks (h h' : Nodes) : Type 0 where
  children : h'.child ≡ h.child
  parents : h'.parent ≡ h.parent
  colors : h'.color ≡ h.color

SameLinks-Rep : (h h' : Nodes) (p : Option ℕ) (t : Tree) → SameLinks h h' → Rep h p t → Rep h' p t
SameLinks-Rep h h' p t s = Rep-Agree h h' p t (λ i z. (
  ap (λ f. f i) s.parents,
  ap (λ f. f i) s.colors,
  ap (λ f. f left i) s.children,
  ap (λ f. f right i) s.children,
))

pub zero_or_pos : (n : ℕ) → (n ≡ 0) ⊎ (0 < n)
zero_or_pos zero = inl refl
zero_or_pos (suc n) = inr (omega arith)

-- A node between two subtrees, disowned after the first and before the second.
Disowned-node :
    (h h₁ h₃ : Nodes) (c : Color) (l : Tree) (a : ℕ) (r : Tree)
    → Disowned h h₁ l
    → Disowned (set_owned a false h₁) h₃ r
    → Disowned h h₃ (node c l a r)
Disowned-node h h₁ h₃ c l a r d₁ d₃ = (
  λ i p. taken i p (zero_or_pos (count i r)) (one_cases i a),
  λ i z. d₃.1 i (omega arith) ∙ (kept i z (one_cases i a) ∙ d₁.1 i (omega arith)),
)
  where
    taken :
        (i : ℕ)
        → 0 < count i l + one i a + count i r
        → (count i r ≡ 0) ⊎ (0 < count i r)
        → (one i a ≡ 0) ⊎ ((i ≡ a) × (one i a ≡ 1))
        → h₃.owned i ≡ false
    taken i p (inr q) o = d₃.0 i q
    taken i p (inl z) (inr (e, o)) = d₃.1 i z ∙ (rw e (update_self h₁.owned a false))
    taken i p (inl z) (inl o) =
        d₃.1 i z
        ∙ (update_other h₁.owned a i false (λ e. omega (arith, o, one-eq i a e))
            ∙ d₁.0 i (omega (arith, z, o)))

    kept :
        (i : ℕ)
        → count i l + one i a + count i r ≡ 0
        → (one i a ≡ 0) ⊎ ((i ≡ a) × (one i a ≡ 1))
        → (set_owned a false h₁).owned i ≡ h₁.owned i
    kept i z (inr (e, o)) = absurd (omega (arith, z, o))
    kept i z (inl o) = update_other h₁.owned a i false (λ e. omega (arith, o, one-eq i a e))

-- What the recursion of `doClear` leaves.
record Cleared (h h' : Nodes) (t : Tree) : Type 0 where
  links : SameLinks h h'
  owners : Disowned h h' t

nothing-Cleared : (h : Nodes) → Cleared h h leaf
nothing-Cleared h = record {
  links = record { children = refl; parents = refl; colors = refl };
  owners = (λ i p. absurd (omega arith), λ i p. refl);
}

disown_lem :
    (h : Nodes) (p : Option ℕ) (t : Tree) (fuel : ℕ)
    → Rep h p t
    → size t ≤ fuel
    → (h' : Nodes) × (disown fuel (pointer t) h ≡ some h') × Cleared h h' t
unfolding disown
disown_lem h p leaf zero r f = (h, refl, nothing-Cleared h)
disown_lem h p leaf (suc fuel) r f = (h, refl, nothing-Cleared h)
disown_lem h p (node c l a r) zero q f = absurd (omega arith)
disown_lem h p (node c l a r) (suc fuel) q f =
    let (h₁, e₁, s₁) = disown_lem h (some a) l fuel q.4 (omega arith) in
    let k₁ = s₁.links in
    let h₂ = set_owned a false h₁ in
    let k₂ : SameLinks h h₂ = record {
      children = k₁.children;
      parents = k₁.parents;
      colors = k₁.colors;
    } in
    let (h₃, e₃, s₃) =
      disown_lem h₂ (some a) r fuel (SameLinks-Rep h h₂ (some a) r k₂ q.5) (omega arith) in
    let k₃ = s₃.links in
    (
      h₃,
      rw q.2 (rw (e₁, follow) (rw (ap (λ f. f right a) k₁.children ∙ q.3) e₃)),
      record {
        links = record {
          children = k₃.children ∙ k₂.children;
          parents = k₃.parents ∙ k₂.parents;
          colors = k₃.colors ∙ k₂.colors;
        };
        owners = Disowned-node h h₁ h₃ c l a r s₁.owners s₃.owners;
      },
    )

-- With fuel for the nodes of the tree, `doClear` ends. It leaves an empty tree, each node that
-- was in it is owned by none, and what any other node is owned by stays.
pub clear-Disowned :
    (h : Nodes) (t : Tree) (fuel : ℕ)
    → At h t top
    → size t ≤ fuel
    → (h' : Nodes) × (clear fuel h ≡ some h')
      × (h'.root ≡ none)
      × ((i : ℕ) → 0 < count i t → h'.owned i ≡ false)
      × ((i : ℕ) → count i t ≡ 0 → h'.owned i ≡ h.owned i)
unfolding clear
clear-Disowned h t fuel m f =
    let (h', e, s) = disown_lem h none t fuel m.here f in
    (
      set_root none h',
      ap (λ o. follow {B = Nodes} (disown fuel o h) λ h₁. some (set_root none h₁)) m.link
          ∙ rw (e, follow),
      refl,
      s.owners.0,
      s.owners.1,
    )
