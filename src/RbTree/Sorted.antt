-- ===== src/RbTree/Sorted.antt =====
-- utils/rbtree.hpp: the order of the nodes of a RbTree, and the place of a new one in it.
use my_async.Prelude.{
  ℕ, ◌≡◌, refl, ap, ◌∙◌, sym, Bool, true, false, List, [], ◌∷◌, ◌++◌, Bool-cases, inl, inr,
  if◌then◌else◌,
}
use my_async.RbTree.Heap.{left, right, red}
use my_async.RbTree.Tree.{
  Tree, leaf, node, plug, inorder, Route, top, below, before, after, inorder-plug,
}
use my_async.RbTree.Descent.{place}

-- What the comparison of the source is to be: a strict weak order.
pub record IsWeakOrder (compare : ℕ → ℕ → Bool) : Type 0 where
  pub asymmetric : (a b : ℕ) → compare a b ≡ true → compare b a ≡ false
  pub negatively_transitive :
      (a b c : ℕ) → compare a b ≡ false → compare b c ≡ false → compare a c ≡ false

module _ (compare : ℕ → ℕ → Bool) where
  -- No element comes before one that it is to follow.
  abbrev pub NoneBefore : ℕ → List ℕ → Type 0
  NoneBefore a [] = Unit {0}
  NoneBefore a (b ∷ bs) = (compare b a ≡ false) × NoneBefore a bs

  abbrev pub IsSorted : List ℕ → Type 0
  IsSorted [] = Unit {0}
  IsSorted (a ∷ as') = NoneBefore a as' × IsSorted as'

  -- The insertion into a sorted list: before the first element that is to follow.
  unfoldable pub insert_sorted : ℕ → List ℕ → List ℕ
  insert_sorted x [] = x ∷ []
  insert_sorted x (a ∷ as') = if compare x a then x ∷ (a ∷ as') else a ∷ insert_sorted x as'

  -- No node of the list is to follow the new one.
  abbrev NotFollowing : ℕ → List ℕ → Type 0
  NotFollowing x [] = Unit {0}
  NotFollowing x (a ∷ as') = (compare x a ≡ false) × NotFollowing x as'

  NotFollowing-append :
      (x : ℕ) (as' bs : List ℕ)
      → NotFollowing x as'
      → NotFollowing x bs
      → NotFollowing x (as' ++ bs)
  NotFollowing-append x [] bs p q = q
  NotFollowing-append x (a ∷ as') bs p q = (p.0, NotFollowing-append x as' bs p.1 q)

  insert_sorted-append :
      (x : ℕ) (as' bs : List ℕ)
      → NotFollowing x as'
      → insert_sorted x (as' ++ bs) ≡ as' ++ insert_sorted x bs
  unfolding insert_sorted
  insert_sorted-append x [] bs p = refl
  insert_sorted-append x (a ∷ as') bs p =
      rw p.0 (ap (λ l. a ∷ l) (insert_sorted-append x as' bs p.1))

  -- The nodes before one that the new node follows.
  NotFollowing-before :
      (x a : ℕ) (as' bs : List ℕ)
      → ((y : ℕ) → compare a y ≡ false → compare x y ≡ false)
      → IsSorted (as' ++ (a ∷ bs))
      → NotFollowing x as'
  NotFollowing-before x a [] bs t s = tt
  NotFollowing-before x a (b ∷ as') bs t s =
      (t b (none_before as' s.0), NotFollowing-before x a as' bs t s.1)
    where
      none_before : (cs : List ℕ) → NoneBefore b (cs ++ (a ∷ bs)) → compare a b ≡ false
      none_before [] n = n.0
      none_before (c ∷ cs) n = none_before cs n.1

  IsSorted-left : (as' bs : List ℕ) → IsSorted (as' ++ bs) → IsSorted as'
  IsSorted-left [] bs s = tt
  IsSorted-left (a ∷ as') bs s = (none_left as' s.0, IsSorted-left as' bs s.1)
    where
      none_left : (cs : List ℕ) → NoneBefore a (cs ++ bs) → NoneBefore a cs
      none_left [] n = tt
      none_left (c ∷ cs) n = (n.0, none_left cs n.1)

  IsSorted-right : (as' bs : List ℕ) → IsSorted (as' ++ bs) → IsSorted bs
  IsSorted-right [] bs s = s
  IsSorted-right (a ∷ as') bs s = IsSorted-right as' bs s.1

  -- The first node after the place is to follow the new one.
  abbrev StartsAfter : ℕ → List ℕ → Type 0
  StartsAfter x [] = Unit {0}
  StartsAfter x (a ∷ as') = compare x a ≡ true

  insert_sorted-StartsAfter : (x : ℕ) (bs : List ℕ) → StartsAfter x bs → insert_sorted x bs ≡ x ∷ bs
  unfolding insert_sorted
  insert_sorted-StartsAfter x [] p = refl
  insert_sorted-StartsAfter x (b ∷ bs) p = rw p

  module _ (o : IsWeakOrder compare) where
    place_order :
        (x : ℕ) (t : Tree) (π : Route)
        → IsSorted (inorder t)
        → NotFollowing x (before π)
        → StartsAfter x (after π)
        → NotFollowing x (before (place compare x t π))
          × StartsAfter x (after (place compare x t π))
    unfolding place before after
    place_order x leaf π s p q = (p, q)
    place_order x (node c l a r) π s p q = elim (Bool-cases (compare x a)) [
      | inl e ↦
          rw (e, place)
            (place_order x l (below left c a r π) (IsSorted-left (inorder l) (a ∷ inorder r) s) p e)
      | inr e ↦
          rw (e, place)
            (place_order x r (below right c a l π) (IsSorted-right (inorder l) (a ∷ inorder r) s).1
              (NotFollowing-append x (before π) (inorder l ++ (a ∷ [])) p (
                NotFollowing-append x (inorder l) (a ∷ [])
                  (NotFollowing-before x a (inorder l) (inorder r)
                    (λ y f. o.negatively_transitive x a y e f) s)
                  (e, tt)))
              q)
    ]

    -- The new leaf stands where the insertion into the list of nodes puts it.
    pub place-inorder :
        (x : ℕ) (t : Tree)
        → IsSorted (inorder t)
        → plug leaf (place compare x t top) ≡ t
        → inorder (plug (node red leaf x leaf) (place compare x t top))
          ≡ insert_sorted x (inorder t)
    unfolding before after
    place-inorder x t s e =
        let π = place compare x t top in
        let (p, q) = place_order x t top s (not_before-top x) (after-top x) in
        inorder-plug (node red leaf x leaf) π
        ∙ ap (λ (l : List ℕ). before π ++ l) (sym (insert_sorted-StartsAfter x (after π) q))
        ∙ sym (insert_sorted-append x (before π) (after π) p)
        ∙ ap (insert_sorted x) (sym (inorder-plug leaf π))
        ∙ ap (λ (t' : Tree). insert_sorted x (inorder t')) e
      where
        not_before-top : (y : ℕ) → NotFollowing y (before top)
        not_before-top y = tt

        after-top : (y : ℕ) → StartsAfter y (after top)
        after-top y = tt

    NoneBefore-insert_sorted :
        (x b : ℕ) (l : List ℕ)
        → compare x b ≡ false
        → NoneBefore b l
        → NoneBefore b (insert_sorted x l)
    unfolding insert_sorted
    NoneBefore-insert_sorted x b [] e n = (e, tt)
    NoneBefore-insert_sorted x b (a ∷ l) e n = elim (Bool-cases (compare x a)) [
      | inl f ↦ rw f (e, n)
      | inr f ↦ rw f (n.0, NoneBefore-insert_sorted x b l e n.1)
    ]

    NoneBefore-before :
        (x a : ℕ) (l : List ℕ) → compare x a ≡ true → NoneBefore a l → NoneBefore x l
    NoneBefore-before x a [] e n = tt
    NoneBefore-before x a (b ∷ l) e n = (
      elim (Bool-cases (compare b x)) [
        | inl f ↦
            absurd (true_ne_false (sym e ∙ o.negatively_transitive x b a (o.asymmetric b x f) n.0))
        | inr f ↦ f
      ],
      NoneBefore-before x a l e n.1,
    )
      where
        true_ne_false : true ≡ false → ⊥
        true_ne_false q = cc

    -- The list stays sorted.
    pub insert_sorted-IsSorted : (x : ℕ) (l : List ℕ) → IsSorted l → IsSorted (insert_sorted x l)
    unfolding insert_sorted
    insert_sorted-IsSorted x [] s = (tt, tt)
    insert_sorted-IsSorted x (a ∷ l) s = elim (Bool-cases (compare x a)) [
      | inl e ↦ rw e ((o.asymmetric x a e, NoneBefore-before x a l e s.0), s)
      | inr e ↦ rw e (NoneBefore-insert_sorted x a l e s.0, insert_sorted-IsSorted x l s.1)
    ]
