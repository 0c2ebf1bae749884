-- ===== src/ListHead/Erase.antt =====
-- utils/ilist.hpp: the operations that take a node out of the ring.
use my_async.Prelude.{
  ℕ, ◌≡◌, ◌≢◌, refl, sym, ◌∙◌, some, none, List, [], ◌∷◌, ◌++◌, append-nil, subst, ◌==◌, false,
  arith, ◌⊎◌, inl, inr,
}
use my_async.ListHead.{
  Links, update, set_next, set_prev, unlink, do_erase, do_pop_front, do_pop_back,
}
use my_async.ListHead.Ring.{
  update_self, update_other, IsFresh, Linked, Linked-append, Linked-split, IsFresh-append,
  Distinct-middle, Distinct-prefix, last, last-IsFresh, last-Distinct, prev-last, Agrees,
  Linked-frame, Linked-retarget, IsRing, append-IsFresh,
}

-- `node` taken out from between `a` and `b`.
abbrev linked_out : ℕ → ℕ → ℕ → Links → Links
linked_out a b node s = unlink node (set_next a (some b) (set_prev b (some a) s))

-- The first node of a path that ends at the root.
abbrev first_of : List ℕ → ℕ
first_of [] = 0
first_of (x ∷ xs) = x

module _ (s : Links) (a b node : ℕ) where
  linked_out-Agrees : Agrees s (linked_out a b node s) a b node
  linked_out-Agrees = record {
    same_next = λ i ha hn.
        update_other (update s.next a (some b)) node i none hn
        ∙ update_other s.next a i (some b) ha;
    same_prev = λ i hb hn.
        update_other (update s.prev b (some a)) node i none hn
        ∙ update_other s.prev b i (some a) hb;
  }

  a-next : a ≢ node → (linked_out a b node s).next a ≡ some b
  a-next h = update_other (update s.next a (some b)) node a none h ∙ update_self s.next a (some b)

  b-prev : b ≢ node → (linked_out a b node s).prev b ≡ some a
  b-prev h = update_other (update s.prev b (some a)) node b none h ∙ update_self s.prev b (some a)

-- The ring without one of its nodes.
pub record IsOut (s : Links) (node : ℕ) (xs : List ℕ) : Type 0 where
  pub ring : IsRing s xs
  pub no_next : s.next node ≡ none
  pub no_prev : s.prev node ≡ none

linked_out-IsOut :
    (s : Links) (xs : List ℕ) (node : ℕ) (ys : List ℕ)
    → IsRing s (xs ++ (node ∷ ys))
    → IsOut (linked_out (last 0 xs) (first_of ys) node s) node (xs ++ ys)
linked_out-IsOut s xs node ys ring =
    let (zx, (zn, zy)) = IsFresh-append 0 xs (node ∷ ys) ring.distinct.0 in
    let (nx, ny, d) = Distinct-middle xs node ys ring.distinct.1 in
    record {
      ring = record { linked = go ys ring; distinct = (append-IsFresh 0 xs ys zx zy, d) };
      no_next = update_self (update s.next (last 0 xs) (some (first_of ys))) node none;
      no_prev = update_self (update s.prev (first_of ys) (some (last 0 xs))) node none;
    }
  where
    go :
        (ys : List ℕ)
        → IsRing s (xs ++ (node ∷ ys))
        → Linked (linked_out (last 0 xs) (first_of ys) node s) 0 (xs ++ ys) 0
    go [] ring =
        let (l, r) = Linked-split s 0 xs node [] 0 ring.linked in
        let (zx, (zn, zy)) = IsFresh-append 0 xs (node ∷ []) ring.distinct.0 in
        let (nx, ny, d) = Distinct-middle xs node [] ring.distinct.1 in
        let a = last 0 xs in
        let fresh : IsFresh node (0 ∷ xs) = (λ e. zn (sym e), nx) in
        subst (λ zs. Linked (linked_out a 0 node s) 0 zs 0) (sym (append-nil xs))
          (Linked-retarget (linked_out-Agrees s a 0 node) 0 xs node 0 l refl
            (zx, Distinct-prefix xs (node ∷ []) ring.distinct.1) fresh zx
            (a-next s a 0 node (λ e. last-IsFresh node 0 xs fresh (sym e))) (b-prev s a 0 node zn))
    go (y ∷ ys) ring =
        let (l, (rn, rp, r)) = Linked-split s 0 xs node (y ∷ ys) 0 ring.linked in
        let (zx, (zn, zy)) = IsFresh-append 0 xs (node ∷ y ∷ ys) ring.distinct.0 in
        let (nx, (hy, ny), d) = Distinct-middle xs node (y ∷ ys) ring.distinct.1 in
        let (yx, yy, d') = Distinct-middle xs y ys d in
        let a = last 0 xs in
        let fresh : IsFresh node (0 ∷ xs) = (λ e. zn (sym e), nx) in
        Linked-append (linked_out a y node s) 0 xs y ys 0
          (Linked-retarget (linked_out-Agrees s a y node) 0 xs node y l refl
            (zx, Distinct-prefix xs (node ∷ y ∷ ys) ring.distinct.1) fresh yx
            (a-next s a y node (λ e. last-IsFresh node 0 xs fresh (sym e)))
            (b-prev s a y node (λ e. hy (sym e))))
          (Linked-frame (linked_out-Agrees s a y node) y ys 0
            (last-Distinct 0 xs (node ∷ y ∷ ys) ring.distinct).1 (hy, ny) yy (λ e. zy.0 (sym e))
            (λ e. zn (sym e)) r)

-- The neighbours of a node of the ring.
neighbours :
    (s : Links) (xs : List ℕ) (node : ℕ) (ys : List ℕ)
    → IsRing s (xs ++ (node ∷ ys))
    → (s.next node ≡ some (first_of ys)) × (s.prev node ≡ some (last 0 xs)) × (first_of ys ≢ node)
neighbours s xs node [] ring =
    let (l, r) = Linked-split s 0 xs node [] 0 ring.linked in
    (r.0, prev-last s 0 xs node l, (IsFresh-append 0 xs (node ∷ []) ring.distinct.0).1.0)
neighbours s xs node (y ∷ ys) ring =
    let (l, r) = Linked-split s 0 xs node (y ∷ ys) 0 ring.linked in
    let (nx, ny, d) = Distinct-middle xs node (y ∷ ys) ring.distinct.1 in
    (r.0, prev-last s 0 xs node l, λ e. ny.0 (sym e))

-- `doErase` takes a node of a ring out of it, wherever it stands, keeps the order of the others
-- and leaves both links of the node null.
pub do_erase-IsOut :
    (s : Links) (xs : List ℕ) (node : ℕ) (ys : List ℕ)
    → IsRing s (xs ++ (node ∷ ys))
    → (s' : Links) × (do_erase node s ≡ some s') × IsOut s' node (xs ++ ys)
unfolding do_erase
do_erase-IsOut s xs node ys ring =
    let (after, before, apart) = neighbours s xs node ys ring in
    let kept =
      update_other s.prev (first_of ys) node (some (last 0 xs)) (λ e. apart (sym e)) ∙ before in
    (
      linked_out (last 0 xs) (first_of ys) node s,
      rw after (rw (before, kept) refl),
      linked_out-IsOut s xs node ys ring,
    )

-- `doPopFront` takes out the first node of a ring and leaves its links null; on an empty list it
-- gives null and changes nothing.
pub do_pop_front-IsOut :
    (s : Links) (xs : List ℕ)
    → IsRing s xs
    → ((xs ≡ []) × (do_pop_front s ≡ some (none, s)))
      ⊎ ((node : ℕ) × (ys : List ℕ) × (s' : Links) × (xs ≡ node ∷ ys)
          × (do_pop_front s ≡ some (some node, s'))
          × IsOut s' node ys)
unfolding do_pop_front
do_pop_front-IsOut s [] ring = inl (refl, rw ring.linked.0 refl)
do_pop_front-IsOut s (node ∷ ys) ring =
    let (after, before, apart) = neighbours s [] node ys ring in
    let zero_ne = ring.distinct.0.0 in
    let nonzero : (node == 0) ≡ false = ground arith in
    inr (
      node,
      ys,
      linked_out 0 (first_of ys) node s,
      refl,
      rw ring.linked.0 (rw nonzero (rw after refl)),
      linked_out-IsOut s [] node ys ring,
    )

-- `doPopBack` takes out the last node of a ring that has one and leaves its links null.
pub do_pop_back-IsOut :
    (s : Links) (xs : List ℕ) (node : ℕ)
    → IsRing s (xs ++ (node ∷ []))
    → (s' : Links) × (do_pop_back s ≡ some (some node, s')) × IsOut s' node xs
unfolding do_pop_back
do_pop_back-IsOut s xs node ring =
    let (after, before, apart) = neighbours s xs node [] ring in
    let (l, r) = Linked-split s 0 xs node [] 0 ring.linked in
    let nonzero : (node == 0) ≡ false = ground arith in
    let kept = update_other s.prev 0 node (some (last 0 xs)) (λ e. apart (sym e)) ∙ before in
    (
      linked_out (last 0 xs) 0 node s,
      rw r.1 (rw nonzero (rw after (rw (before, kept) refl))),
      subst (IsOut (linked_out (last 0 xs) 0 node s) node) (append-nil xs)
          (linked_out-IsOut s xs node [] ring),
    )
