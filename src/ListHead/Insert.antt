-- ===== src/ListHead/Insert.antt =====
-- utils/ilist.hpp: the operations that put a node into the ring.
use my_async.Prelude.{ℕ, ◌≡◌, ◌≢◌, refl, sym, ◌∙◌, some, List, [], ◌∷◌, ◌++◌, append-nil, subst}
use my_async.ListHead.{
  Links, update, set_next, set_prev, do_push_front, do_push_back, do_insert_before, do_insert_after,
}
use my_async.ListHead.Ring.{
  update_self, update_other, IsFresh, Linked, Linked-append, Linked-split, Distinct, IsFresh-append,
  append-IsFresh, Distinct-middle, middle-Distinct, last, last-IsFresh, prev-last, Distinct-prefix,
  last-Distinct, Agrees, Linked-frame, Linked-retarget, IsRing,
}

-- `node` linked in between `a` and `b`.
abbrev linked_in : ℕ → ℕ → ℕ → Links → Links
linked_in a b node s =
    set_next a (some node)
      (set_prev b (some node) (set_prev node (some a) (set_next node (some b) s)))

module _ (s : Links) (a b node : ℕ) where
  linked_in-Agrees : Agrees s (linked_in a b node s) a b node
  linked_in-Agrees = record {
    same_next = λ i ha hn.
        update_other (update s.next node (some b)) a i (some node) ha
        ∙ update_other s.next node i (some b) hn;
    same_prev = λ i hb hn.
        update_other (update s.prev node (some a)) b i (some node) hb
        ∙ update_other s.prev node i (some a) hn;
  }

  module _ (ha : node ≢ a) (hb : node ≢ b) where
    node-next : (linked_in a b node s).next node ≡ some b
    node-next =
        update_other (update s.next node (some b)) a node (some node) ha
        ∙ update_self s.next node (some b)

    node-prev : (linked_in a b node s).prev node ≡ some a
    node-prev =
        update_other (update s.prev node (some a)) b node (some node) hb
        ∙ update_self s.prev node (some a)

  a-next : (linked_in a b node s).next a ≡ some node
  a-next = update_self (update s.next node (some b)) a (some node)

  b-prev : (linked_in a b node s).prev b ≡ some node
  b-prev = update_self (update s.prev node (some a)) b (some node)

-- The path in front of `b`, up to the node, and the node's own links.
Linked-front :
    (s : Links) (xs : List ℕ) (b node : ℕ)
    → Linked s 0 xs b
    → Distinct (0 ∷ xs)
    → IsFresh node (0 ∷ xs)
    → IsFresh b xs
    → node ≢ b
    → Linked (linked_in (last 0 xs) b node s) 0 xs node
      × Linked (linked_in (last 0 xs) b node s) node [] b
Linked-front s xs b node l d fresh fb hb =
    let a = last 0 xs in
    let ha : node ≢ a = last-IsFresh node 0 xs fresh in
    (
      Linked-retarget (linked_in-Agrees s a b node) 0 xs b node l refl d fresh fb
          (a-next s a b node) (node-prev s a b node ha hb),
      (node-next s a b node ha hb, b-prev s a b node),
    )

insert_before_eq :
    (s : Links) (a pivot node : ℕ)
    → s.prev pivot ≡ some a
    → node ≢ pivot
    → do_insert_before pivot node s ≡ some (linked_in a pivot node s)
unfolding do_insert_before
insert_before_eq s a pivot node before hp = rw before (
    rw
      (update_other (update s.prev node (some a)) pivot node (some node) hp
        ∙ update_self s.prev node (some a))
      refl)

-- `doPushBack` of a node that is not in the ring puts it behind all others.
pub do_push_back-IsRing :
    (s : Links) (xs : List ℕ) (node : ℕ)
    → IsRing s xs
    → IsFresh node (0 ∷ xs)
    → (s' : Links) × (do_push_back node s ≡ some s') × IsRing s' (xs ++ (node ∷ []))
unfolding do_push_back do_insert_before
do_push_back-IsRing s xs node ring (h, hs) = (
  linked_in (last 0 xs) 0 node s,
  insert_before_eq s (last 0 xs) 0 node (prev-last s 0 xs 0 ring.linked) h,
  record {
    linked =
        let (front, links) =
          Linked-front s xs 0 node ring.linked ring.distinct (h, hs) ring.distinct.0 h in
        Linked-append (linked_in (last 0 xs) 0 node s) 0 xs node [] 0 front links;
    distinct = (
      append-IsFresh 0 xs (node ∷ []) ring.distinct.0 (λ e. h (sym e), tt),
      middle-Distinct xs node [] (append-IsFresh node xs [] hs tt)
          (subst Distinct (sym (append-nil xs)) ring.distinct.1),
    );
  },
)

-- `doInsertBefore` of a node that is not in the ring puts it in front of the given node of the
-- ring, wherever that stands.
pub do_insert_before-IsRing :
    (s : Links) (xs ys : List ℕ) (pivot node : ℕ)
    → IsRing s (xs ++ (pivot ∷ ys))
    → IsFresh node (0 ∷ (xs ++ (pivot ∷ ys)))
    → (s' : Links) × (do_insert_before pivot node s ≡ some s')
      × IsRing s' (xs ++ (node ∷ pivot ∷ ys))
do_insert_before-IsRing s xs ys pivot node ring (h, hs) =
    let (l, r) = Linked-split s 0 xs pivot ys 0 ring.linked in
    let (fx, (hp, fy)) = IsFresh-append node xs (pivot ∷ ys) hs in
    let (zx, (zp, zy)) = IsFresh-append 0 xs (pivot ∷ ys) ring.distinct.0 in
    let (px, py, d) = Distinct-middle xs pivot ys ring.distinct.1 in
    let a = last 0 xs in
    let (front, (links_next, links_prev)) =
      Linked-front s xs pivot node l (zx, Distinct-prefix xs (pivot ∷ ys) ring.distinct.1) (h, fx)
        px hp in
    let back =
      Linked-frame (linked_in-Agrees s a pivot node) pivot ys 0
        (last-Distinct 0 xs (pivot ∷ ys) ring.distinct) (hp, fy) py (λ e. zp (sym e)) h r in
    (
      linked_in a pivot node s,
      insert_before_eq s a pivot node (prev-last s 0 xs pivot l) hp,
      record {
        linked =
            Linked-append (linked_in a pivot node s) 0 xs node (pivot ∷ ys) 0 front
              (links_next, links_prev, back);
        distinct = (
          append-IsFresh 0 xs (node ∷ pivot ∷ ys) zx (λ e. h (sym e), (zp, zy)),
          middle-Distinct xs node (pivot ∷ ys) hs ring.distinct.1,
        );
      },
    )

push_front_eq :
    (s : Links) (b node : ℕ)
    → s.next 0 ≡ some b
    → node ≢ 0
    → do_push_front node s ≡ some (linked_in 0 b node s)
unfolding do_push_front
push_front_eq s b node after h = rw after (
    rw
      (update_other (update s.next node (some b)) 0 node (some node) h
        ∙ update_self s.next node (some b))
      refl)

-- `doPushFront` of a node that is not in the ring puts it in front of all others.
pub do_push_front-IsRing :
    (s : Links) (xs : List ℕ) (node : ℕ)
    → IsRing s xs
    → IsFresh node (0 ∷ xs)
    → (s' : Links) × (do_push_front node s ≡ some s') × IsRing s' (node ∷ xs)
do_push_front-IsRing s [] node ring (h, hs) = (
  linked_in 0 0 node s,
  push_front_eq s 0 node ring.linked.0 h,
  record {
    linked = (
      a-next s 0 0 node,
      node-prev s 0 0 node h h,
      (node-next s 0 0 node h h, b-prev s 0 0 node),
    );
    distinct = ((λ e. h (sym e), tt), (tt, tt));
  },
)
do_push_front-IsRing s (x ∷ xs) node ring (h, hs) = (
  linked_in 0 x node s,
  push_front_eq s x node ring.linked.0 h,
  record {
    linked = (
      a-next s 0 x node,
      node-prev s 0 x node h hs.0,
      (
        node-next s 0 x node h hs.0,
        b-prev s 0 x node,
        Linked-frame (linked_in-Agrees s 0 x node) x xs 0 ring.distinct.0 hs ring.distinct.1.0
            (λ e. ring.distinct.0.0 (sym e)) h ring.linked.2,
      ),
    );
    distinct = ((λ e. h (sym e), ring.distinct.0), (hs, ring.distinct.1));
  },
)

-- `doInsertAfter` of a node behind a pivot links it in forwards and back to the pivot, but the
-- link back of the node behind it stays what it was.
pub do_insert_after_lem :
    (s : Links) (pivot b node : ℕ)
    → s.next pivot ≡ some b
    → node ≢ pivot
    → node ≢ b
    → (s' : Links) × (do_insert_after pivot node s ≡ some s')
      × (s'.next pivot ≡ some node)
      × (s'.next node ≡ some b)
      × (s'.prev node ≡ some pivot)
      × (s'.prev b ≡ s.prev b)
unfolding do_insert_after
do_insert_after_lem s pivot b node after hp hb =
    let links = update s.next node (some b) in
    (
      record {
        next = update (update links pivot (some node)) pivot (some node);
        prev = update s.prev node (some pivot);
      },
      rw after (rw (update_self s.prev node (some pivot)) refl),
      update_self (update links pivot (some node)) pivot (some node),
      update_other (update links pivot (some node)) pivot node (some node) hp
          ∙ update_other links pivot node (some node) hp
          ∙ update_self s.next node (some b),
      update_self s.prev node (some pivot),
      update_other s.prev node b (some pivot) (λ e. hb (sym e)),
    )
