-- ===== src/Timers/Start.antt =====
-- generic/generic_io.hpp: a timer is started by await_suspend, and cancelled by doCancel.
use my_async.Prelude.{
  ℕ, ◌+◌, ◌<◌, ◌≡◌, ◌≢◌, refl, sym, ap, ◌∙◌, subst, Bool, true, false, ◌⊎◌, inl, inr, Option, none,
  some, List, [], ◌∷◌, ◌++◌, arith, ltb, Bool-cases, ap₂,
}
use my_async.Expected.{error, make_error_code, operation_canceled}
use my_async.Timers.{GenericIoContext, earlier, await_suspend, await_resume, do_cancel}
use my_async.Timers.Running.{IsRunning, erase_from_parent-Taken}
use my_async.RbTree.Heap.{left, right, follow, update, update_self, update_other}
use my_async.RbTree.Tree.{
  Tree, count, inorder, one, one-eq, occurrences, occurrences-append, occurrences-inorder,
}
use my_async.RbTree.Sorted.{
  IsWeakOrder, IsSorted, NoneBefore, insert_sorted, insert_sorted-IsSorted,
}
use my_async.RbTree.Descent.{size, one_cases}
use my_async.RbTree.Placement.{do_insert-Gives}
use my_async.RbTree.Owners.{Holds, Owned, do_insert-Owned}

pub earlier-IsWeakOrder : (expires : ℕ → ℕ) → IsWeakOrder (earlier expires)
earlier-IsWeakOrder expires = record {
  asymmetric = λ a b h. ltb_asymmetric (expires a) (expires b) h;
  negatively_transitive = λ a b c h k. ltb_transitive (expires a) (expires b) (expires c) h k;
}
  where
    ltb_asymmetric : (a b : ℕ) → ltb a b ≡ true → ltb b a ≡ false
    ltb_asymmetric a b h = ground arith

    ltb_transitive : (a b c : ℕ) → ltb a b ≡ false → ltb b c ≡ false → ltb a c ≡ false
    ltb_transitive a b c h k = ground arith

-- The order of other timers does not depend on the expiry of a new one.
NoneBefore-update :
    (e : ℕ → ℕ) (x time a : ℕ) (l : List ℕ)
    → a ≢ x
    → occurrences x l ≡ 0
    → NoneBefore (earlier e) a l
    → NoneBefore (earlier (update e x time)) a l
NoneBefore-update e x time a [] ne z s = tt
NoneBefore-update e x time a (b ∷ l) ne z s = (
  ap₂ ltb (update_other e x b time (λ q. omega (arith, z, one-eq x b (sym q))))
        (update_other e x a time ne)
      ∙ s.0,
  NoneBefore-update e x time a l ne (omega (arith, z)) s.1,
)

IsSorted-update :
    (e : ℕ → ℕ) (x time : ℕ) (l : List ℕ)
    → occurrences x l ≡ 0
    → IsSorted (earlier e) l
    → IsSorted (earlier (update e x time)) l
IsSorted-update e x time [] z s = tt
IsSorted-update e x time (a ∷ l) z s = (
  NoneBefore-update e x time a l (λ q. omega (arith, z, one-eq x a (sym q))) (omega (arith, z)) s.0,
  IsSorted-update e x time l (omega (arith, z)) s.1,
)

occurrences-insert_sorted :
    (compare : ℕ → ℕ → Bool) (i x : ℕ) (l : List ℕ)
    → occurrences i (insert_sorted compare x l) ≡ one i x + occurrences i l
unfolding insert_sorted
occurrences-insert_sorted compare i x [] = refl
occurrences-insert_sorted compare i x (a ∷ l) = elim (Bool-cases (compare x a)) [
  | inl e ↦ rw e
  | inr e ↦ rw e (omega (arith, occurrences-insert_sorted compare i x l))
]

-- A timer that has been started.
pub record Started (o : Option GenericIoContext) (timer time : ℕ) (s : GenericIoContext) (t : Tree)
    : Type 0 where
  pub state : GenericIoContext
  pub tree : Tree
  pub returns : o ≡ some state
  pub running : IsRunning state tree
  pub in_order : inorder tree ≡ insert_sorted (earlier state.expires) timer (inorder t)
  pub expiry : state.expires ≡ update s.expires timer time

-- When the timers stand in a tree with a black root, all owned by it and in the order of expiry,
-- `await_suspend` of a timer that is not among them sets its expiry and puts it behind the timers
-- that do not expire later; the others keep their order, and the timers stand in such a tree
-- again.
pub await_suspend-Started :
    (fuel timer time : ℕ) (s : GenericIoContext) (t : Tree)
    → IsRunning s t
    → count timer t ≡ 0
    → size t < fuel
    → Started (await_suspend fuel timer time s) timer time s t
unfolding await_suspend
await_suspend-Started fuel timer time s t r z f =
    let e = update s.expires timer time in
    let c = earlier e in
    let b =
      IsSorted-update s.expires timer time (inorder t) (occurrences-inorder timer t ∙ z) r.sorted in
    let g =
      do_insert-Gives c fuel timer s.timers t (earlier-IsWeakOrder e) r.links r.black_root b z f in
    let w : g.nodes.owned ≡ update s.timers.owned timer true =
      subst (Holds (Owned (update s.timers.owned timer true))) g.returns
        (do_insert-Owned c fuel timer s.timers) in
    record {
      state = record s { timers = g.nodes; expires = e };
      tree = g.tree;
      returns = rw (g.returns, follow);
      running = record {
        links = g.links;
        black_root = g.black_root;
        owned = λ i p. ap (λ v. v i) w ∙ owner i (member i g.tree g.in_order p);
        sorted =
            subst (IsSorted c) (sym g.in_order)
              (insert_sorted-IsSorted c (earlier-IsWeakOrder e) timer (inorder t) b);
      };
      in_order = g.in_order;
      expiry = refl;
    }
  where
    member :
        (i : ℕ) (t' : Tree)
        → inorder t' ≡ insert_sorted (earlier (update s.expires timer time)) timer (inorder t)
        → 0 < count i t'
        → (i ≡ timer) ⊎ ((i ≢ timer) × (0 < count i t))
    member i t' e p = elim (one_cases i timer) [
      | inr (q, o) ↦ inl q
      | inl o ↦ inr (
        λ q. omega (arith, o, one-eq i timer q),
        omega (
          arith,
          o,
          p,
          occurrences-inorder i t',
          occurrences-inorder i t,
          ap (occurrences i) e,
          occurrences-insert_sorted (earlier (update s.expires timer time)) i timer (inorder t),
        ),
      )
    ]

    owner :
        (i : ℕ)
        → (i ≡ timer) ⊎ ((i ≢ timer) × (0 < count i t))
        → update s.timers.owned timer true i ≡ true
    owner i (inl q) = rw q (update_self s.timers.owned timer true)
    owner i (inr (ne, p)) = update_other s.timers.owned timer i true ne ∙ r.owned i p

IsSorted-removed :
    (compare : ℕ → ℕ → Bool) (x : ℕ) (l l' : List ℕ)
    → IsSorted compare (l ++ (x ∷ l'))
    → IsSorted compare (l ++ l')
IsSorted-removed compare x [] l' s = s.1
IsSorted-removed compare x (a ∷ l) l' s = (before l s.0, IsSorted-removed compare x l l' s.1)
  where
    before : (m : List ℕ) → NoneBefore compare a (m ++ (x ∷ l')) → NoneBefore compare a (m ++ l')
    before [] n = n.1
    before (b ∷ m) n = (n.0, before m n.1)

-- A timer that has been cancelled: it has left the tree, and its coroutine gets an error.
pub record Cancelled (o : Option GenericIoContext) (timer : ℕ) (s : GenericIoContext) (t : Tree)
    : Type 0 where
  pub state : GenericIoContext
  pub tree : Tree
  pub front : List ℕ
  pub back : List ℕ
  pub returns : o ≡ some state
  pub running : IsRunning state tree
  pub was : inorder t ≡ front ++ (timer ∷ back)
  pub in_order : inorder tree ≡ front ++ back
  pub result : await_resume timer state ≡ error (make_error_code operation_canceled)
  pub others : (i : ℕ) → i ≢ timer → await_resume i state ≡ await_resume i s

-- When the timers stand in a tree with a black root, all owned by it and in the order of expiry,
-- `doCancel` of a timer whose node lacks a child takes exactly this timer out, the timers left
-- stand in such a tree again, its `await_resume` gives operation_canceled, and that of every
-- other timer gives what it gave before.
pub do_cancel-Cancelled :
    (fuel timer : ℕ) (s : GenericIoContext) (t : Tree)
    → IsRunning s t
    → 0 < count timer t
    → (s.timers.child left timer ≡ none) ⊎ (s.timers.child right timer ≡ none)
    → size t < fuel
    → Cancelled (do_cancel fuel timer s) timer s t
unfolding do_cancel await_resume
do_cancel-Cancelled fuel timer s t r p e f =
    let g =
      erase_from_parent-Taken fuel timer s.timers t r.links r.black_root p (r.owned timer p) e f in
    record {
      state = record s { timers = g.nodes; cancelled = update s.cancelled timer true };
      tree = g.tree;
      front = g.front;
      back = g.back;
      returns = rw (g.returns, follow);
      running = record {
        links = g.links;
        black_root = g.black_root;
        owned = λ i q.
            let n = member i g.front g.back g.tree g.was g.in_order q in
            g.others i n.0 ∙ r.owned i n.1;
        sorted = subst (IsSorted (earlier s.expires)) (sym g.in_order) (
            IsSorted-removed (earlier s.expires) timer g.front g.back
              (subst (IsSorted (earlier s.expires)) g.was r.sorted));
      };
      was = g.was;
      in_order = g.in_order;
      result = rw (update_self s.cancelled timer true);
      others = λ i ne. rw (update_other s.cancelled timer i true ne);
    }
  where
    member :
        (i : ℕ) (front back : List ℕ) (t' : Tree)
        → inorder t ≡ front ++ (timer ∷ back)
        → inorder t' ≡ front ++ back
        → 0 < count i t'
        → (i ≢ timer) × (0 < count i t)
    member i front back t' w w' q =
        let n : count i t ≡ one i timer + count i t' = omega (
          arith,
          occurrences-inorder i t,
          occurrences-inorder i t',
          ap (occurrences i) w,
          ap (occurrences i) w',
          occurrences-append i front (timer ∷ back),
          occurrences-append i front back,
        ) in
        (λ z. omega (arith, n, q, r.links.apart i, one-eq i timer z), omega (arith, n, q))
