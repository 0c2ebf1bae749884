-- ===== src/Timers/Due.antt =====
-- generic/generic_io.cpp: runDuration resumes the timers that are due, in the order of their expiry.
use my_async.Prelude.{
  length-append, ℕ, ◌+◌, ◌-◌, ◌≤◌, ◌<◌, ◌≡◌, refl, sym, ap, ◌∙◌, subst, false, inl, inr, Option,
  none, some, List, [], ◌∷◌, ◌++◌, arith, leb, length, append_assoc, append-nil, Bool-cases, leb→le,
}
use my_async.Timers.{GenericIoContext, earlier, fire, run_duration}
use my_async.Timers.Running.{IsRunning, Taken, erase_from_parent-Taken, first-child}
use my_async.RbTree.{get_front, is_null}
use my_async.RbTree.Heap.{follow, update}
use my_async.RbTree.Tree.{
  Tree, leaf, node, top, count, inorder, one, one_self, one-eq, occurrences, occurrences-append,
  occurrences-inorder,
}
use my_async.RbTree.Links.{At}
use my_async.RbTree.Sorted.{IsSorted}
use my_async.RbTree.Descent.{size}
use my_async.RbTree.Reads.{first, first_in, get_front-first}

-- A resumed coroutine that neither starts nor cancels a timer.
pub record Quiet (resume : ℕ → GenericIoContext → GenericIoContext) : Type 0 where
  pub timers : (i : ℕ) (s : GenericIoContext) → (resume i s).timers ≡ s.timers
  pub expires : (i : ℕ) (s : GenericIoContext) → (resume i s).expires ≡ s.expires
  pub resumed : (i : ℕ) (s : GenericIoContext) → (resume i s).resumed ≡ s.resumed

-- The nodes before the first one of an order without repetitions.
front-empty :
    (x : ℕ) (l front back : List ℕ)
    → l ≡ front ++ (x ∷ back)
    → first l ≡ some x
    → occurrences x l ≤ 1
    → front ≡ []
front-empty x l [] back e k z = refl
front-empty x l (y ∷ front) back e k z = absurd (
    omega (
      arith,
      one-eq x y (some_injective (sym k ∙ ap first e)),
      one_self x,
      occurrences-append x front (x ∷ back),
      ap (occurrences x) e,
      z,
    ))
  where
    some_injective : some x ≡ some y → x ≡ y
    some_injective w = cc

-- A timer that expires first has left the tree, and its coroutine has been resumed.
pub record Fired (o : Option GenericIoContext) (s : GenericIoContext) (x : ℕ) (t : Tree)
    : Type 0 where
  pub state : GenericIoContext
  pub tree : Tree
  pub returns : o ≡ some state
  pub running : IsRunning state tree
  pub order : inorder t ≡ x ∷ inorder tree
  pub log : state.resumed ≡ s.resumed ++ (x ∷ [])
  pub clock : state.expires ≡ s.expires

first-occurs : (x : ℕ) (l : List ℕ) → first l ≡ some x → 0 < occurrences x l
first-occurs x [] e = absurd (none_ne_some e)
  where
    none_ne_some : none ≡ some x → ⊥
    none_ne_some w = cc
first-occurs x (a ∷ l) e = omega (arith, one-eq x a (some_injective e))
  where
    some_injective : some a ≡ some x → x ≡ a
    some_injective w = cc

-- The state with the tree that is left, for a coroutine that is quiet.
after-IsRunning :
    (s s' : GenericIoContext) (fuel x : ℕ) (t : Tree) (k : Taken fuel x s.timers t)
    → IsRunning s t
    → s'.timers ≡ k.nodes
    → s'.expires ≡ s.expires
    → inorder t ≡ x ∷ inorder k.tree
    → IsRunning s' k.tree
after-IsRunning s s' fuel x t k r e c o = record {
  links = subst (λ h. At h k.tree top) (sym e) k.links;
  black_root = k.black_root;
  owned = λ i p.
      let n : count i t ≡ one i x + count i k.tree =
        sym (occurrences-inorder i t)
        ∙ ap (occurrences i) o
        ∙ ap (λ (n : ℕ). one i x + n) (occurrences-inorder i k.tree) in
      ap (λ h. h.owned i) e
      ∙ k.others i (λ z. omega (arith, n, r.links.apart i, one-eq i x z))
      ∙ r.owned i (omega (arith, n, p));
  sorted =
      subst (λ w. IsSorted (earlier w) (inorder k.tree)) (sym c)
        (subst (IsSorted (earlier s.expires)) o r.sorted).1;
}

fire-Fired :
    (resume : ℕ → GenericIoContext → GenericIoContext) (q : Quiet resume) (fuel x : ℕ)
    (s : GenericIoContext) (t : Tree)
    → IsRunning s t
    → first (inorder t) ≡ some x
    → size t < fuel
    → Fired (fire resume fuel x s) s x t
unfolding fire
fire-Fired resume q fuel x s t r k f =
    let p : 0 < count x t =
      subst (λ (n : ℕ). 0 < n) (occurrences-inorder x t) (first-occurs x (inorder t) k) in
    let g =
      erase_from_parent-Taken fuel x s.timers t r.links r.black_root p (r.owned x p)
        (inl (first-child s.timers none t x r.links.here k)) f in
    let e : g.front ≡ [] =
      front-empty x (inorder t) g.front g.back g.was k
        (omega (arith, occurrences-inorder x t, r.links.apart x)) in
    let o : inorder t ≡ x ∷ inorder g.tree =
      g.was
      ∙ ap (λ l. l ++ (x ∷ g.back)) e
      ∙ ap (λ l. x ∷ l) (ap (λ l. l ++ g.back) (sym e) ∙ sym g.in_order) in
    let s₁ : GenericIoContext = record {
      timers = g.nodes;
      expires = s.expires;
      cancelled = update s.cancelled x false;
      resumed = s.resumed ++ (x ∷ []);
    } in
    record {
      state = resume x s₁;
      tree = g.tree;
      returns = rw (g.returns, follow);
      running = after-IsRunning s (resume x s₁) fuel x t g r (q.timers x s₁) (q.expires x s₁) o;
      order = o;
      log = q.resumed x s₁;
      clock = q.expires x s₁;
    }

-- What is due at a list of readings: the timers that fire, in order, each not before its expiry, and
-- the time to wait for the first of the others.
abbrev pub Outcome : (ℕ → ℕ) → List ℕ → List ℕ → Option ℕ → List ℕ → Type 0
Outcome e readings [] none rest = rest ≡ []
Outcome e [] [] (some wait) rest = ⊥
Outcome e (now ∷ later) [] (some wait) rest =
    (a : ℕ) × (first rest ≡ some a) × (now < e a) × (now + wait ≡ e a)
Outcome e [] (a ∷ fired) wait rest = ⊥
Outcome e (now ∷ later) (a ∷ fired) wait rest = (e a ≤ now) × Outcome e later fired wait rest

pub record Ran (o : Option (Option ℕ × GenericIoContext)) (readings : List ℕ) (s : GenericIoContext)
    (t : Tree) : Type 0 where
  pub wait : Option ℕ
  pub state : GenericIoContext
  pub tree : Tree
  pub fired : List ℕ
  pub returns : o ≡ some (wait, state)
  pub running : IsRunning state tree
  pub order : inorder t ≡ fired ++ inorder tree
  pub log : state.resumed ≡ s.resumed ++ fired
  pub outcome : Outcome s.expires readings fired wait (inorder tree)

length-inorder : (t : Tree) → length (inorder t) ≡ size t
length-inorder leaf = refl
length-inorder (node c l a r) =
    omega (arith, length-append (inorder l) (a ∷ inorder r), length-inorder l, length-inorder r)

not_due : (e now : ℕ) → leb e now ≡ false → now < e
not_due e now h = ground arith

waits : (e now : ℕ) → leb e now ≡ false → now + (e - now) ≡ e
waits e now h = ground arith

nothing-Ran :
    (resume : ℕ → GenericIoContext → GenericIoContext) (fuel : ℕ) (readings : List ℕ)
    (s : GenericIoContext)
    → IsRunning s leaf
    → run_duration resume fuel readings s ≡ some (none, s)
    → Ran (run_duration resume fuel readings s) readings s leaf
nothing-Ran resume fuel readings s r e = record {
  wait = none;
  state = s;
  tree = leaf;
  fired = [];
  returns = e;
  running = r;
  order = refl;
  log = sym (append-nil s.resumed);
  outcome = nothing-Outcome readings;
}
  where
    nothing-Outcome : (readings : List ℕ) → Outcome s.expires readings [] none []
    nothing-Outcome [] = refl
    nothing-Outcome (now ∷ later) = refl

-- When the timers stand in a tree with a black root, all owned by it and in the order of expiry,
-- and the resumed coroutines neither start nor cancel timers, `runDuration` with a reading of the
-- clock for each timer returns. It takes exactly a first part of the timers out of the tree and
-- resumes their coroutines in the order of expiry, each at a reading not before its expiry; it
-- gives nothing if none is left, and otherwise the time from its last reading to the expiry of
-- the next timer, which is not due yet. The timers left stand in such a tree again.
pub run_duration-Ran :
    (resume : ℕ → GenericIoContext → GenericIoContext) (q : Quiet resume) (fuel : ℕ)
    (readings : List ℕ) (s : GenericIoContext) (t : Tree)
    → IsRunning s t
    → size t < fuel
    → size t ≤ length readings
    → Ran (run_duration resume fuel readings s) readings s t
unfolding run_duration
run_duration-Ran resume q fuel [] s leaf r f g =
    nothing-Ran resume fuel [] s r (rw (ap is_null r.links.link))
run_duration-Ran resume q fuel (now ∷ later) s leaf r f g =
    nothing-Ran resume fuel (now ∷ later) s r (rw (ap is_null r.links.link))
run_duration-Ran resume q fuel [] s (node c l a t) r f g = absurd (omega arith)
run_duration-Ran resume q fuel (now ∷ later) s (node c l a t) r f g =
    let (x, k, p) = first_in c l a t in
    let front : get_front fuel s.timers ≡ some x =
      (get_front-first s.timers (node c l a t) fuel r.links (omega arith)).0 ∙ k in
    elim (Bool-cases (leb (s.expires x) now)) [
      | inl due ↦
          let w = fire-Fired resume q fuel x s (node c l a t) r k f in
          let n : size w.tree + 1 ≡ size (node c l a t) = omega (
            arith,
            length-inorder w.tree,
            length-inorder (node c l a t),
            ap (length {A = ℕ}) w.order,
          ) in
          let rest =
            run_duration-Ran resume q fuel later w.state w.tree w.running (omega (arith, n))
              (omega (arith, n)) in
          record {
            wait = rest.wait;
            state = rest.state;
            tree = rest.tree;
            fired = x ∷ rest.fired;
            returns =
                rw (ap is_null r.links.link)
                  (rw (front, follow) (rw due (rw (w.returns, follow) rest.returns)));
            running = rest.running;
            order = w.order ∙ ap (λ l'. x ∷ l') rest.order;
            log =
                rest.log
                ∙ ap (λ l'. l' ++ rest.fired) w.log
                ∙ append_assoc s.resumed (x ∷ []) rest.fired;
            outcome = (
              leb→le (s.expires x) now due,
              subst (λ e. Outcome e later rest.fired rest.wait (inorder rest.tree)) w.clock
                  rest.outcome,
            );
          }
      | inr early ↦ record {
        wait = some (s.expires x - now);
        state = s;
        tree = node c l a t;
        fired = [];
        returns = rw (ap is_null r.links.link) (rw (front, follow) (rw early));
        running = r;
        order = refl;
        log = sym (append-nil s.resumed);
        outcome = (x, k, not_due (s.expires x) now early, waits (s.expires x) now early);
      }
    ]
