-- ===== src/ConcurrentQueue/Fifo.antt =====
-- generic/queue.hpp: a ConcurrentQueue is a queue, first in first out, with a bound.
use my_async.Prelude.{
  ℕ, ◌-◌, ◌≤◌, ◌≡◌, refl, sym, ap, ◌∙◌, subst, none, some, true, false, [], ◌∷◌, ◌++◌, append_assoc,
  length, arith, Option, Bool, length-replicate, length-slice, slice,
}
use my_async.RingQueue.{
  RingQueue, set_max_size, max_size, empty, full, pop, push, pop_unchecked, push_unchecked,
}
use my_async.RingQueue.Fifo.{
  IsValid, contents, stored, refused, past_end, push-Pushed, nothing, first, pop-Popped,
}
use my_async.ConcurrentQueue.{
  ConcurrentQueue, Step, calls, pops, finds_empty, pushes, finds_full, loads, compares, checks,
  adds, wakes, wakes_nobody, fails, new_queue, Reachable, initial, next,
}

some_injective {ℓ} : {B : Type ℓ} {x y : B} → some x ≡ some y → x ≡ y
some_injective e = cc

module _ {A : Type 0} where
  -- What the unchecked operations do behind their test.
  pop_tested :
      (q q' : RingQueue A) (a : A)
      → empty q ≡ false
      → pop_unchecked q ≡ some (a, q')
      → pop q ≡ some (some a, q')
  unfolding pop
  pop_tested q q' a h e = rw h (rw e refl)

  push_tested :
      (q q' : RingQueue A) (a : A)
      → full q ≡ false
      → push_unchecked a q ≡ some q'
      → push a q ≡ some (true, q')
  unfolding push
  push_tested q q' a h e = rw h (rw e refl)

  -- What a queue is when an entry has moved.
  abbrev Took : RingQueue A → A → RingQueue A → Type 0
  Took q a q' = IsValid q' × (contents q ≡ a ∷ contents q') × (max_size q' ≡ max_size q)

  abbrev Put : RingQueue A → A → RingQueue A → Type 0
  Put q a q' = IsValid q' × (contents q' ≡ contents q ++ (a ∷ [])) × (max_size q' ≡ max_size q)

  pop_unchecked-Took :
      (q q' : RingQueue A) (a : A)
      → IsValid q
      → empty q ≡ false
      → pop_unchecked q ≡ some (a, q')
      → Took q a q'
  pop_unchecked-Took q q' a v h e = elim (pop-Popped q v) [
    | nothing no_entry e' ↦ absurd (not_both (sym e' ∙ pop_tested q q' a h e))
    | first b p v' split e' at_write kept ↦
        let (same_entry, same_queue) = agree b p (sym e' ∙ pop_tested q q' a h e) in
        subst (λ z. Took q z q') same_entry (subst (Took q b) same_queue (v', split, kept))
  ]
    where
      not_both : ◌≡◌ {A = Option (Option A × RingQueue A)} (some (none, q)) (some (some a, q')) → ⊥
      not_both z = let w = ap (λ x. x.0) (some_injective z) in cc

      agree :
          (b : A) (p : RingQueue A)
          → ◌≡◌ {A = Option (Option A × RingQueue A)} (some (some b, p)) (some (some a, q'))
          → (b ≡ a) × (p ≡ q')
      agree b p z = let w = some_injective z in (some_injective (ap (λ x. x.0) w), ap (λ x. x.1) w)

  push_unchecked-Put :
      (q q' : RingQueue A) (a : A)
      → IsValid q
      → full q ≡ false
      → push_unchecked a q ≡ some q'
      → Put q a q'
  push_unchecked-Put q q' a v h e = elim (push-Pushed a q v) [
    | stored p v' split e' less at_write kept ↦
        subst (Put q a) (ap (λ x. x.1) (some_injective (sym e' ∙ push_tested q q' a h e)))
          (v', split, kept)
    | refused at_end fresh e' ↦
        absurd (not_both (ap (λ x. x.0) (some_injective (sym e' ∙ push_tested q q' a h e))))
    | past_end at_end used e' ↦ absurd (not_defined (sym e' ∙ push_tested q q' a h e))
  ]
    where
      not_both : false ≡ true → ⊥
      not_both z = cc

      not_defined : ◌≡◌ {A = Option (Bool × RingQueue A)} none (some (true, q')) → ⊥
      not_defined z = cc

  -- What has been pushed is what has been popped and what is in the queue, which has not outgrown
  -- its cells.
  record IsFifo (n : ℕ) (s : ConcurrentQueue A) : Type 0 where
    valid : IsValid s.queue
    order : s.pushed ≡ s.popped ++ contents s.queue
    cells : max_size s.queue ≡ n

  Step-IsFifo : {n : ℕ} {s s' : ConcurrentQueue A} → Step s s' → IsFifo n s → IsFifo n s'
  Step-IsFifo {s} (pops c a q e h d) v =
      let (valid, split, kept) = pop_unchecked-Took s.queue q a v.valid h d in
      record {
        valid = valid;
        order =
            v.order
            ∙ ap (λ xs. s.popped ++ xs) split
            ∙ sym (append_assoc s.popped (a ∷ []) (contents q));
        cells = kept ∙ v.cells;
      }
  Step-IsFifo {s} (pushes c a q e h d) v =
      let (valid, split, kept) = push_unchecked-Put s.queue q a v.valid h d in
      record {
        valid = valid;
        order =
            ap (λ xs. xs ++ (a ∷ [])) v.order
            ∙ append_assoc s.popped (contents s.queue) (a ∷ [])
            ∙ sym (ap (λ xs. s.popped ++ xs) split);
        cells = kept ∙ v.cells;
      }
  Step-IsFifo (calls c goal e) v = record { valid = v.valid; order = v.order; cells = v.cells }
  Step-IsFifo (finds_empty c e h) v = record { valid = v.valid; order = v.order; cells = v.cells }
  Step-IsFifo (finds_full c a e h) v = record { valid = v.valid; order = v.order; cells = v.cells }
  Step-IsFifo (loads c goal e) v = record { valid = v.valid; order = v.order; cells = v.cells }
  Step-IsFifo (compares c goal old e) v = record {
    valid = v.valid;
    order = v.order;
    cells = v.cells;
  }
  Step-IsFifo (checks c goal old e) v = record { valid = v.valid; order = v.order; cells = v.cells }
  Step-IsFifo (adds c m e) v = record { valid = v.valid; order = v.order; cells = v.cells }
  Step-IsFifo (wakes c j goal old e h) v = record {
    valid = v.valid;
    order = v.order;
    cells = v.cells;
  }
  Step-IsFifo (wakes_nobody c m e h) v = record {
    valid = v.valid;
    order = v.order;
    cells = v.cells;
  }
  Step-IsFifo (fails c goal old e) v = record { valid = v.valid; order = v.order; cells = v.cells }

  new_queue-IsFifo : (blank : A) (n k : ℕ) → IsFifo n (new_queue blank n k)
  unfolding set_max_size slice
  new_queue-IsFifo blank n k = record {
    valid = record { ordered = omega arith; in_range = omega arith };
    order = refl;
    cells = length-replicate n blank;
  }

  Reachable-IsFifo : {n : ℕ} {s s' : ConcurrentQueue A} → Reachable s s' → IsFifo n s → IsFifo n s'
  Reachable-IsFifo initial v = v
  Reachable-IsFifo (next m m' r t) v = Step-IsFifo t (Reachable-IsFifo r v)

-- However the steps of the k clients of a ConcurrentQueue with n cells interleave, and as long as
-- no access to the cells is undefined, the entries pushed so far are the entries popped so far
-- followed by those in the queue, in this order, and the queue never holds more than n entries.
pub first_in_first_out :
    {A : Type 0} (blank : A) (n k : ℕ) (s : ConcurrentQueue A)
    → Reachable (new_queue blank n k) s
    → (s.pushed ≡ s.popped ++ contents s.queue) × (length (contents s.queue) ≤ n)
first_in_first_out blank n k s r =
    let v = Reachable-IsFifo r (new_queue-IsFifo blank n k) in
    let ok = v.valid in
    let count =
      length-slice s.queue.cells s.queue.read (s.queue.write - s.queue.read)
        (omega (arith, ok.ordered, ok.in_range)) in
    (v.order, omega (arith, count, ok.ordered, ok.in_range, v.cells))
