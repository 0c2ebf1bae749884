-- ===== src/RingQueue/Bounded.antt =====
-- utils/ring_queue.hpp: a RingQueue against the queue without a bound, and what `size` reports.
use my_async.InfinityQueue
use my_async.InfinityQueue.{Op, pushing, popping, Reply, pushed, popped}
use native.Mathlib.Nat.{add-mod_right}
use my_async.Prelude.{
  ℕ, suc, ◌+◌, ◌-◌, ◌%◌, ◌≤◌, ◌<◌, ◌^◌, ◌≡◌, refl, ap, ◌∙◌, false, some, List, [], ◌∷◌, length,
  length-slice, add_size, sub_size, arith, ◌==◌,
}
use my_async.RingQueue.{RingQueue, max_size, size, run}
use my_async.RingQueue.Fifo.{
  IsValid, contents, stored, refused, past_end, push-Pushed, nothing, first, pop-Popped,
}

module _ {ℓ} {A : Type ℓ} where
  abbrev pub pushes : List (Op A) → ℕ
  pushes [] = 0
  pushes (pushing a ∷ ops) = suc (pushes ops)
  pushes (popping ∷ ops) = pushes ops

  -- The replies and the entries that are left are those of the queue without a bound.
  pub record RunsAlike (ops : List (Op A)) (q : RingQueue A) : Type ℓ where
    pub left : RingQueue A
    pub runs : run ops q ≡ some ((InfinityQueue.run ops (contents q)).0, left)
    pub left-IsValid : IsValid left
    pub holds : contents left ≡ (InfinityQueue.run ops (contents q)).1

  -- On a RingQueue that has not wrapped around, every sequence of operations with no more pushes
  -- than there are cells behind the write position is defined; the replies and the entries left
  -- are those of an InfinityQueue with the same entries.
  pub run-RunsAlike :
      (ops : List (Op A)) (q : RingQueue A)
      → IsValid q
      → q.write + pushes ops ≤ max_size q
      → RunsAlike ops q
  unfolding run InfinityQueue.push InfinityQueue.pop
  run-RunsAlike [] q v room = record { left = q; runs = refl; left-IsValid = v; holds = refl }
  run-RunsAlike (pushing a ∷ ops) q v room = elim (push-Pushed a q v) [
    | stored q' v' split e less at_write kept ↦
        let rest = run-RunsAlike ops q' v' (omega (arith, at_write, kept)) in
        record {
          left = rest.left;
          runs = rw (e, run) (rw rest.runs (rw split refl));
          left-IsValid = rest.left-IsValid;
          holds = rest.holds ∙ rw split refl;
        }
    | refused at_end fresh e ↦ absurd (omega arith)
    | past_end at_end used e ↦ absurd (omega arith)
  ]
  run-RunsAlike (popping ∷ ops) q v room = elim (pop-Popped q v) [
    | nothing no_entry e ↦
        let rest = run-RunsAlike ops q v room in
        record {
          left = rest.left;
          runs = rw (e, run) (rw rest.runs (rw no_entry refl));
          left-IsValid = rest.left-IsValid;
          holds = rest.holds ∙ rw no_entry refl;
        }
    | first a q' v' split e at_write kept ↦
        let rest = run-RunsAlike ops q' v' (omega (arith, at_write, kept)) in
        record {
          left = rest.left;
          runs = rw (e, run) (rw rest.runs (rw split refl));
          left-IsValid = rest.left-IsValid;
          holds = rest.holds ∙ rw split refl;
        }
  ]

  -- On a RingQueue that has not wrapped around and has between 1 and 2 ^ 62 cells, `size` is the
  -- number of entries modulo the number of cells.
  pub size_lem :
      (q : RingQueue A)
      → IsValid q
      → 0 < max_size q
      → max_size q < 2 ^ 62
      → size q ≡ some (length (contents q) % max_size q)
  unfolding size
  size_lem q v pos small =
      let some_cells : (max_size q == 0) ≡ false = ground arith in
      let count =
        length-slice q.cells q.read (q.write - q.read) (omega (arith, v.ordered, v.in_range)) in
      let sum : add_size (sub_size q.write q.read) (max_size q) ≡ q.write - q.read + max_size q =
        omega (arith, v.ordered, v.in_range) in
      rw some_cells (rw (count, sum) (ap some (add-mod_right (q.write - q.read) (max_size q))))
