-- ===== src/ConcurrentQueue/Stuck.antt =====
-- generic/queue.hpp: a wake-up that a ConcurrentQueue does not give.
use my_async.Prelude.{ℕ, refl, [], ◌∷◌, replicate}
use my_async.RingQueue.{RingQueue, set_max_size, empty, full, pop_unchecked, push_unchecked}
use my_async.ConcurrentQueue.{
  to_pop, to_push, Client, idle, looping, loading, comparing, sleeping, non_empty, ConcurrentQueue,
  calls, pops, finds_empty, pushes, loads, compares, checks, adds, wakes, new_queue, move,
  push_round, add_round, Reachable, initial, next,
}

-- A queue of 64 cells, as a PipeStreamBuffer has it, with two consumers and a producer.
module _ {A : Type 0} (blank a b : A) where
  abbrev cells_at : A → A → ℕ → ℕ → RingQueue A
  cells_at x y read write = record {
    cells = x ∷ (y ∷ replicate 62 blank);
    read = read;
    write = write;
  }

  -- Both consumers sleep.
  abbrev pub asleep : ConcurrentQueue A
  asleep = record {
    queue = cells_at blank blank 0 0;
    ready = 0;
    clients = sleeping to_pop 0 ∷ (sleeping to_pop 0 ∷ (idle ∷ []));
    pushed = [];
    popped = [];
  }

  -- Both entries have been pushed, one has been popped, and a consumer still sleeps.
  abbrev pub stuck : ConcurrentQueue A
  stuck = record {
    queue = cells_at a b 1 2;
    ready = 1;
    clients = idle ∷ (sleeping to_pop 0 ∷ (idle ∷ []));
    pushed = a ∷ (b ∷ []);
    popped = a ∷ [];
  }

  falls_asleep : Reachable (new_queue blank 64 3) asleep
  unfolding set_max_size empty
  falls_asleep =
      let s₀ = new_queue blank 64 3 in
      let s₁ = move 0 (looping to_pop) s₀ in
      let s₂ = move 0 (loading to_pop) s₁ in
      let s₃ = move 0 (comparing to_pop 0) s₂ in
      let s₄ = move 0 (sleeping to_pop 0) s₃ in
      let s₅ = move 1 (looping to_pop) s₄ in
      let s₆ = move 1 (loading to_pop) s₅ in
      let s₇ = move 1 (comparing to_pop 0) s₆ in
      let r₄ =
        next s₃ s₄
          (next s₂ s₃
            (next s₁ s₂ (next s₀ s₁ initial (calls 0 to_pop refl)) (finds_empty 0 refl refl))
            (loads 0 to_pop refl))
          (compares 0 to_pop 0 refl) in
      next s₇ asleep
        (next s₆ s₇ (next s₅ s₆ (next s₄ s₅ r₄ (calls 1 to_pop refl)) (finds_empty 1 refl refl))
          (loads 1 to_pop refl))
        (compares 1 to_pop 0 refl)

  -- With any two entries, a ConcurrentQueue of 64 cells can reach a state in which both have been
  -- pushed and only the first has been popped, no call of push or notification is in progress,
  -- and the second of two consumers still sleeps in pop.
  pub lost_wake : Reachable (new_queue blank 64 3) stuck
  unfolding empty full pop_unchecked push_unchecked
  lost_wake =
      let q₁ = cells_at a blank 0 1 in
      let q₂ = cells_at a b 0 2 in
      let s₁ = move 2 (looping (to_push a)) asleep in
      let s₂ = push_round 2 a q₁ s₁ in
      let s₃ = add_round 2 non_empty s₂ in
      let s₄ = move 0 (Client.checking to_pop 0) (move 2 idle s₃) in
      let s₅ = move 2 (looping (to_push b)) s₄ in
      let s₆ = push_round 2 b q₂ s₅ in
      let s₇ = move 0 (looping to_pop) s₆ in
      let r₄ =
        next s₃ s₄
          (next s₂ s₃
            (next s₁ s₂ (next asleep s₁ falls_asleep (calls 2 (to_push a) refl))
              (pushes 2 a q₁ refl refl refl))
            (adds 2 non_empty refl))
          (wakes 2 0 to_pop 0 refl refl) in
      next s₇ stuck
        (next s₆ s₇
          (next s₅ s₆ (next s₄ s₅ r₄ (calls 2 (to_push b) refl)) (pushes 2 b q₂ refl refl refl))
          (checks 0 to_pop 0 refl))
        (pops 0 a (cells_at a b 1 2) refl refl refl)
