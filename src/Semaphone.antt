-- ===== src/Semaphone.antt =====
-- generic/semaphone.hpp: the counting semaphore, as the code has it. A task acquires or releases; the
-- loads and the compare-exchange of the counter, the kernel's comparison in `futex_wait` and its wake-up
-- are the steps that interleave. A compare_exchange_weak may fail although the counter is the value
-- expected. A wait sleeps if and only if the counter still is the value given.
pub mod Counter
mod Tests
use my_async.Prelude.{
  ℕ, ◌+◌, ◌-◌, ◌%◌, ◌^◌, ◌≡◌, ◌≢◌, ◌⊎◌, Bool, true, false, List, get_elem?, set, replicate, some,
  ◌==◌, if◌then◌else◌,
}

-- Acquiring goes down from the counter, releasing up.
pub data Kind : Type 0 where
  acquire release : Kind

-- Where a task stands: outside; with a value that it has loaded, before the inner loop; in
-- the futex_wait for that value, before and after the comparison; behind a wait, before the next load;
-- before the compare-exchange; before the
-- notification; and behind a call that has succeeded.
pub data Phase : Type 0 where
  idle : Phase
  loaded waiting sleeping exchanging : Kind → ℕ → Phase
  reloading notifying succeeded : Kind → Phase

pub record Semaphone : Type 0 where
  pub counter : ℕ
  pub max_count : ℕ
  pub tasks : List Phase

-- The value at which the inner loop waits, and the one that the exchange stores.
abbrev pub blocked : Kind → ℕ → ℕ → Bool
blocked acquire max_count count = count == 0
blocked release max_count count = count == max_count

abbrev pub wanted : Kind → ℕ → ℕ
wanted acquire count = (count + 2 ^ 32 - 1) % 2 ^ 32
wanted release count = (count + 1) % 2 ^ 32

-- The test of the inner loop.
abbrev pub after_test : Kind → ℕ → ℕ → Phase
after_test kind max_count count =
    if blocked kind max_count count then waiting kind count else exchanging kind count

abbrev pub move : ℕ → Phase → Semaphone → Semaphone
move i p s = record { counter = s.counter; max_count = s.max_count; tasks = set s.tasks i p }

-- The steps of the tasks. The outer loop goes on as long as the exchange succeeds.
pub data Step (s : Semaphone) : Semaphone → Type 0 where
  loads :
      (i : ℕ) (kind : Kind)
      → (get_elem? s.tasks i ≡ some idle) ⊎ (get_elem? s.tasks i ≡ some (reloading kind))
      → Step s (move i (loaded kind s.counter) s)
  tests :
      (i : ℕ) (kind : Kind) (count : ℕ)
      → get_elem? s.tasks i ≡ some (loaded kind count)
      → Step s (move i (after_test kind s.max_count count) s)
  compares :
      (i : ℕ) (kind : Kind) (count : ℕ)
      → get_elem? s.tasks i ≡ some (waiting kind count)
      → Step s (move i (if s.counter == count then sleeping kind count else reloading kind) s)
  wakes :
      (i : ℕ) (kind : Kind) (count : ℕ)
      → get_elem? s.tasks i ≡ some (sleeping kind count)
      → Step s (move i (reloading kind) s)
  -- A successful exchange, after which the loop goes on with the same expected value.
  succeeds :
      (i : ℕ) (kind : Kind)
      → get_elem? s.tasks i ≡ some (exchanging kind s.counter)
      → Step s (record {
        counter = wanted kind s.counter;
        max_count = s.max_count;
        tasks = set s.tasks i (loaded kind s.counter);
      })
  -- A failed one, which ends the loop.
  fails :
      (i : ℕ) (kind : Kind) (count : ℕ)
      → get_elem? s.tasks i ≡ some (exchanging kind count)
      → Step s (move i (notifying kind) s)
  notifies :
      (i : ℕ) (kind : Kind)
      → get_elem? s.tasks i ≡ some (notifying kind)
      → Step s (move i (succeeded kind) s)
  -- A wait ends with an error, and the call returns it.
  gives_up :
      (i : ℕ) (kind : Kind) (count : ℕ)
      → (get_elem? s.tasks i ≡ some (waiting kind count))
        ⊎ (get_elem? s.tasks i ≡ some (sleeping kind count))
      → Step s (move i idle s)

pub data Reachable (s : Semaphone) : Semaphone → Type 0 where
  initial : Reachable s s
  next : (m m' : Semaphone) → Reachable s m → Step m m' → Reachable s m'
