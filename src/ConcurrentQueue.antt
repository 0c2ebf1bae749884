-- ===== src/ConcurrentQueue.antt =====
-- generic/queue.hpp and generic/condition_variable.hpp: push and pop of a ConcurrentQueue, which wait
-- on its ConditionVariable. What runs between the lock and the unlock of mMutex touches only the
-- queue and is one step; the loads and the fetch_add of the word, the kernel's comparison and its
-- wake-up are steps of their own, and the steps of all clients interleave. A futex_wait sleeps if and
-- only if the word still has the value given, and a wake-up of one with a mask wakes a sleeper
-- with that mask if there is one. What is undefined in the RingQueue has no step.
pub mod Fifo
pub mod Stuck
mod Tests
use my_async.Prelude.{
  ℕ, ◌+◌, ◌%◌, ◌^◌, ◌≡◌, ◌⊎◌, Bool, true, false, Option, some, List, [], ◌∷◌, ◌++◌, get_elem?, set,
  replicate, ◌==◌, if◌then◌else◌,
}
use my_async.RingQueue.{RingQueue, set_max_size, empty, full, pop_unchecked, push_unchecked}

-- The masks of the waits and of the notifications.
pub data Mask : Type 0 where
  non_empty non_full : Mask

-- What a client that waits has to do.
pub data Goal (A : Type 0) : Type 0 where
  to_pop : Goal A
  to_push : A → Goal A

-- Where a client stands: outside; before a round of the loop of `pop` or `push`; in
-- ConditionVariable::wait, before the first load, before the kernel's comparison, asleep, and before
-- the load of the loop's condition; and in notify_one, before and after the fetch_add.
pub data Client (A : Type 0) : Type 0 where
  idle : Client A
  looping loading : Goal A → Client A
  comparing sleeping checking : Goal A → ℕ → Client A
  notifying waking : Mask → Client A

-- The queue with its clients, and what has been pushed and popped so far.
pub record ConcurrentQueue (A : Type 0) : Type 0 where
  pub queue : RingQueue A
  pub ready : ℕ
  pub clients : List (Client A)
  pub pushed : List A
  pub popped : List A

abbrev pub mask : {A : Type 0} → Goal A → Mask
mask to_pop = non_empty
mask (to_push a) = non_full

-- `fetch_add(1)` on the word.
abbrev pub fetch_add : ℕ → ℕ
fetch_add word = (word + 1) % 2 ^ 32

module _ {A : Type 0} where
  -- Where a wait for the word `old` goes on behind the kernel's comparison,
  abbrev pub wait_compared : Goal A → ℕ → ℕ → Client A
  wait_compared goal old word = if word == old then sleeping goal old else checking goal old

  -- and behind the condition of its loop.
  abbrev pub wait_checked : Goal A → ℕ → ℕ → Client A
  wait_checked goal old word = if word == old then comparing goal old else looping goal

  abbrev pub move : ℕ → Client A → ConcurrentQueue A → ConcurrentQueue A
  move c client s = record {
    queue = s.queue;
    ready = s.ready;
    clients = set s.clients c client;
    pushed = s.pushed;
    popped = s.popped;
  }

  -- The last rounds of `pop` and of `push`: the entry is moved out or in, and a queue that was full
  -- or empty is notified of.
  abbrev pub pop_round : ℕ → A → RingQueue A → ConcurrentQueue A → ConcurrentQueue A
  pop_round c value queue s = record {
    queue = queue;
    ready = s.ready;
    clients = set s.clients c (if full s.queue then notifying non_full else idle);
    pushed = s.pushed;
    popped = s.popped ++ (value ∷ []);
  }

  abbrev pub push_round : ℕ → A → RingQueue A → ConcurrentQueue A → ConcurrentQueue A
  push_round c value queue s = record {
    queue = queue;
    ready = s.ready;
    clients = set s.clients c (if empty s.queue then notifying non_empty else idle);
    pushed = s.pushed ++ (value ∷ []);
    popped = s.popped;
  }

  abbrev pub add_round : ℕ → Mask → ConcurrentQueue A → ConcurrentQueue A
  add_round c m s = record {
    queue = s.queue;
    ready = fetch_add s.ready;
    clients = set s.clients c (waking m);
    pushed = s.pushed;
    popped = s.popped;
  }

-- The steps of client `c`.
pub data Step {A : Type 0} (s : ConcurrentQueue A) : ConcurrentQueue A → Type 0 where
  calls :
      (c : ℕ) (goal : Goal A) → get_elem? s.clients c ≡ some idle → Step s (move c (looping goal) s)
  pops :
      (c : ℕ) (value : A) (queue : RingQueue A)
      → get_elem? s.clients c ≡ some (looping to_pop)
      → empty s.queue ≡ false
      → pop_unchecked s.queue ≡ some (value, queue)
      → Step s (pop_round c value queue s)
  finds_empty :
      (c : ℕ)
      → get_elem? s.clients c ≡ some (looping to_pop)
      → empty s.queue ≡ true
      → Step s (move c (loading to_pop) s)
  pushes :
      (c : ℕ) (value : A) (queue : RingQueue A)
      → get_elem? s.clients c ≡ some (looping (to_push value))
      → full s.queue ≡ false
      → push_unchecked value s.queue ≡ some queue
      → Step s (push_round c value queue s)
  finds_full :
      (c : ℕ) (value : A)
      → get_elem? s.clients c ≡ some (looping (to_push value))
      → full s.queue ≡ true
      → Step s (move c (loading (to_push value)) s)
  loads :
      (c : ℕ) (goal : Goal A)
      → get_elem? s.clients c ≡ some (loading goal)
      → Step s (move c (comparing goal s.ready) s)
  compares :
      (c : ℕ) (goal : Goal A) (old : ℕ)
      → get_elem? s.clients c ≡ some (comparing goal old)
      → Step s (move c (wait_compared goal old s.ready) s)
  checks :
      (c : ℕ) (goal : Goal A) (old : ℕ)
      → get_elem? s.clients c ≡ some (checking goal old)
      → Step s (move c (wait_checked goal old s.ready) s)
  adds : (c : ℕ) (m : Mask) → get_elem? s.clients c ≡ some (notifying m) → Step s (add_round c m s)
  wakes :
      (c j : ℕ) (goal : Goal A) (old : ℕ)
      → get_elem? s.clients c ≡ some (waking (mask goal))
      → get_elem? s.clients j ≡ some (sleeping goal old)
      → Step s (move j (checking goal old) (move c idle s))
  wakes_nobody :
      (c : ℕ) (m : Mask)
      → get_elem? s.clients c ≡ some (waking m)
      → ((j : ℕ) (goal : Goal A) (old : ℕ)
          → get_elem? s.clients j ≡ some (sleeping goal old)
          → mask goal ≡ m
          → ⊥)
      → Step s (move c idle s)
  -- The wait ends with an error, and the call returns it.
  fails :
      (c : ℕ) (goal : Goal A) (old : ℕ)
      → (get_elem? s.clients c ≡ some (comparing goal old))
        ⊎ (get_elem? s.clients c ≡ some (sleeping goal old))
      → Step s (move c idle s)

-- A queue of `n` cells as it is made, with `k` clients.
abbrev pub new_queue : {A : Type 0} → A → ℕ → ℕ → ConcurrentQueue A
new_queue blank n k = record {
  queue = set_max_size blank n;
  ready = 0;
  clients = replicate k idle;
  pushed = [];
  popped = [];
}

pub data Reachable {A : Type 0} (s : ConcurrentQueue A) : ConcurrentQueue A → Type 0 where
  initial : Reachable s s
  next : (m m' : ConcurrentQueue A) → Reachable s m → Step m m' → Reachable s m'
