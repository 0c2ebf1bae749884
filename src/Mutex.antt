-- ===== src/Mutex.antt =====
-- generic/mutex.hpp: BasicMutex over a futex, with any number of tasks that run on several threads.
-- The atomic operations on the word, the kernel's comparison in `futex_wait` and its wake-up are the
-- steps that interleave. What the kernel does with a futex is documented: a wait sleeps if and only
-- if the word still has the value given, in one step with the comparison, and a wake-up of one wakes
-- a sleeper if there is one.
pub mod Counts
pub mod Safety
mod Tests
use my_async.Prelude.{
  ℕ, zero, suc, ◌+◌, ◌≡◌, ◌⊎◌, Bool, true, false, not, Option, some, List, [], ◌∷◌, get_elem?, set,
  replicate,
}

-- Where a task stands: outside, before the exchange of `lock`, before the futex_wait, in it, inside,
-- and between the store of `unlock` and its notification.
pub data Phase : Type 0 where
  idle locking checking sleeping holding notifying : Phase

pub record BasicMutex : Type 0 where
  pub word : Bool
  pub tasks : List Phase

-- `mFutex.exchange(true)`: the old word and the new one.
abbrev pub exchange : Bool → Bool × Bool
exchange old = (old, true)

-- `try_lock`: the answer and the word.
unfoldable pub try_lock : Bool → Bool × Bool
try_lock word = let (old, new) = exchange word in (not old, new)

-- Where `lock` goes on after its exchange,
abbrev pub after_exchange : Bool → Phase
after_exchange true = checking
after_exchange false = holding

-- and after the comparison of the word with `true` in its futex_wait.
abbrev pub after_compare : Bool → Phase
after_compare true = sleeping
after_compare false = locking

-- Where a task is after a `try_lock` that answered so.
abbrev pub after_try : Bool → Phase
after_try true = holding
after_try false = idle

-- The steps of the tasks; each constructor that takes `i` is one of task `i`.
pub data Step (m : BasicMutex) : BasicMutex → Type 0 where
  starts :
      (i : ℕ)
      → get_elem? m.tasks i ≡ some idle
      → Step m (record { word = m.word; tasks = set m.tasks i locking })
  tries :
      (i : ℕ)
      → get_elem? m.tasks i ≡ some idle
      → Step m (record {
        word = (try_lock m.word).1;
        tasks = set m.tasks i (after_try (try_lock m.word).0);
      })
  exchanges :
      (i : ℕ)
      → get_elem? m.tasks i ≡ some locking
      → Step m (record {
        word = (exchange m.word).1;
        tasks = set m.tasks i (after_exchange (exchange m.word).0);
      })
  compares :
      (i : ℕ)
      → get_elem? m.tasks i ≡ some checking
      → Step m (record { word = m.word; tasks = set m.tasks i (after_compare m.word) })
  stores :
      (i : ℕ)
      → get_elem? m.tasks i ≡ some holding
      → Step m (record { word = false; tasks = set m.tasks i notifying })
  wakes :
      (i j : ℕ)
      → get_elem? m.tasks i ≡ some notifying
      → get_elem? m.tasks j ≡ some sleeping
      → Step m (record { word = m.word; tasks = set (set m.tasks i idle) j locking })
  wakes_nobody :
      (i : ℕ)
      → get_elem? m.tasks i ≡ some notifying
      → ((j : ℕ) → get_elem? m.tasks j ≡ some sleeping → ⊥)
      → Step m (record { word = m.word; tasks = set m.tasks i idle })
  -- The wait ends with an error, and `lock` returns it.
  fails :
      (i : ℕ)
      → (get_elem? m.tasks i ≡ some sleeping) ⊎ (get_elem? m.tasks i ≡ some checking)
      → Step m (record { word = m.word; tasks = set m.tasks i idle })

-- A free mutex, and what the tasks may make of it.
abbrev pub new_mutex : ℕ → BasicMutex
new_mutex n = record { word = false; tasks = replicate n idle }

pub data Reachable (n : ℕ) : BasicMutex → Type 0 where
  initial : Reachable n (new_mutex n)
  next : (m m' : BasicMutex) → Reachable n m → Step m m' → Reachable n m'
