-- ===== src/ThreadPool.antt =====
-- generic/thread_pool.cpp: submitJob and the main loop of the threads of a Thread_pool. A Thread is
-- known by its position in mThreads, from which nothing is removed while the pool lives. A section
-- under a lock is one step where no other lock is taken inside it; the lock mMutex of a thread is
-- held through the end of a round of its loop, and `workOn` waits for it. The steps of the threads
-- and of the callers interleave in any order. A job stands for the function given; exceptions are
-- compiled out. The pool is not destroyed, so no stop is requested.
mod Owners
pub mod Jobs
pub mod Rest
pub mod Working
mod Tests
use my_async.Prelude.{
  ℕ, ◌≡◌, ◌⊎◌, Bool, true, false, not, Option, none, some, List, [], ◌∷◌, ◌++◌, get_elem?, set,
  replicate, length, ◌==◌, if◌then◌else◌,
}

-- Where the loop of a thread stands: in the wait on mCV; in the job that it has taken; behind it,
-- before it locks mMutex again; before and after it takes itself off the working threads; and
-- behind its entry among the free ones, with mMutex still held.
pub data Place (Job : Type 0) : Type 0 where
  waiting : Place Job
  running : Job → Place Job
  relocking finished removed leaving : Place Job

pub record Thread (Job : Type 0) : Type 0 where
  pub task : Option Job
  pub place : Place Job

-- Where a call of submitJob stands: before it looks for a free thread; with none, before it makes
-- one; before and after `workOn`; and behind its entry among the working threads.
pub data Call (Job : Type 0) : Type 0 where
  idle : Call Job
  submitting creating : Job → Call Job
  given : ℕ → Job → Call Job
  worked returned : ℕ → Call Job

-- The pool with its callers, and what has been submitted and done since it was made.
pub record ThreadPool (Job : Type 0) : Type 0 where
  pub threads : List (Thread Job)
  pub free_threads : List ℕ
  pub working_threads : List ℕ
  pub calls : List (Call Job)
  pub submitted : List Job
  pub done : List Job

-- `list::remove`, which takes every entry.
abbrev pub remove : ℕ → List ℕ → List ℕ
remove i [] = []
remove i (j ∷ js) = let rest = remove i js in if i == j then rest else j ∷ rest

module _ {Job : Type 0} where
  -- Whether mMutex can be locked.
  abbrev pub unlocked : Place Job → Bool
  unlocked waiting = true
  unlocked (running job) = true
  unlocked relocking = true
  unlocked finished = false
  unlocked removed = false
  unlocked leaving = false

  abbrev pub new_thread : Thread Job
  new_thread = record { task = none; place = waiting }

  abbrev pub work_on : Job → Thread Job → Thread Job
  work_on job t = record { task = some job; place = t.place }

  -- The free thread that is taken, if there is one, and the free threads left.
  abbrev pub look : Job → List ℕ → Call Job × List ℕ
  look job [] = (creating job, [])
  look job (i ∷ free) = (given i job, free)

  -- A call or a thread moves on.
  abbrev pub move_call : ℕ → Call Job → ThreadPool Job → ThreadPool Job
  move_call c call s = record {
    threads = s.threads;
    free_threads = s.free_threads;
    working_threads = s.working_threads;
    calls = set s.calls c call;
    submitted = s.submitted;
    done = s.done;
  }

  abbrev pub move_thread : ℕ → Thread Job → ThreadPool Job → ThreadPool Job
  move_thread i t s = record {
    threads = set s.threads i t;
    free_threads = s.free_threads;
    working_threads = s.working_threads;
    calls = s.calls;
    submitted = s.submitted;
    done = s.done;
  }

  -- The steps of submitJob.
  abbrev pub submit : ℕ → Job → ThreadPool Job → ThreadPool Job
  submit c job s = record {
    threads = s.threads;
    free_threads = s.free_threads;
    working_threads = s.working_threads;
    calls = set s.calls c (submitting job);
    submitted = job ∷ s.submitted;
    done = s.done;
  }

  abbrev pub look_for_thread : ℕ → Job → ThreadPool Job → ThreadPool Job
  look_for_thread c job s =
      let (call, free) = look job s.free_threads in
      record {
        threads = s.threads;
        free_threads = free;
        working_threads = s.working_threads;
        calls = set s.calls c call;
        submitted = s.submitted;
        done = s.done;
      }

  abbrev pub emplace_thread : ℕ → Job → ThreadPool Job → ThreadPool Job
  emplace_thread c job s = record {
    threads = s.threads ++ (new_thread ∷ []);
    free_threads = s.free_threads;
    working_threads = s.working_threads;
    calls = set s.calls c (given (length s.threads) job);
    submitted = s.submitted;
    done = s.done;
  }

  abbrev pub give_job : ℕ → ℕ → Job → Thread Job → ThreadPool Job → ThreadPool Job
  give_job c i job t s = move_call c (worked i) (move_thread i (work_on job t) s)

  abbrev pub push_working : ℕ → ℕ → ThreadPool Job → ThreadPool Job
  push_working c i s = record {
    threads = s.threads;
    free_threads = s.free_threads;
    working_threads = s.working_threads ++ (i ∷ []);
    calls = set s.calls c (returned i);
    submitted = s.submitted;
    done = s.done;
  }

  -- The steps of startMain that change more than the thread: the job is done; the thread is taken
  -- off the working ones; and it is a free one again.
  abbrev pub do_task : ℕ → Job → Thread Job → ThreadPool Job → ThreadPool Job
  do_task i job t s = record {
    threads = set s.threads i (record { task = t.task; place = relocking });
    free_threads = s.free_threads;
    working_threads = s.working_threads;
    calls = s.calls;
    submitted = s.submitted;
    done = job ∷ s.done;
  }

  abbrev pub remove_working : ℕ → Thread Job → ThreadPool Job → ThreadPool Job
  remove_working i t s = record {
    threads = set s.threads i (record { task = t.task; place = removed });
    free_threads = s.free_threads;
    working_threads = remove i s.working_threads;
    calls = s.calls;
    submitted = s.submitted;
    done = s.done;
  }

  abbrev pub push_free : ℕ → Thread Job → ThreadPool Job → ThreadPool Job
  push_free i t s = record {
    threads = set s.threads i (record { task = t.task; place = leaving });
    free_threads = s.free_threads ++ (i ∷ []);
    working_threads = s.working_threads;
    calls = s.calls;
    submitted = s.submitted;
    done = s.done;
  }

-- The steps of the callers and of the threads; `c` is the caller and `i` the thread.
pub data Step {Job : Type 0} (s : ThreadPool Job) : ThreadPool Job → Type 0 where
  submits :
      (c : ℕ) (job : Job)
      → (get_elem? s.calls c ≡ some idle) ⊎ ((i : ℕ) × (get_elem? s.calls c ≡ some (returned i)))
      → Step s (submit c job s)
  looks :
      (c : ℕ) (job : Job)
      → get_elem? s.calls c ≡ some (submitting job)
      → Step s (look_for_thread c job s)
  creates :
      (c : ℕ) (job : Job)
      → get_elem? s.calls c ≡ some (creating job)
      → Step s (emplace_thread c job s)
  gives :
      (c i : ℕ) (job : Job) (t : Thread Job)
      → get_elem? s.calls c ≡ some (given i job)
      → get_elem? s.threads i ≡ some t
      → unlocked t.place ≡ true
      → Step s (give_job c i job t s)
  lists : (c i : ℕ) → get_elem? s.calls c ≡ some (worked i) → Step s (push_working c i s)
  takes :
      (i : ℕ) (job : Job)
      → get_elem? s.threads i ≡ some (record { task = some job; place = waiting })
      → Step s (move_thread i (record { task = none; place = running job }) s)
  runs :
      (i : ℕ) (job : Job) (task : Option Job)
      → get_elem? s.threads i ≡ some (record { task = task; place = running job })
      → Step s (do_task i job (record { task = task; place = running job }) s)
  relocks :
      (i : ℕ) (task : Option Job)
      → get_elem? s.threads i ≡ some (record { task = task; place = relocking })
      → Step s (move_thread i (record { task = none; place = finished }) s)
  removes :
      (i : ℕ) (task : Option Job)
      → get_elem? s.threads i ≡ some (record { task = task; place = finished })
      → Step s (remove_working i (record { task = task; place = finished }) s)
  frees :
      (i : ℕ) (task : Option Job)
      → get_elem? s.threads i ≡ some (record { task = task; place = removed })
      → Step s (push_free i (record { task = task; place = removed }) s)
  leaves :
      (i : ℕ) (task : Option Job)
      → get_elem? s.threads i ≡ some (record { task = task; place = leaving })
      → Step s (move_thread i (record { task = task; place = waiting }) s)

-- A pool as it is made, with `n` callers.
abbrev pub new_pool : {Job : Type 0} → ℕ → ThreadPool Job
new_pool n = record {
  threads = [];
  free_threads = [];
  working_threads = [];
  calls = replicate n idle;
  submitted = [];
  done = [];
}

pub data Reachable {Job : Type 0} (n : ℕ) : ThreadPool Job → Type 0 where
  initial : Reachable n (new_pool n)
  next : (s s' : ThreadPool Job) → Reachable n s → Step s s' → Reachable n s'
